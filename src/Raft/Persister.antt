-- ===== src/Raft/Persister.antt =====
-- `Persister` of raft/persister.go: two texts under a lock.
use my_raft.Base.{ℕ, [], Bytes, length}

pub record Persister : Type 0 where
  pub raftstate : Bytes
  pub snapshot : Bytes

abbrev pub make_persister : Persister
make_persister = record { raftstate = []; snapshot = [] }

abbrev pub copy : Persister → Persister
copy ps = record make_persister { raftstate = ps.raftstate; snapshot = ps.snapshot }

abbrev pub save_raft_state : Bytes → Persister → Persister
save_raft_state bytes ps = record ps { raftstate = bytes }

abbrev pub read_raft_state : Persister → Bytes
read_raft_state ps = ps.raftstate

abbrev pub raft_state_size : Persister → ℕ
raft_state_size ps = length ps.raftstate

abbrev pub save_snapshot : Bytes → Persister → Persister
save_snapshot bytes ps = record ps { snapshot = bytes }

abbrev pub read_snapshot : Persister → Bytes
read_snapshot ps = ps.snapshot
