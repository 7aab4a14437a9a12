-- ===== src/Raft/Exchange.antt =====
-- A turn of the goroutine of a peer in `Make` of raft/raft.go, together with the peer's `HeartBeat`:
-- the request is made, sent, handled and answered.
pub mod Retry
pub mod Linked
pub mod Request
pub mod Heard
pub mod Tally
pub mod Reply
pub mod Round
pub mod Catches
pub mod Everyone
pub mod Elected
pub mod Commits
pub mod Replicates
use my_raft.Base.{
  ℕ, zero, suc, Bool, true, false, not, Option, none, some, List, [], ◌∷◌, get_elem?, set, last,
  ◌>>=◌, if◌then◌else◌,
}
use my_raft.Raft.Data.{RaftLog, AppendEntriesArgs}
use my_raft.Raft.State.{Raft}
use my_raft.Raft.Append.{heart_beat}
use my_raft.Raft.Leader.{prepare, receive_append, append_args}

-- What becomes of the call `sendHeartBeat`: it does not reach the peer, the peer's reply does not come
-- back in time, or it does.
pub data Delivery : Type 0 where
  lost unanswered answered : Delivery

-- The call, and what the leader does after it.
unfoldable pub deliver : Delivery → Raft → ℕ → AppendEntriesArgs → Raft → Option (Raft × Raft)
deliver lost rf server out peer = some (rf, peer)
deliver unanswered rf server out peer = do (peer, reply) ← heart_beat peer out; some (rf, peer)
deliver answered rf server out peer = do
  (peer, reply) ← heart_beat peer out
  rf ← receive_append rf server out reply
  some (rf, peer)

-- One request from the channel of the peer `server`: the leader and the peer afterwards.
unfoldable pub exchange : ℕ → Delivery → Raft → ℕ → AppendEntriesArgs → Raft → Option (Raft × Raft)
unfolding deliver
exchange capacity d rf server args peer =
    if not rf.is_leader
    then some (rf, peer)
    else (do (rf, out) ← prepare capacity rf server args; deliver d rf server out peer)

-- The request is the heartbeat that the ticker queues.
unfoldable pub round : ℕ → Delivery → Raft → ℕ → Raft → Option (Raft × Raft)
unfolding exchange
round capacity d rf server peer = do
  prev ← last rf.logs
  exchange capacity d rf server (append_args rf prev []) peer

-- Heartbeats in a row.
unfoldable pub rounds : List Delivery → ℕ → Raft → ℕ → Raft → Option (Raft × Raft)
unfolding round
rounds [] capacity rf server peer = some (rf, peer)
rounds (d ∷ ds) capacity rf server peer = do
  (rf, peer) ← round capacity d rf server peer
  rounds ds capacity rf server peer

-- Heartbeats to several peers in any order; `peers` has all servers, the leader's own place too.
unfoldable pub all_rounds : List (ℕ × Delivery) → ℕ → Raft → List Raft → Option (Raft × List Raft)
unfolding round
all_rounds [] capacity rf peers = some (rf, peers)
all_rounds ((server, d) ∷ ds) capacity rf peers = do
  peer ← get_elem? peers server
  (rf, peer) ← round capacity d rf server peer
  all_rounds ds capacity rf (set peers server peer)
