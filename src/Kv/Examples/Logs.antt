-- ===== src/Kv/Examples/Logs.antt =====
-- The theorem on the whole way from an election to the map, at a group of three servers.
use my_raft.Base.{pos, ◌≡◌, refl, some, [], ◌∷◌, List, Bytes, arith}
use my_raft.Raft.State.{Raft, zero_log}
use my_raft.Raft.Election.{become_leader}
use my_raft.Raft.Commit.{Tracker, reports, update_commits}
use my_raft.Raft.Commit.Settles.{handed}
use my_raft.Raft.Exchange.{all_rounds}
use my_raft.Raft.Examples.Exchanges.{
  new_log, winner, campaign, servers, mixed, new_log-IsLog, winner-IsSettled, all_follow, all_short,
  mixed-Aimed,
}
use my_raft.Kv.Server.{Kv, start_kv_server, apply_msgs}
use my_raft.Kv.Server.Refines.{Delivery, put, deliver_all, Implements}
use my_raft.Kv.Command.{put_append_cmd}
use my_raft.Kv.Command.RoundTrip.{IsPlain}
use my_raft.Kv.Committed.{empty_store, all_rounds-Implements}

abbrev key : Bytes
key = b'k' ∷ []

abbrev value : Bytes
value = b'v' ∷ []

key-IsPlain : IsPlain key
key-IsPlain = ((refl, tt), (refl, tt))

value-IsPlain : IsPlain value
value-IsPlain = ((refl, tt), (refl, tt))

-- The entries behind the first of the leader's log.
abbrev requests : List Delivery
requests =
    record { index = pos 1; context_id = b'c' ∷ []; request = put key value }
    ∷ record { index = pos 2; context_id = b'c' ∷ []; request = put key value }
    ∷ []

all_rounds-Implements_example :
    (rf' rf'' : Raft) × (peers' : List Raft) × (t' : Tracker) × (kv : Kv) × (all_rounds mixed 3
        (become_leader winner campaign)
        servers
      ≡ some (rf', peers'))
    × (update_commits rf' [] rf'.commit_idx_chnl ≡ some (rf'', t'))
    × (rf''.logs ≡ new_log)
    × (apply_msgs start_kv_server (handed rf''.effects) ≡ some kv)
    × Implements kv (deliver_all empty_store requests)
unfolding reports put_append_cmd
all_rounds-Implements_example =
    all_rounds-Implements 3 0 0 winner servers campaign [] new_log-IsLog winner-IsSettled
      (omega arith) zero_log refl (omega arith) (omega arith) all_follow all_short mixed mixed-Aimed
      (omega arith) refl (omega arith) requests refl refl
      ((key-IsPlain, value-IsPlain), ((key-IsPlain, value-IsPlain), tt))
