-- ===== src/Raft/Examples.antt =====
-- The theorems on `RequestVote` and `HeartBeat` of raft/raft.go at concrete servers and requests.
pub mod Runs
pub mod Exchanges
mod Loops
use my_raft.Base.{
  ℕ, zero, suc, ◌+◌, ◌-◌, ◌<◌, ◌≤◌, ℤ, pos, negsuc, ◌≤ℤ◌, ◌<ℤ◌, eqb_ℤ, ltb_ℤ, if◌then◌else◌, ◌≡◌,
  ◌≢◌, ◌↔◌, ◌⊎◌, inl, inr, refl, Bool, true, false, Option, some, none, List, [], ◌∷◌, ◌++◌, length,
  take, drop, get_elem?, add32, arith, mem, Bytes,
}
use my_raft.Raft.Data.{
  RaftLog, Command, AppendEntriesArgs, AppendEntriesReply, RequestVoteArgs, RequestVoteReply,
  MetricKind,
}
use my_raft.Raft.State.{Raft, Effect, persist, zero_log, make, Decoded}
use my_raft.Raft.Log.{IsLog}
use my_raft.Raft.Vote.{request_vote, up_to_date}
use my_raft.Raft.Vote.Grants.{
  IsFree, AsRecent, request_vote-total, request_vote-grants, request_vote-refused,
}
use my_raft.Raft.Append.{
  heart_beat, append_entries, check_prev, finish, follow_commit, apply_all, merge, merged, applied,
  hb_metrics,
}
use my_raft.Raft.Append.Absorb.{absorbed, merge-absorbed}
use my_raft.Raft.Append.Conflict.{BacksUp, back_up-BacksUp}
use my_raft.Raft.Append.Finish.{IsSettled, advance}
use my_raft.Raft.Append.Outcome.{IsRequest}
use my_raft.Raft.Append.Follower.{
  Agrees, Advances, Follows, heart_beat-total, heart_beat-succeeds, heart_beat-keeps,
  heart_beat-Follows,
}
use my_raft.Raft.Append.Repeat.{heart_beat-applies, heart_beat-again}
use my_raft.Raft.Election.{Campaign, begin_election, count_vote, counting, won}
use my_raft.Raft.Server.{Ballots, ServerStep, votes, campaigns, has_ballot}
use my_raft.Raft.Server.Voting.{VotesOnce, VotesOnce-empty, ServerStep-VotesOnce}
use my_raft.Raft.Cluster.{
  Cluster, ClusterReach, begins, steps, ClusterStep, serves, counts, HasWon, begin,
}
use my_raft.Raft.Cluster.Safety.{election_safety}
use my_raft.Raft.Leader.{start}
use my_raft.Raft.Leader.Jobs.{IsQueued, pending}
use my_raft.Raft.Leader.Accepted.{poll_times, poll_times-drains, start-accepts}
use my_raft.Raft.Commit.{update_commit, reports}
use my_raft.Raft.Commit.Majority.{IsOpen, committed, update_commit-moves, update_commit-majority}

-- The text of a put of `v` at the key `k`.
abbrev pub put_text : Bytes
put_text = b'P' ∷ b'u' ∷ b't' ∷ b':' ∷ b':' ∷ b':' ∷ b'k' ∷ b'<' ∷ b'<' ∷ b'>' ∷ b'>' ∷ b'v' ∷ []

abbrev pub entry : ℕ → ℕ → RaftLog
entry i t = record {
  index = pos i;
  term = pos t;
  cmd = Command.object (some put_text) (some (b'c' ∷ []));
}

-- A server of three with two entries.
abbrev pub server : ℕ → Raft
server me = record {
  me = me;
  peers = 3;
  saved = none;
  jobs_chnl = [];
  rdy_chnl = [] ∷ [] ∷ [] ∷ [];
  commit_idx_chnl = [];
  logidx = pos 1;
  is_leader = false;
  current_term = pos 1;
  voted_for = negsuc 0;
  logs = zero_log ∷ entry 1 1 ∷ [];
  commit_idx = pos 0;
  last_applied = pos 0;
  next_index = pos 2 ∷ pos 2 ∷ pos 2 ∷ [];
  match_index = pos 0 ∷ pos 0 ∷ pos 0 ∷ [];
  effects = [];
}

abbrev pub leader : Raft
leader = record (server 0) { is_leader = true }

abbrev pub vote_request : RequestVoteArgs
vote_request = record { term = pos 2; id = pos 0; log = entry 1 1 }

pub server-IsLog : IsLog (zero_log ∷ entry 1 1 ∷ [])
server-IsLog = record {
  some_entry = omega arith;
  fits = omega arith;
  consecutive = (refl, (refl, tt));
}

-- Server 1 after it has granted the vote.
abbrev pub voter : Raft
voter = record (server 1) {
  saved = some (record { term = pos 2; voted_for = pos 0; logs = zero_log ∷ entry 1 1 ∷ [] });
  current_term = pos 2;
  voted_for = pos 0;
  effects =
      Effect.metrics (record {
        idx = pos 1;
        rpc_from_idx = pos 0;
        logs = [];
        kind = MetricKind.election;
        voted_for = pos 0;
        leader_idx = pos 0;
      })
      ∷ Effect.timer_reset false
      ∷ Effect.rpc_signal
      ∷ [];
}

abbrev pub granted : RequestVoteReply
granted = record { term = pos 2; voted = true }

pub votes_run : request_vote (server 1) vote_request ≡ some (voter, granted)
unfolding request_vote up_to_date persist
votes_run = refl

request_vote-grants_example :
    (true ≡ true) ↔ (IsFree (server 1) (pos 2) × AsRecent (entry 1 1) (entry 1 1))
request_vote-grants_example =
    request_vote-grants (server 1) vote_request (entry 1 1) refl voter granted votes_run

-- A candidate of a newer term whose log is behind.
abbrev late_request : RequestVoteArgs
late_request = record { term = pos 7; id = pos 2; log = zero_log }

abbrev denied_by : Raft
denied_by = record leader {
  saved = some (record { term = pos 7; voted_for = negsuc 0; logs = zero_log ∷ entry 1 1 ∷ [] });
  current_term = pos 7;
  effects = Effect.rpc_signal ∷ [];
}

denied_run :
    request_vote leader late_request ≡ some (denied_by, record { term = pos 7; voted = false })
unfolding request_vote up_to_date persist
denied_run = refl

request_vote-refused_example :
    (true ≡ true)
    × (negsuc 0 ≡ negsuc 0)
    × (denied_by.logs ≡ leader.logs)
    × (pos 7 ≡ (if ltb_ℤ (pos 7) (pos 1) then pos 1 else pos 7))
request_vote-refused_example =
    request_vote-refused leader late_request (entry 1 1) refl denied_by
      (record { term = pos 7; voted = false }) denied_run refl

abbrev append_request : AppendEntriesArgs
append_request = record {
  term = pos 2;
  leader_id = pos 0;
  prev_log = entry 1 1;
  entries = entry 2 2 ∷ [];
  leader_commit_idx = pos 1;
}

append_request-IsRequest : IsRequest append_request 1
append_request-IsRequest = record { at_prev = refl; consecutive = (refl, tt); fits = omega arith }

pub server-IsSettled : (me : ℕ) → IsSettled (server me) 0
server-IsSettled me = record { applied_to = refl; committed_to = refl }

-- Server 1 after the request.
abbrev follower : Raft
follower = record (server 1) {
  saved =
      some (record {
        term = pos 2;
        voted_for = negsuc 0;
        logs = zero_log ∷ entry 1 1 ∷ entry 2 2 ∷ [];
      });
  logidx = pos 2;
  current_term = pos 2;
  logs = zero_log ∷ entry 1 1 ∷ entry 2 2 ∷ [];
  commit_idx = pos 1;
  last_applied = pos 1;
  effects =
      Effect.metrics (record {
        idx = pos 1;
        rpc_from_idx = pos 0;
        logs = [];
        kind = MetricKind.hb;
        voted_for = negsuc 0;
        leader_idx = pos 0;
      })
      ∷ Effect.apply
          (record { index = pos 1; command = Command.object (some put_text) (some (b'c' ∷ [])) })
      ∷ Effect.timer_reset false
      ∷ Effect.rpc_signal
      ∷ [];
}

abbrev success : AppendEntriesReply
success = record { term = pos 1; success = true; last_entry = entry 2 2 }

append_run : heart_beat (server 1) append_request ≡ some (follower, success)
unfolding heart_beat append_entries check_prev merge finish follow_commit add32 persist apply_all
append_run = refl

heart_beat-succeeds_example : (true ≡ true) ↔ Agrees (server 1) append_request 1
heart_beat-succeeds_example =
    heart_beat-succeeds (server 1) append_request 0 1 server-IsLog (server-IsSettled 1)
      append_request-IsRequest follower success append_run

heart_beat-keeps_example : IsLog (zero_log ∷ entry 1 1 ∷ entry 2 2 ∷ []) × Advances follower 0
heart_beat-keeps_example =
    heart_beat-keeps (server 1) append_request 0 1 server-IsLog (server-IsSettled 1)
      append_request-IsRequest follower success append_run

heart_beat-Follows_example : Follows (server 1) append_request 1 follower
heart_beat-Follows_example =
    heart_beat-Follows (server 1) append_request 0 1 server-IsLog (server-IsSettled 1)
      append_request-IsRequest follower success append_run refl

heart_beat-applies_example :
    (pos 1 ≡ pos 1)
    × ((1 < 3) ⊎ (◌≡◌ {A = ℕ} 1 0))
    × (follower.effects
        ≡ Effect.metrics (hb_metrics follower (pos 0))
          ∷ applied (entry 1 1 ∷ []) (Effect.timer_reset false ∷ Effect.rpc_signal ∷ []))
heart_beat-applies_example =
    heart_beat-applies (server 1) append_request 0 1 server-IsLog (server-IsSettled 1)
      append_request-IsRequest follower success append_run refl

-- Server 1 after the same request once more.
abbrev follower_again : Raft
follower_again = record follower {
  effects =
      Effect.metrics (record {
        idx = pos 1;
        rpc_from_idx = pos 0;
        logs = [];
        kind = MetricKind.hb;
        voted_for = negsuc 0;
        leader_idx = pos 0;
      })
      ∷ Effect.timer_reset false
      ∷ Effect.rpc_signal
      ∷ follower.effects;
}

append_run_again :
    heart_beat follower append_request
    ≡ some (follower_again, record { term = pos 2; success = true; last_entry = entry 2 2 })
unfolding heart_beat append_entries check_prev merge finish follow_commit persist
append_run_again = refl

heart_beat-again_example :
    (true ≡ true)
    × (follower_again.logs ≡ follower.logs)
    × (follower_again.last_applied ≡ follower.last_applied)
heart_beat-again_example =
    heart_beat-again (server 1) append_request 0 1 server-IsLog (server-IsSettled 1)
      append_request-IsRequest follower success append_run refl follower_again
      (record { term = pos 2; success = true; last_entry = entry 2 2 }) append_run_again

merge-absorbed_example :
    merge (zero_log ∷ entry 1 1 ∷ []) (pos 1) (entry 1 2 ∷ [])
    ≡ some (merged (absorbed (zero_log ∷ entry 1 1 ∷ []) 1 (entry 1 2 ∷ [])))
merge-absorbed_example =
    merge-absorbed (zero_log ∷ entry 1 1 ∷ []) server-IsLog (pos 1) refl 1 (entry 1 2 ∷ [])
      (omega arith) (refl, tt)
