-- ===== src/Raft/Leader.antt =====
-- The leader's goroutines of raft/raft.go: `Start` and `Agree`, the heartbeat ticker, the batches
-- of jobs, and the requests to one peer with their replies.
pub mod Jobs
pub mod Accepted
pub mod Requests
use my_raft.Base.{
  ℕ, zero, suc, ◌+◌, ◌-◌, ◌==◌, leb, min, ℤ, pos, negsuc, add32, sub32, ltb_ℤ, leb_ℤ, eqb_ℤ,
  if◌then◌else◌, Bool, true, false, not, ◌&&◌, ◌||◌, Option, none, some, List, [], ◌∷◌, ◌++◌,
  length, take, drop, get_elem?, set, replicate, last, index, slice, ltb, ◌>>=◌,
}
use my_raft.Raft.Data.{
  RaftLog, AppendEntriesArgs, AppendEntriesReply, AgreeArgs, AgreeReply, RpcArgs, MetricKind,
}
use my_raft.Raft.State.{Raft, Effect, emit, persist, zero_log}
use my_raft.Raft.Election.{broadcast}

-- The index, the term, and whether the server is leader.
unfoldable pub start : Raft → my_raft.Raft.Data.Command → Raft × (ℤ × ℤ × Bool)
start rf command =
    if not rf.is_leader
    then (rf, (pos 0, pos 0, false))
    else (let i = add32 rf.logidx (pos 1) in
        let job : RaftLog = record { index = i; term = rf.current_term; cmd = command } in
        (
          record rf { logidx = i; jobs_chnl = rf.jobs_chnl ++ job ∷ [] },
          (i, rf.current_term, true),
        ))

unfoldable pub agree : Raft → AgreeArgs → Raft × AgreeReply
unfolding start
agree rf args =
    let (rf, (i, term, is_leader)) = start rf args.cmd in
    (rf, record { term = term; index = i; is_leader = is_leader })

abbrev pub append_args : Raft → RaftLog → List RaftLog → AppendEntriesArgs
append_args rf prev entries = record {
  term = rf.current_term;
  leader_id = pos rf.me;
  prev_log = prev;
  entries = entries;
  leader_commit_idx = rf.commit_idx;
}

-- A heartbeat goes to each peer that has nothing queued.
unfoldable pub beat :
    ℕ → AppendEntriesArgs → ℕ → List (List AppendEntriesArgs) → List (List AppendEntriesArgs)
beat me args i [] = []
beat me args i (q ∷ qs) =
    (if not (length q == 0) || i == me then q else q ++ args ∷ []) ∷ beat me args (suc i) qs

-- The ticker fires.
unfoldable pub heart_beat_tick : Raft → Option Raft
unfolding beat
heart_beat_tick rf = do
  prev ← last rf.logs
  some (record rf { rdy_chnl = beat rf.me (append_args rf prev []) 0 rf.rdy_chnl })

-- `entries[k] = j`
abbrev set_at : List RaftLog → ℤ → RaftLog → Option (List RaftLog)
set_at l (pos k) v = if ltb k (length l) then some (set l k v) else none
set_at l (negsuc k) v = none

-- The jobs after the first go to the place that their index gives.
unfoldable pub place_jobs : List RaftLog → ℤ → List RaftLog → Option (List RaftLog)
place_jobs entries prev_index [] = some entries
place_jobs entries prev_index (j ∷ js) = do
  entries ← set_at entries (sub32 (sub32 j.index prev_index) (pos 1)) j
  place_jobs entries prev_index js

-- "Never replace. Append only"
unfoldable pub append_jobs : List RaftLog → List RaftLog → List RaftLog
append_jobs logs [] = logs
append_jobs logs (v ∷ rest) =
    if eqb_ℤ v.index (pos (length logs)) then logs ++ v ∷ rest else append_jobs logs rest

abbrev pub max_entries_per_batch : ℕ
max_entries_per_batch = 30

-- `job` came from the channel, where `queue` is left; the batch takes `count - 1` more.
unfoldable pub batch : Raft → RaftLog → List RaftLog → Option Raft
batch rf job queue = do
  let count = min (length queue + 1) max_entries_per_batch
  prev ← last rf.logs
  entries ← place_jobs (job ∷ replicate (count - 1) zero_log) prev.index (take (count - 1) queue)
  let args = append_args rf prev entries
  some (
      persist (record rf {
        jobs_chnl = drop (count - 1) queue;
        rdy_chnl = if rf.is_leader then broadcast rf.me args 0 rf.rdy_chnl else rf.rdy_chnl;
        logs = append_jobs rf.logs entries;
      }))

-- One poll of the job channel.
unfoldable pub poll_jobs : Raft → Option Raft
poll_jobs rf = elim rf.jobs_chnl [ [] ↦ some rf | job ∷ queue ↦ batch rf job queue ]

-- `append(logs[..:b], xs...)` writes into the array of `logs` where that has room.
unfoldable pub overwrite : List RaftLog → ℕ → List RaftLog → List RaftLog
overwrite logs b [] = logs
overwrite logs b (x ∷ xs) = overwrite (set logs b x) (suc b) xs

-- `capacity` is that of `rf.logs`, which the run-time chooses.
unfoldable pub append_alias : ℕ → List RaftLog → ℤ → List RaftLog → List RaftLog
unfolding overwrite
append_alias capacity logs (pos b) xs =
    if leb (b + length xs) capacity then overwrite logs b xs else logs
append_alias capacity logs (negsuc b) xs = logs

-- The request that goes to peer `server` for what was queued, before it is sent. The caller has
-- seen that the server is leader.
unfoldable pub prepare : ℕ → Raft → ℕ → AppendEntriesArgs → Option (Raft × AppendEntriesArgs)
prepare capacity rf server args = do
  next ← get_elem? rf.next_index server
  if leb_ℤ next args.prev_log.index
      then (do
        let upto = add32 args.prev_log.index (pos 1)
        missing ← slice rf.logs next upto
        let logs = append_alias capacity rf.logs upto args.entries
        prev ← index logs (sub32 next (pos 1))
        some (
          record rf { logs = logs },
          record args { entries = missing ++ args.entries; prev_log = prev },
        ))
      else some (rf, args)

-- `for rf.logs[replyIdx].Term >= appendArg.Term { replyIdx-- }`
unfoldable pub skip_back : List RaftLog → ℤ → ℕ → Option ℤ
skip_back logs t zero = do e ← get_elem? logs 0; if leb_ℤ t e.term then none else some (pos 0)
skip_back logs t (suc i) = do
  e ← get_elem? logs (suc i)
  if leb_ℤ t e.term then skip_back logs t i else some (pos (suc i))

unfoldable pub skip_back_from : List RaftLog → ℤ → ℤ → Option ℤ
skip_back_from logs t (pos i) = skip_back logs t i
skip_back_from logs t (negsuc i) = none

-- `replyIdx` after the loop, where the entries differ.
unfoldable pub retry_from : List RaftLog → AppendEntriesArgs → RaftLog → Option ℤ
retry_from logs args e =
    if ltb_ℤ (pos 1) e.index && leb_ℤ e.index args.prev_log.index
    then (do
      mine ← index logs e.index
      if not (eqb_ℤ mine.term e.term) then skip_back_from logs args.term e.index else some e.index)
    else some e.index

abbrev pub success_metrics : Raft → RpcArgs
success_metrics rf = record {
  idx = pos rf.me;
  rpc_from_idx = pos 0;
  logs = [];
  kind = MetricKind.success_hb;
  voted_for = pos 0;
  leader_idx = pos 0;
}

-- The reply of peer `server` to the request `args`.
unfoldable pub receive_append : Raft → ℕ → AppendEntriesArgs → AppendEntriesReply → Option Raft
receive_append rf server args reply =
    let heard = emit (Effect.metrics (success_metrics rf)) rf in
    if reply.success
    then (do
      let upto = reply.last_entry.index
      matched ← get_elem? rf.match_index server
      let advanced = record heard { next_index = set rf.next_index server (add32 upto (pos 1)) }
      if ltb_ℤ matched upto
          then some (record advanced {
            match_index = set rf.match_index server upto;
            commit_idx_chnl = rf.commit_idx_chnl ++ upto ∷ [];
          })
          else some advanced)
    else if ltb_ℤ rf.current_term reply.term
    then some (record (emit (Effect.timer_reset false) heard) {
      current_term = reply.term;
      is_leader = false;
    })
    else (do
      i ← retry_from rf.logs args reply.last_entry
      some (record heard { next_index = set rf.next_index server (add32 i (pos 1)) }))
