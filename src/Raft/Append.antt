-- ===== src/Raft/Append.antt =====
-- `HeartBeat` of raft/raft.go: the follower's side of AppendEntries.
pub mod Absorb
pub mod Conflict
pub mod Finish
pub mod Outcome
pub mod Follower
pub mod Repeat
use my_raft.Base.{
  ℕ, zero, suc, ◌+◌, ◌-◌, ℤ, pos, negsuc, add32, ltb_ℤ, eqb_ℤ, if◌then◌else◌, Bool, true, false,
  not, Option, none, some, List, [], ◌∷◌, ◌++◌, length, take, get_elem?, last, index, slice, ◌>>=◌,
  ◌≡◌, refl,
}
use my_raft.Raft.Data.{
  RaftLog, AppendEntriesArgs, AppendEntriesReply, ApplyMsg, RpcArgs, MetricKind,
}
use my_raft.Raft.State.{Raft, Effect, emit, persist}

-- The loop of the conflict case: from `cur` down to the last entry of another term, or to 0.
unfoldable pub back_up : List RaftLog → ℤ → ℕ → Option ℕ
back_up logs t zero = do e ← get_elem? logs 0; some 0
back_up logs t (suc cur) = do
  e ← get_elem? logs (suc cur)
  if eqb_ℤ e.term t then back_up logs t cur else some (suc cur)

-- What the comparison with `PrevLog` finds. A conflict leaves the shortened log.
pub data PrevCheck : Type 0 where
  conflict : List RaftLog → PrevCheck
  beyond matches : PrevCheck

-- `prevLogIdx < lengthLogs && rf.logs[prevLogIdx].Term != prevLogTerm`, with its two branches.
unfoldable pub check_prev : List RaftLog → RaftLog → RaftLog → Option PrevCheck
unfolding back_up
check_prev logs last_entry prev = elim (ltb_ℤ prev.index (pos (length logs))) [
  | true ↦ do
    e ← index logs prev.index
    if eqb_ℤ e.term prev.term
        then some (if ltb_ℤ last_entry.index prev.index then beyond else matches)
        else (do
          cur ← back_up logs e.term (my_raft.Base.pos_part prev.index)
          some (conflict (take (cur + 1) logs)))
  | false ↦ some (if ltb_ℤ last_entry.index prev.index then beyond else matches)
]

-- The result of the loop over `args.Entries`: the new log, or an early return.
pub data Merge : Type 0 where
  merged : List RaftLog → Merge
  refused : Merge

unfoldable pub merge : List RaftLog → ℤ → List RaftLog → Option Merge
merge logs last_index [] = some (merged logs)
merge logs last_index (v ∷ rest) =
    let go_on = (if ltb_ℤ last_index v.index then some refused else merge logs last_index rest) in
    if eqb_ℤ v.index (pos (length logs))
    then some (merged (logs ++ v ∷ rest))
    else if ltb_ℤ v.index (pos (length logs))
    then (do
      e ← index logs v.index
      if eqb_ℤ e.term v.term
          then go_on
          else (do kept ← slice logs (pos 0) v.index; some (merged (kept ++ v ∷ rest))))
    else go_on

abbrev pub apply_msg : RaftLog → ApplyMsg
apply_msg v = record { index = v.index; command = v.cmd }

-- The calls of `RaftKV.Apply`, one for each entry, in order.
unfoldable pub apply_all : List RaftLog → Raft → Raft
apply_all [] rf = rf
apply_all (v ∷ vs) rf = apply_all vs (emit (Effect.apply (apply_msg v)) rf)

-- The trace after these calls, newest first.
unfoldable pub applied : List RaftLog → List Effect → List Effect
applied [] es = es
applied (v ∷ vs) es = applied vs (Effect.apply (apply_msg v) ∷ es)

pub apply_all_lem :
    (vs : List RaftLog) (rf : Raft)
    → apply_all vs rf ≡ record rf { effects = applied vs rf.effects }
unfolding apply_all applied
apply_all_lem [] rf = refl
apply_all_lem (v ∷ vs) rf = apply_all_lem vs (emit (Effect.apply (apply_msg v)) rf)

abbrev pub min_ℤ : ℤ → ℤ → ℤ
min_ℤ a b = if ltb_ℤ a b then a else b

-- The follower's commit index follows the leader's.
unfoldable pub follow_commit : Raft → RaftLog → ℤ → Option Raft
follow_commit rf last_entry leader_commit =
    if ltb_ℤ rf.commit_idx leader_commit
    then (let new_commit = min_ℤ last_entry.index leader_commit in
        if ltb_ℤ rf.last_applied new_commit
        then (do
          to_apply ← slice rf.logs (add32 rf.last_applied (pos 1)) (add32 new_commit (pos 1))
          some (
              apply_all to_apply
                (record rf { last_applied = new_commit; commit_idx = new_commit })))
        else some rf)
    else some rf

abbrev pub hb_metrics : Raft → ℤ → RpcArgs
hb_metrics rf leader = record {
  idx = pos rf.me;
  rpc_from_idx = leader;
  logs = [];
  kind = MetricKind.hb;
  voted_for = rf.voted_for;
  leader_idx = pos 0;
}

abbrev pub failed : ℤ → RaftLog → AppendEntriesReply
failed current e = record { term = current; success = false; last_entry = e }

-- From the new log on: `reply.LastEntry`, the commit index, and the reply.
unfoldable pub finish :
    Raft → AppendEntriesArgs → ℤ → List RaftLog → Option (Raft × AppendEntriesReply)
finish rf args current logs = do
  e ← last logs
  rf ← follow_commit (record rf { logs = logs; logidx = e.index }) e args.leader_commit_idx
  if ltb_ℤ e.index args.prev_log.index
      then some (persist rf, failed current e)
      else some (
        persist (emit (Effect.metrics (hb_metrics rf args.leader_id)) rf),
        record { term = current; success = true; last_entry = e },
      )

-- The rest of the handler once the term is accepted.
unfoldable pub append_entries :
    Raft → AppendEntriesArgs → ℤ → RaftLog → Option (Raft × AppendEntriesReply)
append_entries rf args current first = do
  check ← check_prev rf.logs first args.prev_log
  elim check [
    | conflict logs ↦ do
      e ← last logs
      some (persist (record rf { logs = logs; logidx = e.index }), failed current e)
    | beyond ↦ some (persist rf, failed current first)
    | matches ↦ do
      m ← merge rf.logs first.index args.entries
      elim m [
        | refused ↦ some (persist rf, failed current first)
        | merged logs ↦ finish rf args current logs
      ]
  ]

unfoldable pub heart_beat : Raft → AppendEntriesArgs → Option (Raft × AppendEntriesReply)
heart_beat rf args = do
  let current = rf.current_term
  first ← last rf.logs
  let signalled = emit Effect.rpc_signal rf
  if ltb_ℤ args.term current
      then some (persist signalled, failed current first)
      else append_entries
          (emit (Effect.timer_reset false)
            (record signalled { current_term = args.term; is_leader = false }))
          args current first
