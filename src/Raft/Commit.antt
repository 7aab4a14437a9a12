-- ===== src/Raft/Commit.antt =====
-- The goroutine "Commit index updater" of raft/raft.go.
pub mod Majority
pub mod Settles
use my_raft.Base.{
  ℕ, zero, suc, ◌+◌, ◌/◌, ◌==◌, ℤ, pos, add32, int32, ltb_ℤ, leb_ℤ, eqb_ℤ, if◌then◌else◌, Bool,
  true, ◌||◌, Option, none, some, List, [], ◌∷◌, length, slice, ◌>>=◌,
}
use my_raft.Raft.Data.{RpcArgs, MetricKind}
use my_raft.Raft.State.{Raft, Effect, emit, persist}
use my_raft.Raft.Append.{apply_all}

-- `commitTracker`: how many peers have reported an index. A missing key counts as 0.
abbrev pub Tracker : Type 0
Tracker = List (ℤ × ℕ)

unfoldable pub reports : Tracker → ℤ → ℕ
reports [] i = 0
reports ((j, n) ∷ t) i = if eqb_ℤ j i then n else reports t i

unfoldable pub report : Tracker → ℤ → Tracker
report [] i = (i, 1) ∷ []
report ((j, n) ∷ t) i = if eqb_ℤ j i then (j, n + 1) ∷ t else (j, n) ∷ report t i

abbrev logs_metrics : Raft → RpcArgs
logs_metrics rf = record {
  idx = pos rf.me;
  rpc_from_idx = pos 0;
  logs = rf.logs;
  kind = MetricKind.logs;
  voted_for = pos 0;
  leader_idx = pos 0;
}

-- The entries up to `end_idx` are applied.
commit_to : Raft → ℤ → Option Raft
commit_to rf end_idx = do
  to_apply ← slice rf.logs (add32 rf.commit_idx (pos 1)) (add32 end_idx (pos 1))
  some (
      persist (record (emit (Effect.metrics (logs_metrics rf)) (apply_all to_apply rf)) {
        commit_idx = end_idx;
        last_applied = end_idx;
      }))

-- One index from `commitIdxChnl`.
unfoldable pub update_commit : Raft → Tracker → ℤ → Option (Raft × Tracker)
unfolding commit_to
update_commit rf tracker new_idx =
    if leb_ℤ new_idx rf.commit_idx || leb_ℤ (int32 (length rf.logs)) new_idx
    then some (rf, tracker)
    else (let tracker = report tracker new_idx in
        if reports tracker new_idx == (rf.peers / 2)
        then (do rf ← commit_to rf new_idx; some (rf, tracker))
        else some (rf, tracker))

-- The loop on the indices that come out of `commitIdxChnl`.
unfoldable pub update_commits : Raft → Tracker → List ℤ → Option (Raft × Tracker)
update_commits rf tracker [] = some (rf, tracker)
update_commits rf tracker (i ∷ reported) = do
  (rf, tracker) ← update_commit rf tracker i
  update_commits rf tracker reported
