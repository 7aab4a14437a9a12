-- ===== src/Raft/Append/Finish.antt =====
-- The end of `HeartBeat` of raft/raft.go: the follower's commit index follows the leader's, and the
-- entries up to it are applied.
use my_raft.Base.{
  ℕ, suc, ◌-◌, ◌^◌, ◌<◌, min, ℤ, pos, negsuc, pos_part, add32, add32-pos, ltb, ltb→lt, ◌<ℤ◌, sym,
  ◌∙◌, if◌then◌else◌, ◌≡◌, ap, false, some, List, [], length, take, drop, drop-length, length-take,
  Bool-cases, inl, inr, arith, slice,
}
use my_raft.Raft.Data.{RaftLog}
use my_raft.Raft.State.{Raft}
use my_raft.Raft.Log.{IsLog}
use my_raft.Raft.Append.{applied, apply_all_lem, min_ℤ, follow_commit}

-- `commitIdx` and `lastApplied` agree and are no less than 0.
pub record IsSettled (rf : Raft) (a : ℕ) : Type 0 where
  pub applied_to : rf.last_applied ≡ pos a
  pub committed_to : rf.commit_idx ≡ pos a

-- How far a server is after it heard the leader's commit index, with `top` its last index.
abbrev pub advance : ℕ → ℕ → ℤ → ℕ
advance a top leader_commit =
    if ltb a (min top (pos_part leader_commit)) then min top (pos_part leader_commit) else a

-- The server with the entries between the two positions applied, in order.
abbrev pub settle : Raft → ℕ → ℕ → Raft
settle rf a b = record rf {
  last_applied = pos b;
  commit_idx = pos b;
  effects = applied (drop (suc a) (take (suc b) rf.logs)) rf.effects;
}

settle-none : (rf : Raft) (a : ℕ) → IsSettled rf a → settle rf a a ≡ rf
unfolding applied
settle-none rf a s =
    let e : drop (suc a) (take (suc a) rf.logs) ≡ [] =
      drop-length (take (suc a) rf.logs) (suc a) (omega (arith, length-take (suc a) rf.logs)) in
    let p = sym s.applied_to in
    let q = sym s.committed_to in rw e λ i. record rf { last_applied = p i; commit_idx = q i }

-- `rf.logs[oldLastApplied+1 : newCommitIdx+1]`
pub slice-add32 :
    (logs : List RaftLog) (a b : ℕ)
    → length logs < 2 ^ 31
    → a < b
    → b < length logs
    → slice logs (add32 (pos a) (pos 1)) (add32 (pos b) (pos 1))
      ≡ some (drop (suc a) (take (suc b) logs))
slice-add32 logs a b fits lt le =
    let ea : add32 (pos a) (pos 1) ≡ pos (suc a) =
      add32-pos a 1 (omega arith) ∙ ap pos (omega arith) in
    let eb : add32 (pos b) (pos 1) ≡ pos (suc b) =
      add32-pos b 1 (omega arith) ∙ ap pos (omega arith) in
    rw (ea, eb) (ground arith)

module _ (rf : Raft) (a : ℕ) (s : IsSettled rf a) (w : IsLog rf.logs) (e : RaftLog)
    (top : e.index ≡ pos (length rf.logs - 1)) where
  follow_commit-apply :
      (b : ℕ) (leader_commit : ℤ)
      → pos a <ℤ leader_commit
      → min_ℤ e.index leader_commit ≡ pos b
      → a < b
      → b < length rf.logs
      → follow_commit rf e leader_commit ≡ some (settle rf a b)
  unfolding follow_commit
  follow_commit-apply b leader_commit ahead new lt le = ground (
    arith,
    apply_all_lem (drop (suc a) (take (suc b) rf.logs))
        (record rf { last_applied = pos b; commit_idx = pos b }),
    slice-add32 rf.logs a b w.fits lt le,
  )

  follow_commit-keep :
      (leader_commit : ℤ)
      → ¬ ((pos a <ℤ leader_commit) × (pos a <ℤ min_ℤ e.index leader_commit))
      → follow_commit rf e leader_commit ≡ some rf
  unfolding follow_commit
  follow_commit-keep leader_commit h = ground arith

  kept : some rf ≡ some (settle rf a a)
  kept = ap some (sym (settle-none rf a s))

  pub follow_commit-settle :
      (leader_commit : ℤ)
      → follow_commit rf e leader_commit
        ≡ some (settle rf a (advance a (length rf.logs - 1) leader_commit))
  follow_commit-settle (negsuc m) =
      let none_new : ltb a (min (length rf.logs - 1) 0) ≡ false = ground arith in
      rw none_new (follow_commit-keep (negsuc m) (λ h. omega arith) ∙ kept)
  follow_commit-settle (pos m) = elim (Bool-cases (ltb a (min (length rf.logs - 1) m))) [
    | inl new ↦
        let lt : a < min (length rf.logs - 1) m = ltb→lt _ _ new in
        rw new (
          follow_commit-apply (min (length rf.logs - 1) m) (pos m) (omega arith)
            (rw top (ground arith)) lt (omega arith))
    | inr old ↦
        rw old (follow_commit-keep (pos m) (λ h. let h' = rw top at h in ground arith) ∙ kept)
  ]
