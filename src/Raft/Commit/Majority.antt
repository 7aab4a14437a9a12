-- ===== src/Raft/Commit/Majority.antt =====
-- When the leader's commit index moves (raft/raft.go, "Commit index updater").
use my_raft.Base.{
  ℕ, suc, ◌+◌, ◌*◌, ◌/◌, ◌==◌, ◌<◌, ℤ, pos, pos_part, eqb_ℤ, eqb_ℤ_iff, int32-small, ◌≡◌, ◌≢◌, ◌↔◌,
  dec_lt, ◌⊎◌, inl, inr, refl, ap, sym, ◌∙◌, some, [], ◌∷◌, length, take, drop, Bool-cases,
  if◌then◌else◌, arith,
}
use my_raft.Raft.State.{Raft, Effect, persist}
use my_raft.Raft.Log.{IsLog}
use my_raft.Raft.Append.{applied, apply_all_lem}
use my_raft.Raft.Append.Finish.{IsSettled, slice-add32}
use my_raft.Raft.Commit.{Tracker, reports, report, commit_to, logs_metrics, update_commit}

-- One report counts one, and only for its own index.
pub reports-report :
    (t : Tracker) (i j : ℤ)
    → reports (report t i) j ≡ (if eqb_ℤ i j then suc (reports t j) else reports t j)
unfolding reports report
reports-report [] i j = ground arith
reports-report ((k, n) ∷ t) i j =
    ground (arith, reports-report t i j, eqb_ℤ_iff k i, eqb_ℤ_iff i j, eqb_ℤ_iff k j)

-- The leader after it has committed and applied up to n.
abbrev pub committed : Raft → ℕ → ℕ → Raft
committed rf a n = persist (record rf {
  commit_idx = pos n;
  last_applied = pos n;
  effects =
      Effect.metrics (logs_metrics rf) ∷ applied (drop (suc a) (take (suc n) rf.logs)) rf.effects;
})

commit_to-committed :
    (rf : Raft) (a n : ℕ)
    → IsLog rf.logs
    → IsSettled rf a
    → a < n
    → n < length rf.logs
    → commit_to rf (pos n) ≡ some (committed rf a n)
unfolding commit_to
commit_to-committed rf a n w s lt le = ground (
  arith,
  slice-add32 rf.logs a n w.fits lt le,
  apply_all_lem (drop (suc a) (take (suc n) rf.logs)) rf,
)

-- The index is above the commit index and in the log.
abbrev pub IsOpen : Raft → ℕ → ℕ → Type 0
IsOpen rf a n = (a < n) × (n < length rf.logs)

module _ (rf : Raft) (t : Tracker) (a n : ℕ) (w : IsLog rf.logs) (s : IsSettled rf a) where
  pub update_commit-open :
      IsOpen rf a n
      → update_commit rf t (pos n) ≡ (
          if reports (report t (pos n)) (pos n) == (rf.peers / 2)
          then some (committed rf a n, report t (pos n))
          else some (rf, report t (pos n)))
  unfolding update_commit
  update_commit-open o =
      ground (arith, commit_to-committed rf a n w s, int32-small (length rf.logs), w.fits)

  pub update_commit-closed : ¬ IsOpen rf a n → update_commit rf t (pos n) ≡ some (rf, t)
  unfolding update_commit
  update_commit-closed o = ground (arith, int32-small (length rf.logs), w.fits, s.committed_to)

  pub counted : reports (report t (pos n)) (pos n) ≡ suc (reports t (pos n))
  counted = rw (reports-report t (pos n) (pos n), (eqb_ℤ_iff (pos n) (pos n)).1 refl) refl

  pub IsOpen-dec : IsOpen rf a n ⊎ (¬ IsOpen rf a n)
  IsOpen-dec = elim (dec_lt a n) [
    | yes lt ↦ elim (dec_lt n (length rf.logs)) [
      | yes le ↦ inl (lt, le)
      | no gt ↦ inr (λ o. gt o.1)
    ]
    | no ge ↦ inr (λ o. ge o.0)
  ]

  -- What one index from the channel leads to.
  data Update (rf' : Raft) (t' : Tracker) : Type 0 where
    ignored : ¬ IsOpen rf a n → rf' ≡ rf → t' ≡ t → Update rf' t'
    waits :
        IsOpen rf a n
        → suc (reports t (pos n)) ≢ rf.peers / 2
        → rf' ≡ rf
        → t' ≡ report t (pos n)
        → Update rf' t'
    moves :
        IsOpen rf a n
        → suc (reports t (pos n)) ≡ rf.peers / 2
        → rf' ≡ committed rf a n
        → t' ≡ report t (pos n)
        → Update rf' t'

  module _ (rf' : Raft) (t' : Tracker) (h : update_commit rf t (pos n) ≡ some (rf', t')) where
    commit-Update : Update rf' t'
    commit-Update = elim IsOpen-dec [
      | inr closed ↦
          let e = sym h ∙ update_commit-closed closed in
          Update.ignored closed (ground arith) (ground arith)
      | inl o ↦
          let e = sym h ∙ update_commit-open o in
          elim (Bool-cases (reports (report t (pos n)) (pos n) == (rf.peers / 2))) [
            | inl full ↦
                Update.moves o (ground (arith, counted)) (ground (arith, full))
                  (ground (arith, full))
            | inr less ↦
                Update.waits o (ground (arith, counted)) (ground (arith, less))
                  (ground (arith, less))
          ]
    ]

    Update-moves :
        Update rf' t'
        → (rf'.commit_idx ≢ rf.commit_idx)
          ↔ (IsOpen rf a n × (suc (reports t (pos n)) ≡ rf.peers / 2))
    unfolding persist
    Update-moves (Update.ignored closed e f) =
        (λ ne. absurd (ne (ap (λ (r : Raft). r.commit_idx) e)), λ o. absurd (closed o.0))
    Update-moves (Update.waits o less e f) =
        (λ ne. absurd (ne (ap (λ (r : Raft). r.commit_idx) e)), λ o. absurd (less o.1))
    Update-moves (Update.moves o full e f) = (
      λ ne. (o, full),
      λ _ same.
          let both : pos n ≡ pos a =
            sym (ap (λ (r : Raft). r.commit_idx) e) ∙ same ∙ s.committed_to in
          absurd (omega (arith, ap pos_part both)),
    )

    -- On a server whose log is well formed and whose commit index is the index that it has applied,
    -- a reported index moves the commit index exactly when it is above it and in the log and, with
    -- this report, the reports of it are half of the servers, rounded down.
    pub update_commit-moves :
        (rf'.commit_idx ≢ rf.commit_idx)
        ↔ (IsOpen rf a n × (suc (reports t (pos n)) ≡ rf.peers / 2))
    update_commit-moves = Update-moves commit-Update

    Update-majority :
        Update rf' t'
        → rf'.commit_idx ≢ rf.commit_idx
        → (rf' ≡ committed rf a n) × (rf.peers < 2 * (reports t' (pos n) + 1))
    Update-majority (Update.ignored closed e f) ne = absurd (ne (ap (λ (r : Raft). r.commit_idx) e))
    Update-majority (Update.waits o less e f) ne = absurd (ne (ap (λ (r : Raft). r.commit_idx) e))
    Update-majority (Update.moves o full e f) ne =
        (e, omega (arith, full, counted, ap (λ (u : Tracker). reports u (pos n)) f))

    -- On a server whose log is well formed and whose commit index is the index that it has applied,
    -- where a reported index moves the commit index, the entries up to the reported index are
    -- applied, and the reports of it and the leader itself are more than half of the servers.
    pub update_commit-majority :
        rf'.commit_idx ≢ rf.commit_idx
        → (rf' ≡ committed rf a n) × (rf.peers < 2 * (reports t' (pos n) + 1))
    update_commit-majority = Update-majority commit-Update
