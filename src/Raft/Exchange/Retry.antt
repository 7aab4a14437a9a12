-- ===== src/Raft/Exchange/Retry.antt =====
-- Where the leader of raft/raft.go tries next after a reply that was not successful.
use my_raft.Base.{
  ℕ, zero, suc, ◌≤◌, ◌<◌, ℤ, pos, ◌<ℤ◌, ltb_ℤ, leb_ℤ, eqb_ℤ, ◌≡◌, refl, some, List, length,
  get_elem?, get_elem?-some, index, Bool-cases, inl, inr, arith, ◌&&◌, ap,
}
use my_raft.Raft.Data.{RaftLog, AppendEntriesArgs}
use my_raft.Raft.Leader.{skip_back, skip_back_from, retry_from}

-- The result is there and no higher.
abbrev pub Backs : List RaftLog → AppendEntriesArgs → RaftLog → ℕ → Type 0
Backs logs args e c = (i : ℕ) × (retry_from logs args e ≡ some (pos i)) × (i ≤ c)

module _ (logs : List RaftLog) (first : RaftLog) (at_first : get_elem? logs 0 ≡ some first) where
  -- Where the first entry of the log is of a term below `t`, the loop that goes back over the
  -- entries of terms from `t` on ends within the log.
  pub skip_back-stops :
      (t : ℤ) (c : ℕ)
      → first.term <ℤ t
      → c < length logs
      → (i : ℕ) × (skip_back logs t c ≡ some (pos i)) × (i ≤ c)
  unfolding skip_back
  skip_back-stops t zero old lt = (0, rw at_first (ground arith), omega arith)
  skip_back-stops t (suc c) old lt =
      let (e, g) = get_elem?-some logs (suc c) lt in
      elim (Bool-cases (leb_ℤ t e.term)) [
        | inl same ↦
            let (i, r, le) = skip_back-stops t c old (omega arith) in
            (i, rw (g, same) r, omega arith)
        | inr other ↦ (suc c, rw (g, other) refl, omega arith)
      ]

  -- The loop runs only where the index is in the log.
  pub retry_from-Backs :
      (args : AppendEntriesArgs) (e : RaftLog) (c q : ℕ)
      → first.term <ℤ args.term
      → e.index ≡ pos c
      → args.prev_log.index ≡ pos q
      → q < length logs
      → Backs logs args e c
  unfolding retry_from skip_back_from
  retry_from-Backs args e c q old at_c at_q lt =
      elim (Bool-cases (ltb_ℤ (pos 1) e.index && leb_ℤ e.index args.prev_log.index)) [
        | inr out ↦ (c, rw out (ap some at_c), omega arith)
        | inl within ↦
            let le : c ≤ q = ground arith in
            let (mine, g) = get_elem?-some logs c (omega arith) in
            let at_mine : index logs e.index ≡ some mine = rw at_c g in
            elim (Bool-cases (eqb_ℤ mine.term e.term)) [
              | inl same ↦ (c, rw (within, at_mine, same) (ap some at_c), omega arith)
              | inr other ↦
                  let (i, r, le_c) = skip_back-stops args.term c old (omega arith) in
                  (i, rw (within, at_mine, other, at_c) r, le_c)
            ]
      ]
