-- ===== src/Raft/Append/Absorb.antt =====
-- The loop over `args.Entries` of `HeartBeat` (raft/raft.go) against Raft's rule for a follower:
-- what agrees stays, from the first disagreement on the leader's entries replace the follower's.
use my_raft.Base.{
  ℕ, zero, suc, ◌+◌, ◌-◌, ◌^◌, ◌≤◌, ◌<◌, ℤ, pos, eqb_ℤ, eqb_ℤ_iff, if◌then◌else◌, ◌≡◌, refl, ap,
  sym, ◌∙◌, true, false, some, List, [], ◌∷◌, ◌++◌, append_assoc, length, length-append, take, drop,
  get_elem?, get_elem?-some, take-get_elem?, drop-get_elem?, take-length, drop-length,
  take-append-drop, length-take, length-drop, Bool-cases, index, arith, inl, inr, dec_lt,
}
use my_raft.Raft.Data.{RaftLog}
use my_raft.Raft.Log.{Consecutive, IsLog, Consecutive-append, Consecutive-take, Consecutive-drop}
use my_raft.Raft.Append.{merged, merge}

-- What becomes of the entries behind `PrevLog`.
unfoldable pub absorb : List RaftLog → List RaftLog → List RaftLog
absorb xs [] = xs
absorb [] (v ∷ vs) = v ∷ vs
absorb (x ∷ xs) (v ∷ vs) = if eqb_ℤ x.term v.term then x ∷ absorb xs vs else v ∷ vs

absorb-nil : (vs : List RaftLog) → absorb [] vs ≡ vs
unfolding absorb
absorb-nil [] = refl
absorb-nil (v ∷ vs) = refl

-- The log after the entries, which follow position p - 1, have been taken over.
abbrev pub absorbed : List RaftLog → ℕ → List RaftLog → List RaftLog
absorbed logs p entries = take p logs ++ absorb (drop p logs) entries

module _ (logs : List RaftLog) (w : IsLog logs) (top : ℤ) (t : top ≡ pos (length logs - 1)) where
  merge-end :
      (v : RaftLog) (vs : List RaftLog)
      → v.index ≡ pos (length logs)
      → merge logs top (v ∷ vs) ≡ some (merged (logs ++ v ∷ vs))
  unfolding merge
  merge-end v vs e = ground arith

  module _ (p : ℕ) (v : RaftLog) (vs : List RaftLog) (e : v.index ≡ pos p) (lt : p < length logs)
      (mine : RaftLog) (g : get_elem? logs p ≡ some mine) where
    at_p : index logs v.index ≡ some mine
    at_p = rw e g

    merge-same : eqb_ℤ mine.term v.term ≡ true → merge logs top (v ∷ vs) ≡ merge logs top vs
    unfolding merge
    merge-same same = ground (arith, at_p)

    merge-differs :
        eqb_ℤ mine.term v.term ≡ false
        → merge logs top (v ∷ vs) ≡ some (merged (take p logs ++ v ∷ vs))
    unfolding merge
    merge-differs differs = rw (at_p, e) (ground arith)

    absorbed-same :
        eqb_ℤ mine.term v.term ≡ true → absorbed logs p (v ∷ vs) ≡ absorbed logs (suc p) vs
    unfolding absorb
    absorbed-same same =
        rw (drop-get_elem? logs p mine g, absorb, same, take-get_elem? logs p mine g)
          (sym (append_assoc (take p logs) (mine ∷ []) (absorb (drop (suc p) logs) vs)))

    absorbed-differs :
        eqb_ℤ mine.term v.term ≡ false → absorbed logs p (v ∷ vs) ≡ take p logs ++ v ∷ vs
    unfolding absorb
    absorbed-differs differs = rw (drop-get_elem? logs p mine g, absorb, differs) refl

  -- On a well-formed log whose last entry has the index `top`, the loop over entries that follow a
  -- position of the log, p - 1, does not panic and yields what Raft's rule for a follower says.
  pub merge-absorbed :
      (p : ℕ) (entries : List RaftLog)
      → p ≤ length logs
      → Consecutive p entries
      → merge logs top entries ≡ some (merged (absorbed logs p entries))
  unfolding merge absorb
  merge-absorbed p [] h c = ap (λ l. some (merged l)) (sym (take-append-drop p logs))
  merge-absorbed p (v ∷ vs) h c = elim (dec_lt p (length logs)) [
    | yes lt ↦
        let (mine, g) = get_elem?-some logs p lt in
        elim (Bool-cases (eqb_ℤ mine.term v.term)) [
          | inl same ↦
              merge-same p v vs c.0 lt mine g same
              ∙ merge-absorbed (suc p) vs lt c.1
              ∙ ap (λ l. some (merged l)) (sym (absorbed-same p v vs c.0 lt mine g same))
          | inr differs ↦
              merge-differs p v vs c.0 lt mine g differs
              ∙ ap (λ l. some (merged l)) (sym (absorbed-differs p v vs c.0 lt mine g differs))
        ]
    | no ge ↦
        let e : p ≡ length logs = omega arith in
        merge-end v vs (c.0 ∙ ap pos e)
        ∙ rw (take-length logs p (omega arith), drop-length logs p (omega arith)) refl
  ]

-- The list begins with entries of the same terms.
abbrev pub SameTerms : List RaftLog → List RaftLog → Type 0
SameTerms xs [] = Unit
SameTerms [] (v ∷ vs) = ⊥
SameTerms (x ∷ xs) (v ∷ vs) = (x.term ≡ v.term) × SameTerms xs vs

SameTerms-refl : (vs : List RaftLog) → SameTerms vs vs
SameTerms-refl [] = tt
SameTerms-refl (v ∷ vs) = (refl, SameTerms-refl vs)

-- Afterwards the log has the leader's terms.
pub absorb-SameTerms : (xs vs : List RaftLog) → SameTerms (absorb xs vs) vs
unfolding absorb
absorb-SameTerms xs [] = tt
absorb-SameTerms [] (v ∷ vs) = (refl, SameTerms-refl vs)
absorb-SameTerms (x ∷ xs) (v ∷ vs) = elim (Bool-cases (eqb_ℤ x.term v.term)) [
  | inl same ↦ rw same ((eqb_ℤ_iff x.term v.term).0 same, absorb-SameTerms xs vs)
  | inr differs ↦ rw differs (refl, SameTerms-refl vs)
]

-- What agrees already is left alone.
pub absorb-same : (xs vs : List RaftLog) → SameTerms xs vs → absorb xs vs ≡ xs
unfolding absorb
absorb-same xs [] h = refl
absorb-same [] (v ∷ vs) h = absurd h
absorb-same (x ∷ xs) (v ∷ vs) h =
    rw ((eqb_ℤ_iff x.term v.term).1 h.0) (ap (◌∷◌ x) (absorb-same xs vs h.1))

pub Consecutive-absorb :
    (k : ℕ) (xs vs : List RaftLog)
    → Consecutive k xs
    → Consecutive k vs
    → Consecutive k (absorb xs vs)
unfolding absorb
Consecutive-absorb k xs [] c d = c
Consecutive-absorb k [] (v ∷ vs) c d = d
Consecutive-absorb k (x ∷ xs) (v ∷ vs) c d = elim (Bool-cases (eqb_ℤ x.term v.term)) [
  | inl same ↦ rw same (c.0, Consecutive-absorb (suc k) xs vs c.1 d.1)
  | inr differs ↦ rw differs d
]

pub length-absorb :
    (xs vs : List RaftLog)
    → (length vs ≤ length (absorb xs vs)) × (length (absorb xs vs) ≤ length xs + length vs)
unfolding absorb
length-absorb xs [] = omega arith
length-absorb [] (v ∷ vs) = omega arith
length-absorb (x ∷ xs) (v ∷ vs) = ground (arith, length-absorb xs vs)

absorb-le-max :
    (xs vs : List RaftLog) (n : ℕ) → length xs ≤ n → length vs ≤ n → length (absorb xs vs) ≤ n
unfolding absorb
absorb-le-max xs [] n h k = h
absorb-le-max [] (v ∷ vs) n h k = k
absorb-le-max (x ∷ xs) (v ∷ vs) zero h k = absurd (omega arith)
absorb-le-max (x ∷ xs) (v ∷ vs) (suc n) h k = ground (arith, absorb-le-max xs vs n)

module _ (logs entries : List RaftLog) (q : ℕ) (w : IsLog logs) (lt : q < length logs)
    (c : Consecutive (suc q) entries) (fits : q + 1 + length entries < 2 ^ 31) where
  pub absorbed-length :
      (suc q + length entries ≤ length (absorbed logs (suc q) entries))
      × (length (absorbed logs (suc q) entries) < 2 ^ 31)
  absorbed-length = omega (
    arith,
    length-append (take (suc q) logs) (absorb (drop (suc q) logs) entries),
    length-take (suc q) logs,
    length-drop (suc q) logs,
    length-absorb (drop (suc q) logs) entries,
    absorb-le-max (drop (suc q) logs) entries (2 ^ 31 - 1 - (q + 1)),
    w.fits,
  )

  -- A bound on what the old log and the request reach is one on the new log.
  pub absorbed-le :
      (n : ℕ)
      → length logs ≤ n
      → suc q + length entries ≤ n
      → length (absorbed logs (suc q) entries) ≤ n
  absorbed-le n h k = omega (
    arith,
    length-append (take (suc q) logs) (absorb (drop (suc q) logs) entries),
    length-take (suc q) logs,
    length-drop (suc q) logs,
    absorb-le-max (drop (suc q) logs) entries (n - suc q),
  )

  -- The new log is one: the indices are still the positions.
  pub absorbed-IsLog : IsLog (absorbed logs (suc q) entries)
  absorbed-IsLog =
      let at_q : 0 + length (take (suc q) logs) ≡ suc q = omega (arith, length-take (suc q) logs) in
      let from_q : 0 + suc q ≡ suc q = omega arith in
      let rest = rw from_q at (Consecutive-drop 0 (suc q) logs w.consecutive) in
      record {
        some_entry = omega (arith, absorbed-length);
        fits = absorbed-length.1;
        consecutive =
            Consecutive-append 0 (take (suc q) logs) (absorb (drop (suc q) logs) entries)
              (Consecutive-take 0 (suc q) logs w.consecutive)
              (rw at_q (Consecutive-absorb (suc q) (drop (suc q) logs) entries rest c));
      }
