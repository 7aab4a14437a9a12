-- ===== src/Raft/Append/Conflict.antt =====
-- The comparison with `PrevLog` in `HeartBeat` of raft/raft.go, and the loop that backs up over a
-- term in conflict.
use my_raft.Base.{
  ℕ, zero, suc, ◌+◌, ◌-◌, ◌≤◌, ◌<◌, ℤ, pos, eqb_ℤ, eqb_ℤ_iff, ◌≡◌, ◌≢◌, ◌⊎◌, inl, inr, refl, ap,
  sym, ◌∙◌, some, List, length, length-take, take, get_elem?, get_elem?-some, get_elem?-take,
  Bool-cases, dec_lt, arith, index, last,
}
use my_raft.Raft.Data.{RaftLog}
use my_raft.Raft.Log.{IsLog, IsLog-index, Consecutive-take}
use my_raft.Raft.Append.{back_up, check_prev, conflict, beyond, matches}

-- Where the loop stops: the entries behind it, up to where it began, are all of the term, and the
-- one at it is of another, or is the first of the log.
pub record StopsAt (logs : List RaftLog) (t : ℤ) (q cur : ℕ) : Type 0 where
  pub before : cur ≤ q
  pub behind : (i : ℕ) (e : RaftLog) → cur < i → i ≤ q → get_elem? logs i ≡ some e → e.term ≡ t
  pub at_stop : (cur ≡ 0) ⊎ ((e : RaftLog) × (get_elem? logs cur ≡ some e) × (e.term ≢ t))

abbrev pub BacksUp : List RaftLog → ℤ → ℕ → Type 0
BacksUp logs t q = (cur : ℕ) × (back_up logs t q ≡ some cur) × StopsAt logs t q cur

behind-suc :
    (logs : List RaftLog) (t : ℤ) (q cur : ℕ) (e : RaftLog)
    → get_elem? logs (suc q) ≡ some e
    → e.term ≡ t
    → ((i : ℕ) (d : RaftLog) → cur < i → i ≤ q → get_elem? logs i ≡ some d → d.term ≡ t)
    → (i : ℕ) (d : RaftLog) → cur < i
    → i ≤ suc q
    → get_elem? logs i ≡ some d
    → d.term ≡ t
behind-suc logs t q cur e g same below i d a b h = elim (dec_lt i (suc q)) [
  | yes lt ↦ below i d a (omega arith) h
  | no ge ↦
      let here : i ≡ suc q = omega arith in
      let both : some d ≡ some e = sym h ∙ ap (get_elem? logs) here ∙ g in cc
]

-- The loop that backs up from a position of the log ends without a panic, at the last entry of another
-- term, or at the first of the log.
pub back_up-BacksUp : (logs : List RaftLog) (t : ℤ) (q : ℕ) → q < length logs → BacksUp logs t q
unfolding back_up
back_up-BacksUp logs t zero lt =
    let (e, g) = get_elem?-some logs 0 lt in
    (
      0,
      rw g refl,
      record {
        before = omega arith;
        behind = λ i e a b g. absurd (omega arith);
        at_stop = inl refl;
      },
    )
back_up-BacksUp logs t (suc q) lt =
    let (e, g) = get_elem?-some logs (suc q) lt in
    elim (Bool-cases (eqb_ℤ e.term t)) [
      | inl same ↦
          let (cur, r, s) = back_up-BacksUp logs t q (omega arith) in
          (
            cur,
            rw (g, same) r,
            record {
              before = omega (arith, s.before);
              behind = behind-suc logs t q cur e g ((eqb_ℤ_iff e.term t).0 same) s.behind;
              at_stop = s.at_stop;
            },
          )
      | inr differs ↦ (
        suc q,
        rw (g, differs) refl,
        record {
          before = omega arith;
          behind = λ i e a b g. absurd (omega arith);
          at_stop = inr (e, g, ground (arith, eqb_ℤ_iff e.term t));
        },
      )
    ]

-- A log cut behind a position is a log.
pub IsLog-take : (logs : List RaftLog) (n : ℕ) → IsLog logs → 0 < n → IsLog (take n logs)
IsLog-take logs n w h = record {
  some_entry = omega (arith, length-take n logs, w.some_entry);
  fits = omega (arith, length-take n logs, w.fits);
  consecutive = Consecutive-take 0 n logs w.consecutive;
}

pub last-take :
    (logs : List RaftLog) (i : ℕ) (e : RaftLog)
    → i < length logs
    → get_elem? logs i ≡ some e
    → last (take (i + 1) logs) ≡ some e
last-take logs i e lt g =
    let n : length (take (i + 1) logs) - 1 ≡ i = omega (arith, length-take (i + 1) logs) in
    rw n (get_elem?-take (i + 1) i logs (omega arith) ∙ g)

module _ (logs : List RaftLog) (w : IsLog logs) (first prev : RaftLog) (q : ℕ)
    (top : last logs ≡ some first) (e : prev.index ≡ pos q) where
  first-index : first.index ≡ pos (length logs - 1)
  first-index = IsLog-index logs w (length logs - 1) first top

  pub check_prev-beyond : length logs ≤ q → check_prev logs first prev ≡ some beyond
  unfolding check_prev
  check_prev-beyond h = ground (arith, first-index, w.some_entry)

  module _ (mine : RaftLog) (g : get_elem? logs q ≡ some mine) (lt : q < length logs) where
    at_prev : index logs prev.index ≡ some mine
    at_prev = rw e g

    pub check_prev-matches : mine.term ≡ prev.term → check_prev logs first prev ≡ some matches
    unfolding check_prev
    check_prev-matches same = ground (arith, at_prev, first-index, eqb_ℤ_iff mine.term prev.term)

    pub check_prev-conflict :
        (cur : ℕ)
        → mine.term ≢ prev.term
        → back_up logs mine.term q ≡ some cur
        → check_prev logs first prev ≡ some (conflict (take (cur + 1) logs))
    unfolding check_prev
    check_prev-conflict cur differs b = ground (arith, at_prev, eqb_ℤ_iff mine.term prev.term)
