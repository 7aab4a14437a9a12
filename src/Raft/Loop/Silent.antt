-- ===== src/Raft/Loop/Silent.antt =====
-- The loop of raft/raft.go begins an election when nobody calls any more.
use my_raft.Base.{
  ℕ, ◌+◌, ◌≤◌, ◌<◌, false, none, some, List, [], ◌∷◌, ◌++◌, length, ◌≡◌, refl, ap, ◌∙◌, add32, pos,
  dec_lt, arith, last,
}
use my_raft.Raft.Data.{RaftLog}
use my_raft.Raft.State.{Raft}
use my_raft.Raft.Election.{Campaign, begin_election}
use my_raft.Raft.Loop.{Loop, signals, turn, turns_at, default_election_timeout}

-- A loop that goes on, of a server that does not lead and has a log.
pub record IsActive (l : Loop) : Type 0 where
  pub goes_on : l.stop_chnl ≡ false
  pub follows : l.rf.is_leader ≡ false
  pub log : (e : RaftLog) × (last l.rf.logs ≡ some e)

-- The times are before the last one by 660 ms, and what is drawn is less than the bound.
abbrev pub AreEarly : ℕ → List (ℕ × (ℕ → ℕ)) → Type 0
AreEarly end [] = Unit
AreEarly end ((t, int31n) ∷ ts) = (t + 660 ≤ end) × (int31n 330 < 330) × AreEarly end ts

begin_election-starts :
    (rf : Raft) (e : RaftLog)
    → last rf.logs ≡ some e
    → (rf' : Raft) × (c : Campaign) × (begin_election rf ≡ some (rf', c))
      × (c.term ≡ add32 rf.current_term (pos 1))
      × (rf'.is_leader ≡ rf.is_leader)
      × (rf'.logs ≡ rf.logs)
unfolding begin_election
begin_election-starts rf e h = (
  record rf { current_term = add32 rf.current_term (pos 1); voted_for = pos rf.me },
  record { term = add32 rf.current_term (pos 1); last_log = e; commit_idx = rf.commit_idx },
  rw h refl,
  refl,
  refl,
  refl,
)

-- What a turn of an active loop does.
data Turns (t timeout : ℕ) (l : Loop) : Type 0 where
  reads :
      l.seen < signals l.rf.effects
      → turn t timeout l ≡ some (record l { seen = l.seen + 1; deadline = t + timeout }, none)
      → Turns t timeout l
  idles : signals l.rf.effects ≤ l.seen → turn t timeout l ≡ some (l, none) → Turns t timeout l
  campaigns :
      (l' : Loop) (c : Campaign)
      → turn t timeout l ≡ some (l', some c)
      → c.term ≡ add32 l.rf.current_term (pos 1)
      → IsActive l'
      → Turns t timeout l

module _ (t timeout : ℕ) (l : Loop) (a : IsActive l) where
  turn-campaigns :
      signals l.rf.effects ≤ l.seen
      → l.deadline ≤ t
      → (l' : Loop) × (c : Campaign) × (turn t timeout l ≡ some (l', some c))
        × (c.term ≡ add32 l.rf.current_term (pos 1))
        × IsActive l'
  unfolding turn
  turn-campaigns seen due =
      let (rf, c, e, term, leads, logs) = begin_election-starts l.rf a.log.0 a.log.1 in
      (
        record l { rf = rf; deadline = t + timeout },
        c,
        ground (arith, a.goes_on, a.follows, e, seen, due),
        term,
        record {
          goes_on = a.goes_on;
          follows = leads ∙ a.follows;
          log = (a.log.0, ap last logs ∙ a.log.1);
        },
      )

  turn-Turns : Turns t timeout l
  unfolding turn
  turn-Turns = elim (dec_lt l.seen (signals l.rf.effects)) [
    | yes lt ↦ reads lt (ground (arith, a.goes_on, lt))
    | no ge ↦ elim (dec_lt t l.deadline) [
      | yes lt ↦ idles (omega (arith, ge)) (ground (arith, a.goes_on, a.follows, ge, lt))
      | no due ↦
          let (l', c, e, term, a') = turn-campaigns (omega (arith, ge)) (omega (arith, due)) in
          campaigns l' c e term a'
    ]
  ]

turns_at-runs :
    (ts : List (ℕ × (ℕ → ℕ))) (l : Loop)
    → IsActive l
    → (l' : Loop) × (cs : List Campaign) × (turns_at ts l ≡ some (l', cs))
unfolding turns_at
turns_at-runs [] l a = (l, [], refl)
turns_at-runs ((t, int31n) ∷ ts) l a = elim (turn-Turns t (default_election_timeout int31n) l a) [
  | reads lt e ↦
      let a1 : IsActive
          (record l { seen = l.seen + 1; deadline = t + default_election_timeout int31n }) =
        record { goes_on = a.goes_on; follows = a.follows; log = a.log } in
      let (l', cs, e') = turns_at-runs ts _ a1 in (l', cs, rw (e, e') refl)
  | idles ge e ↦ let (l', cs, e') = turns_at-runs ts l a in (l', cs, rw (e, e') refl)
  | campaigns l1 c e term a1 ↦
      let (l', cs, e') = turns_at-runs ts l1 a1 in (l', c ∷ cs, rw (e, e') refl)
]

-- While no call of HeartBeat or RequestVote comes, a loop that goes on, of a server that does not lead and
-- has a log, begins an election by its turn at the given time, if its timer fires by then, it makes
-- turns as many as it has signals to read before that, all 660 ms earlier, and the numbers drawn are less
-- than their bound; no turn panics, and the first election is of the term after the server's.
pub turns_at-campaigns :
    (end : ℕ) (int31n : ℕ → ℕ) (ts : List (ℕ × (ℕ → ℕ))) (l : Loop)
    → IsActive l
    → AreEarly end ts
    → signals l.rf.effects ≤ l.seen + length ts
    → l.deadline ≤ end
    → (l' : Loop) × (c : Campaign) × (cs : List Campaign) × (turns_at (ts ++ (end, int31n) ∷ []) l
        ≡ some (l', c ∷ cs))
      × (c.term ≡ add32 l.rf.current_term (pos 1))
unfolding turns_at
turns_at-campaigns end int31n [] l a tt seen due =
    let (l', c, e, term, a') =
      turn-campaigns end (default_election_timeout int31n) l a (omega (arith, seen)) due in
    (l', c, [], rw e refl, term)
turns_at-campaigns end int31n ((t, draw) ∷ ts) l a (le, lt, rest) seen due =
    elim (turn-Turns t (default_election_timeout draw) l a) [
      | reads more e ↦
          let l1 = record l { seen = l.seen + 1; deadline = t + default_election_timeout draw } in
          let a1 : IsActive l1 = record { goes_on = a.goes_on; follows = a.follows; log = a.log } in
          let (l', c, cs, e', term) =
            turns_at-campaigns end int31n ts l1 a1 rest (omega (arith, seen))
              (omega (arith, le, lt)) in
          (l', c, cs, rw (e, e') refl, term)
      | idles ge e ↦
          let (l', c, cs, e', term) =
            turns_at-campaigns end int31n ts l a rest (omega (arith, ge)) due in
          (l', c, cs, rw (e, e') refl, term)
      | campaigns l1 c e term a1 ↦
          let (l', cs, e') = turns_at-runs (ts ++ (end, int31n) ∷ []) l1 a1 in
          (l', c, cs, rw (e, e') refl, term)
    ]
