-- ===== src/Raft/Stop/Ends.antt =====
-- After `Kill` of raft/raft.go every goroutine that goes on returns.
use my_raft.Base.{
  ℕ, zero, suc, ◌+◌, ◌≤◌, Bool-cases, true, false, if◌then◌else◌, some, List, [], ◌∷◌, get_elem?,
  ◌*◌, set, replicate, ◌≡◌, refl, ap, ◌∙◌, ◌⊎◌, inl, inr, arith, Option-cases,
}
use mathlib.Core.Option.{some-injective}
use my_raft.Raft.Stop.{
  Phase, looping, giving_back, returned, Goroutines, Move, kills, takes, gives, all_looping, move,
  moves,
}

abbrev pub gives_back : Phase → ℕ
gives_back giving_back = 1
gives_back _ = 0

-- The statements that a goroutine has left.
abbrev pub to_do : Phase → ℕ
to_do looping = 2
to_do giving_back = 1
to_do returned = 0

abbrev pub total : (Phase → ℕ) → List Phase → ℕ
total f [] = 0
total f (p ∷ ps) = f p + total f ps

-- The values on the channel and in the hands of goroutines.
abbrev pub tokens : Goroutines → ℕ
tokens g = (if g.stop_chnl then 1 else 0) + total gives_back g.phases

abbrev pub left : Goroutines → ℕ
left g = total to_do g.phases

abbrev pub HasNoKill : List Move → Type 0
HasNoKill [] = Unit
HasNoKill (kills ∷ ms) = ⊥
HasNoKill (takes i ∷ ms) = HasNoKill ms
HasNoKill (gives i ∷ ms) = HasNoKill ms

total-set :
    (f : Phase → ℕ) (ps : List Phase) (i : ℕ) (p q : Phase)
    → get_elem? ps i ≡ some p
    → total f (set ps i q) + f p ≡ total f ps + f q
total-set f [] i p q h = cc
total-set f (r ∷ ps) zero p q h = let e : r ≡ p = some-injective _ _ h in omega (arith, ap f e)
total-set f (r ∷ ps) (suc i) p q h = omega (arith, total-set f ps i p q h)

-- A goroutine's step keeps the value, and leaves less to do or does nothing.
record Goes (g g' : Goroutines) : Type 0 where
  kept : tokens g' ≡ tokens g
  less : left g' ≤ left g

takes-less :
    (g : Goroutines) (i : ℕ)
    → g.stop_chnl ≡ true
    → get_elem? g.phases i ≡ some looping
    → (tokens (move g (takes i)) ≡ tokens g) × (left (move g (takes i)) + 1 ≡ left g)
unfolding move
takes-less g i on e =
    let held = total-set gives_back g.phases i looping giving_back e in
    let done = total-set to_do g.phases i looping giving_back e in
    rw (move, e, on) (omega (arith, held), omega (arith, done))

gives-less :
    (g : Goroutines) (i : ℕ)
    → g.stop_chnl ≡ false
    → get_elem? g.phases i ≡ some giving_back
    → (tokens (move g (gives i)) ≡ tokens g) × (left (move g (gives i)) + 1 ≡ left g)
unfolding move
gives-less g i off e =
    let held = total-set gives_back g.phases i giving_back returned e in
    let done = total-set to_do g.phases i giving_back returned e in
    rw (move, e, off) (omega (arith, held), omega (arith, done))

stays : (g g' : Goroutines) → g' ≡ g → Goes g g'
stays g g' e = record { kept = ap tokens e; less = omega (arith, ap left e) }

Phase-cases : (p : Phase) → (p ≡ looping) ⊎ ((p ≡ giving_back) ⊎ (p ≡ returned))
Phase-cases looping = inl refl
Phase-cases giving_back = inr (inl refl)
Phase-cases returned = inr (inr refl)

takes-Goes : (g : Goroutines) (i : ℕ) → Goes g (move g (takes i))
unfolding move
takes-Goes g i = elim (Option-cases (get_elem? g.phases i)) [
  | inl e ↦ stays g _ (rw (move, e) refl)
  | inr (p, e) ↦ elim (Phase-cases p) [
    | inl same ↦ elim (Bool-cases g.stop_chnl) [
      | inl on ↦
          let (kept, less) = takes-less g i on (e ∙ ap some same) in
          record { kept = kept; less = omega (arith, less) }
      | inr off ↦ stays g _ (rw (move, e, same, off) refl)
    ]
    | inr (inl same) ↦ stays g _ (rw (move, e, same) refl)
    | inr (inr same) ↦ stays g _ (rw (move, e, same) refl)
  ]
]

gives-Goes : (g : Goroutines) (i : ℕ) → Goes g (move g (gives i))
unfolding move
gives-Goes g i = elim (Option-cases (get_elem? g.phases i)) [
  | inl e ↦ stays g _ (rw (move, e) refl)
  | inr (p, e) ↦ elim (Phase-cases p) [
    | inl same ↦ stays g _ (rw (move, e, same) refl)
    | inr (inl same) ↦ elim (Bool-cases g.stop_chnl) [
      | inl on ↦ stays g _ (rw (move, e, same, on) refl)
      | inr off ↦
          let (kept, less) = gives-less g i off (e ∙ ap some same) in
          record { kept = kept; less = omega (arith, less) }
    ]
    | inr (inr same) ↦ stays g _ (rw (move, e, same) refl)
  ]
]

moves-Goes : (ms : List Move) (g : Goroutines) → HasNoKill ms → Goes g (moves g ms)
unfolding moves
moves-Goes [] g none_kills = stays g g refl
moves-Goes (kills ∷ ms) g none_kills = absurd none_kills
moves-Goes (takes i ∷ ms) g none_kills =
    let one = takes-Goes g i in
    let rest = moves-Goes ms (move g (takes i)) none_kills in
    record { kept = rest.kept ∙ one.kept; less = omega (arith, one.less, rest.less) }
moves-Goes (gives i ∷ ms) g none_kills =
    let one = gives-Goes g i in
    let rest = moves-Goes ms (move g (gives i)) none_kills in
    record { kept = rest.kept ∙ one.kept; less = omega (arith, one.less, rest.less) }

find-looping :
    (ps : List Phase)
    → total gives_back ps ≡ 0
    → (total to_do ps ≡ 0) ⊎ ((i : ℕ) × (get_elem? ps i ≡ some looping))
find-looping [] e = inl refl
find-looping (looping ∷ ps) e = inr (0, refl)
find-looping (giving_back ∷ ps) e = absurd (omega (arith, e))
find-looping (returned ∷ ps) e = elim (find-looping ps (omega (arith, e))) [
  | inl z ↦ inl (omega (arith, z))
  | inr (i, at) ↦ inr (suc i, at)
]

find-giving_back :
    (ps : List Phase) → 1 ≤ total gives_back ps → (i : ℕ) × (get_elem? ps i ≡ some giving_back)
find-giving_back [] e = absurd (omega (arith, e))
find-giving_back (giving_back ∷ ps) e = (0, refl)
find-giving_back (looping ∷ ps) e =
    let (i, at) = find-giving_back ps (omega (arith, e)) in (suc i, at)
find-giving_back (returned ∷ ps) e =
    let (i, at) = find-giving_back ps (omega (arith, e)) in (suc i, at)

total-looping :
    (n : ℕ)
    → (total gives_back (replicate n looping) ≡ 0) × (total to_do (replicate n looping) ≡ 2 * n)
total-looping zero = (refl, omega arith)
total-looping (suc n) = let (a, b) = total-looping n in (omega (arith, a), omega (arith, b))

next :
    (g : Goroutines)
    → tokens g ≡ 1
    → (left g ≡ 0) ⊎ ((m : Move) × HasNoKill (m ∷ []) × (left (move g m) + 1 ≡ left g))
next g one = elim (Bool-cases g.stop_chnl) [
  | inl on ↦ elim (find-looping g.phases (ground (arith, one, on))) [
    | inl z ↦ inl z
    | inr (i, at) ↦ inr (takes i, tt, (takes-less g i on at).1)
  ]
  | inr off ↦
      let (i, at) = find-giving_back g.phases (ground (arith, one, off)) in
      inr (gives i, tt, (gives-less g i off at).1)
]

one_less : (g : Goroutines) (m : Move) → HasNoKill (m ∷ []) → left (move g m) ≤ left g
one_less g kills none_kills = absurd none_kills
one_less g (takes i) none_kills = (takes-Goes g i).less
one_less g (gives i) none_kills = (gives-Goes g i).less

-- Of any number of goroutines that are in their loops when Kill is called once: after any of their
-- statements, in any order, the value that Kill sent is on the channel or in the hands of one goroutine;
-- the goroutines have at most two statements each left, which no statement makes more; and if not all
-- have returned, one of them has a statement that leaves one less, so none waits for ever.
pub moves-ends :
    (n : ℕ) (ms : List Move)
    → HasNoKill ms
    → let g = moves (all_looping n) (kills ∷ ms) in
      (tokens g ≡ 1)
      × (left g ≤ 2 * n)
      × ((m : Move) → HasNoKill (m ∷ []) → left (move g m) ≤ left g)
      × ((left g ≡ 0) ⊎ ((m : Move) × HasNoKill (m ∷ []) × (left (move g m) + 1 ≡ left g)))
unfolding moves move
moves-ends n ms none_kills =
    let (none_held, all_left) = total-looping n in
    let run = moves-Goes ms (move (all_looping n) kills) none_kills in
    let one : tokens (moves (move (all_looping n) kills) ms) ≡ 1 =
      omega (arith, run.kept, none_held) in
    (
      one,
      omega (arith, run.less, all_left),
      one_less (moves (move (all_looping n) kills) ms),
      next _ one,
    )
