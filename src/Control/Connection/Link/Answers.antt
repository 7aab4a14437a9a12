-- ===== src/Control/Connection/Link/Answers.antt =====
-- Each call over a websocket (controller/data/wsconnection.go) returns with the answer to its own
-- arguments, in whatever order the frames are written and read.
use my_raft.Base.{
  ℕ, zero, suc, ◌≤◌, ◌<◌, Bool-cases, false, inl, inr, ◌≡◌, ◌⊎◌, get_elem?-some, refl, sym, subst,
  ap, ◌∙◌, Option, Option-cases, none, some, List, [], ◌∷◌, length, replicate, Bytes, get_elem?,
  arith,
}
use mathlib.Core.Option.{some-injective}
use my_raft.Control.Connection.{connections, next_running, write_and_receive, ws_read, ws_write}
use my_raft.Control.Connection.Link.{
  Call, Link, Event, calls, left_writes, right_writes, left_reads, right_reads, returns, waiter,
  link_step, link_steps,
}
use my_raft.Control.Connection.Link.Flight.{flying, AllFrames}
use my_raft.Control.Connection.Link.Tracks.{
  waits_in, Asks, Tells, AllAnswered, in_slot, one_if, in_flight, Tracks,
}
use my_raft.Control.Connection.Link.Moves.{
  left_writes-Tracks, right_writes-Tracks, right_reads-Tracks, left_reads-Tracks,
}
use my_raft.Control.Connection.Link.Returns.{returns-Tracks, calls-Tracks}

-- A call has an index that no waiting call has.
abbrev pub Fresh : Link → Event → Type 0
Fresh k (calls args value) = waiter k (next_running k.left.running) ≡ none
Fresh k e = Unit

unfoldable pub FreshAfter : Option Link → (Link → Type 0) → Type 0
FreshAfter none P = Unit
FreshAfter (some k) P = P k

-- So are all calls among the events.
abbrev pub AllFresh : (g h : Bytes → Option Bytes) → Link → List Event → Type 0
AllFresh g h k [] = Unit
AllFresh g h k (e ∷ es) = Fresh k e × FreshAfter (link_step g h k e) (λ k'. AllFresh g h k' es)

List-cases {ℓ} : {A : Type ℓ} (l : List A) → (l ≡ []) ⊎ ((x : A) × (xs : List A) × (l ≡ x ∷ xs))
List-cases [] = inl refl
List-cases (x ∷ xs) = inr (x, xs, refl)

waits_in-lt : (ws : List (Option Call)) (i : ℕ) (c : Call) → waits_in ws i ≡ some c → i < length ws
waits_in-lt [] i c e = cc
waits_in-lt (w ∷ ws) zero c e = omega arith
waits_in-lt (w ∷ ws) (suc i) c e = omega (arith, waits_in-lt ws i c e)

module _ (g h : Bytes → Option Bytes) (k : Link) (t : Tracks h k) where
  abbrev Steps : Event → Type 0
  Steps e = (k' : Link) × (link_step g h k e ≡ some k') × Tracks h k'

  left_writes-Steps : Steps left_writes
  unfolding link_step ws_write
  left_writes-Steps = elim (List-cases k.left.write_chnl) [
    | inl e ↦ (k, rw e refl, t)
    | inr (f, fs, e) ↦ (_, rw e refl, left_writes-Tracks h k t f fs e)
  ]

  right_writes-Steps : Steps right_writes
  unfolding link_step ws_write
  right_writes-Steps = elim (List-cases k.right.write_chnl) [
    | inl e ↦ (k, rw e refl, t)
    | inr (f, fs, e) ↦ (_, rw e refl, right_writes-Tracks h k t f fs e)
  ]

  right_reads-Steps : Steps right_reads
  unfolding link_step ws_read
  right_reads-Steps = elim (List-cases k.to_right) [
    | inl e ↦ (k, rw e refl, t)
    | inr (f, fs, e) ↦
        let (_, ask, _, _, _) = (subst (AllFrames (Asks k.waiting)) e t.asking).0 in
        (_, rw (e, ask) refl, right_reads-Tracks h k t f fs e)
  ]

  left_reads-Steps : Steps left_reads
  unfolding link_step ws_read
  left_reads-Steps = elim (List-cases k.to_left) [
    | inl e ↦ (k, rw e refl, t)
    | inr (f, fs, e) ↦
        let (c, tells, at, _) = (subst (AllFrames (Tells h k.waiting)) e t.telling).0 in
        let lt = waits_in-lt k.waiting f.idx c at in
        let (slot, there) =
          get_elem?-some k.left.replies f.idx (omega (arith, lt, t.size, t.channels)) in
        (_, rw (e, tells, there) refl, left_reads-Tracks h k t f fs slot e there)
  ]

  returns-Steps : (i : ℕ) → Steps (returns i)
  unfolding link_step
  returns-Steps i = elim (Option-cases (waiter k i)) [
    | inl e ↦ (k, rw (link_step, e) refl, t)
    | inr (c, e) ↦
        let (slot, there) =
          get_elem?-some k.left.replies i
            (omega (arith, waits_in-lt k.waiting i c e, t.size, t.channels)) in
        elim (List-cases slot) [
          | inl empty ↦ (k, rw (link_step, e, there, empty) refl, t)
          | inr (f, fs, some_reply) ↦ (
            _,
            rw (link_step, e, there, some_reply) refl,
            returns-Tracks h k t i c f fs e (there ∙ ap some some_reply),
          )
        ]
  ]

  calls-Steps :
      (args value : Bytes)
      → waiter k (next_running k.left.running) ≡ none
      → Steps (calls args value)
  unfolding link_step write_and_receive
  calls-Steps args value free = elim (Bool-cases k.left.grpc_mode) [
    | inl on ↦ (_, rw (on, t.still_open) refl, calls-Tracks h k t args value free)
    | inr off ↦ (k, rw off refl, t)
  ]

  link_step-Steps : (e : Event) → Fresh k e → Steps e
  link_step-Steps (calls args value) fresh = calls-Steps args value fresh
  link_step-Steps left_writes fresh = left_writes-Steps
  link_step-Steps right_writes fresh = right_writes-Steps
  link_step-Steps left_reads fresh = left_reads-Steps
  link_step-Steps right_reads fresh = right_reads-Steps
  link_step-Steps (returns i) fresh = returns-Steps i

-- Two ends with no frame on its way and no call that waits.
pub record IsIdle (k : Link) : Type 0 where
  pub waiting : k.waiting ≡ replicate connections none
  pub still_open : k.left.closed ≡ false
  pub unwritten : k.left.write_chnl ≡ []
  pub unanswered : k.right.write_chnl ≡ []
  pub to_right : k.to_right ≡ []
  pub to_left : k.to_left ≡ []
  pub replies : k.left.replies ≡ replicate connections []
  pub finished : k.finished ≡ []

get_elem?-replicate-some {ℓ} :
    {A : Type ℓ} (n i : ℕ) (x y : A) → get_elem? (replicate n x) i ≡ some y → x ≡ y
get_elem?-replicate-some zero i x y e = cc
get_elem?-replicate-some (suc n) zero x y e = some-injective _ _ e
get_elem?-replicate-some (suc n) (suc i) x y e = get_elem?-replicate-some n i x y e

in_slot-replicate : (n i j : ℕ) → in_slot i (get_elem? (replicate n []) j) ≡ 0
in_slot-replicate zero i j = refl
in_slot-replicate (suc n) i zero = refl
in_slot-replicate (suc n) i (suc j) = in_slot-replicate n i j

IsIdle-Tracks : (h : Bytes → Option Bytes) (k : Link) → IsIdle k → Tracks h k
IsIdle-Tracks h k d = record {
  size = ap length d.waiting;
  still_open = d.still_open;
  channels = ap length d.replies;
  asked = rw d.unwritten tt;
  asking = rw d.to_right tt;
  told = rw d.unanswered tt;
  telling = rw d.to_left tt;
  slots = λ i fs g.
      let e : [] ≡ fs =
        get_elem?-replicate-some connections i [] fs
          (ap (λ l. get_elem? l i) (sym d.replies) ∙ g) in
      subst (AllFrames (λ f. Tells h k.waiting f × (f.idx ≡ i))) e tt;
  single = λ i. omega (
    arith,
    ap (flying i) d.unwritten,
    ap (flying i) d.to_right,
    ap (flying i) d.unanswered,
    ap (flying i) d.to_left,
    ap (λ l. in_slot i (get_elem? l i)) d.replies,
    in_slot-replicate connections i i,
  );
  answers = rw d.finished tt;
}

module _ (g h : Bytes → Option Bytes) where
  run-Tracks :
      (es : List Event) (k : Link)
      → Tracks h k
      → AllFresh g h k es
      → (k' : Link) × (link_steps g h k es ≡ some k') × Tracks h k'
  unfolding link_steps FreshAfter
  run-Tracks [] k t fresh = (k, refl, t)
  run-Tracks (e ∷ es) k t (fresh, rest) =
      let (k1, s, t1) = link_step-Steps g h k t e fresh in
      let (k2, s2, t2) = run-Tracks es k1 t1 (rw s at rest) in (k2, rw s s2, t2)

  -- From two ends with nothing on its way and an open connection, the steps of the calls and of the goroutines, in
  -- any order in which each call takes an index that no waiting call has, do not panic, and every call
  -- that has returned has the answer of the right end's handler to its own arguments, or its own value where
  -- these were not decoded; and each call that waits is waited for by one frame or reply at most.
  pub link_steps-AllAnswered :
      (es : List Event) (k : Link)
      → IsIdle k
      → AllFresh g h k es
      → (k' : Link) × (link_steps g h k es ≡ some k')
        × AllAnswered h k'.finished
        × ((i : ℕ) → in_flight k' i ≤ one_if (waiter k' i))
  link_steps-AllAnswered es k idle fresh =
      let (k', e, t) = run-Tracks es k (IsIdle-Tracks h k idle) fresh in
      (k', e, t.answers, t.single)
