-- ===== src/Kv/Server/Replay.antt =====
-- Messages that kvraft/server.go reads once more.
use my_raft.Base.{
  ℤ, eqb_ℤ, if◌then◌else◌, Bool, true, false, ◌||◌, Option, none, some, Option-cases, inl, inr,
  List, [], ◌∷◌, Bytes, ◌≡◌, refl, sym, ap, subst, ◌∙◌, ◌>>=◌,
}
use my_raft.Base.Assoc.{int_key, bytes_key, beq_refl, lookup, eq_bytes}
use my_raft.Kv.Command.{put_op, append_op, get_op}
use mathlib.Core.Bool.{true≢false}
use mathlib.Core.Option.{some-injective, none-ne-some}
use my_raft.Raft.Data.{ApplyMsg, Command, null, object, other}
use my_raft.Kv.Server.{Kv, apply, apply_old, apply_new, execute, apply_msgs}
use my_raft.Kv.Server.Refines.{has_value, has_value-insert}

if-both :
    {A B : Type 0} (f : A → B) (b : Bool) (x y : A) (z : B)
    → f x ≡ z
    → f y ≡ z
    → f (if b then x else y) ≡ z
if-both f true x y z p q = p
if-both f false x y z p q = q

execute-log :
    (kv : Kv) (i : ℤ) (cmd : Bytes) (parsed : Bytes × Bytes)
    → (execute kv i cmd parsed).log ≡ kv.log
unfolding execute
execute-log kv i cmd (op, val) =
    if-both (λ (w : Kv). w.log) (eq_bytes op put_op) _ _ kv.log refl
      (if-both (λ (w : Kv). w.log) (eq_bytes op append_op) _ _ kv.log refl
        (if-both (λ (w : Kv). w.log) (eq_bytes op get_op) _ _ kv.log refl refl))

abbrev IsTaken : Kv → ℤ → Type 0
IsTaken kv i = has_value (lookup i kv.log) ≡ true

-- The index of a message that holds an object is in the log.
abbrev IsApplied : Kv → ApplyMsg → Type 0
IsApplied kv msg = elim msg.command [
  | object cmd context_id ↦ IsTaken kv msg.index
  | null ↦ Unit
  | other text ↦ Unit
]

apply_new-taken :
    (kv : Kv) (i j : ℤ) (cmd context_id : Bytes)
    → has_value (lookup j (apply_new kv i cmd context_id).log)
      ≡ (eqb_ℤ i j || has_value (lookup j kv.log))
unfolding apply_new
apply_new-taken kv i j cmd context_id =
    ap (λ log. has_value (lookup j log)) (execute-log _ i cmd _) ∙ has_value-insert i j cmd kv.log

-- The log of the second server has every index of the first's, and the index of the message.
abbrev Takes : Kv → ApplyMsg → Kv → Type 0
Takes kv msg kv' = ((j : ℤ) → IsTaken kv j → IsTaken kv' j) × IsApplied kv' msg

||-true : (b : Bool) → (b || true) ≡ true
||-true true = refl
||-true false = refl

apply_new-Takes :
    (kv : Kv) (i : ℤ) (cmd context_id : Bytes)
    → ((j : ℤ) → IsTaken kv j → IsTaken (apply_new kv i cmd context_id) j)
      × IsTaken (apply_new kv i cmd context_id) i
apply_new-Takes kv i cmd context_id = (
  λ j t. apply_new-taken kv i j cmd context_id ∙ ap (◌||◌ (eqb_ℤ i j)) t ∙ ||-true (eqb_ℤ i j),
  apply_new-taken kv i i cmd context_id ∙ ap (λ b. b || has_value (lookup i kv.log)) (beq_refl i),
)

module _ (kv kv' : Kv) (i : ℤ) where
  become :
      (c : Command) (w : Kv)
      → Takes kv (record { index = i; command = c }) w
      → some w ≡ some kv'
      → Takes kv (record { index = i; command = c }) kv'
  become c w t e =
      subst (λ (u : Kv). Takes kv (record { index = i; command = c }) u) (some-injective _ _ e) t

  module _ (cmd context_id : Option Bytes) where
    apply-fresh :
        lookup i kv.log ≡ none
        → apply kv (record { index = i; command = object cmd context_id })
          ≡ (do c ← cmd; t ← context_id; some (apply_new kv i c t))
    unfolding apply
    apply-fresh h = rw (apply, h) refl

    apply-again :
        (old : Bytes)
        → lookup i kv.log ≡ some old
        → apply kv (record { index = i; command = object cmd context_id })
          ≡ some (apply_old kv i old)
    unfolding apply
    apply-again old h = rw (apply, h) refl

  fresh-Takes :
      (cmd context_id : Option Bytes)
      → (do c ← cmd; t ← context_id; some (apply_new kv i c t)) ≡ some kv'
      → Takes kv (record { index = i; command = object cmd context_id }) kv'
  fresh-Takes none t e = absurd (none-ne-some _ e)
  fresh-Takes (some c) none e = absurd (none-ne-some _ e)
  fresh-Takes (some c) (some t) e =
      become (object (some c) (some t)) (apply_new kv i c t) (apply_new-Takes kv i c t) e

  apply-Takes :
      (c : Command)
      → apply kv (record { index = i; command = c }) ≡ some kv'
      → Takes kv (record { index = i; command = c }) kv'
  unfolding apply apply_old
  apply-Takes null e = become null _ (λ j t. t, tt) e
  apply-Takes (other text) e = become (other text) _ (λ j t. t, tt) e
  apply-Takes (object cmd context_id) e = elim (Option-cases (lookup i kv.log)) [
    | inr (old, h) ↦
        become (object cmd context_id) (apply_old kv i old) (λ j t. t, ap has_value h)
          (sym (apply-again cmd context_id old h) ∙ e)
    | inl h ↦ fresh-Takes cmd context_id (sym (apply-fresh cmd context_id h) ∙ e)
  ]

-- All messages are in the log of the second server.
abbrev AreApplied : Kv → List ApplyMsg → Type 0
AreApplied kv [] = Unit
AreApplied kv (m ∷ ms) = IsApplied kv m × AreApplied kv ms

IsApplied-grows :
    (kv kv' : Kv) (i : ℤ) (c : Command)
    → ((j : ℤ) → IsTaken kv j → IsTaken kv' j)
    → IsApplied kv (record { index = i; command = c })
    → IsApplied kv' (record { index = i; command = c })
IsApplied-grows kv kv' i null g a = tt
IsApplied-grows kv kv' i (other text) g a = tt
IsApplied-grows kv kv' i (object c t) g a = g i a

apply_msgs-takes :
    (kv kv' : Kv) (ms : List ApplyMsg)
    → apply_msgs kv ms ≡ some kv'
    → ((j : ℤ) → IsTaken kv j → IsTaken kv' j) × AreApplied kv' ms
unfolding apply_msgs
apply_msgs-takes kv kv' [] e = (λ j. subst (λ w. IsTaken w j) (some-injective _ _ e), tt)
apply_msgs-takes kv kv' (m ∷ ms) e = elim (Option-cases (apply kv m)) [
  | inl h ↦ absurd (none-ne-some _ (sym (ap (λ o. o >>= λ w. apply_msgs w ms) h) ∙ e))
  | inr (next, h) ↦
      let (grow, done) = apply-Takes kv next m.index m.command h in
      let (more, all) =
        apply_msgs-takes next kv' ms (sym (ap (λ o. o >>= λ w. apply_msgs w ms) h) ∙ e) in
      (λ j t. more j (grow j t), (IsApplied-grows next kv' m.index m.command more done, all))
]

-- Only the answers and the complaints may differ.
pub record SameData (kv kv' : Kv) : Type 0 where
  pub log : kv'.log ≡ kv.log
  pub db : kv'.db ≡ kv.db
  pub context : kv'.context ≡ kv.context

replay-one :
    (kv : Kv) (i : ℤ) (c : Command)
    → IsApplied kv (record { index = i; command = c })
    → (kv' : Kv) × (apply kv (record { index = i; command = c }) ≡ some kv') × SameData kv kv'
unfolding apply apply_old
replay-one kv i null a = (_, refl, record { log = refl; db = refl; context = refl })
replay-one kv i (other text) a = (_, refl, record { log = refl; db = refl; context = refl })
replay-one kv i (object c t) a = elim (Option-cases (lookup i kv.log)) [
  | inl h ↦ absurd (true≢false (sym a ∙ ap has_value h))
  | inr (old, h) ↦ (
    apply_old kv i old,
    apply-again kv kv i c t old h,
    record { log = refl; db = refl; context = refl },
  )
]

SameData-applied :
    (kv kv' : Kv) (ms : List ApplyMsg) → SameData kv kv' → AreApplied kv ms → AreApplied kv' ms
SameData-applied kv kv' [] s a = tt
SameData-applied kv kv' (m ∷ ms) s (a, all) = (
  IsApplied-grows kv kv' m.index m.command (λ j t. ap (λ log. has_value (lookup j log)) s.log ∙ t)
      a,
  SameData-applied kv kv' ms s all,
)

replay-all :
    (kv : Kv) (ms : List ApplyMsg)
    → AreApplied kv ms
    → (kv' : Kv) × (apply_msgs kv ms ≡ some kv') × SameData kv kv'
unfolding apply_msgs
replay-all kv [] a = (kv, refl, record { log = refl; db = refl; context = refl })
replay-all kv (m ∷ ms) (a, all) =
    let (next, e, s) = replay-one kv m.index m.command a in
    let (last, f, t) = replay-all next ms (SameData-applied kv next ms s all) in
    (
      last,
      ap (λ o. o >>= λ w. apply_msgs w ms) e ∙ f,
      record { log = t.log ∙ s.log; db = t.db ∙ s.db; context = t.context ∙ s.context },
    )

-- Messages, of any text, that a server has applied without a panic can be read once more, all of
-- them: that does not panic either, and the log, the map and the contexts stay as they are.
pub apply_msgs-again :
    (kv kv' : Kv) (ms : List ApplyMsg)
    → apply_msgs kv ms ≡ some kv'
    → (kv'' : Kv) × (apply_msgs kv' ms ≡ some kv'') × SameData kv' kv''
apply_msgs-again kv kv' ms e = replay-all kv' ms (apply_msgs-takes kv kv' ms e).1
