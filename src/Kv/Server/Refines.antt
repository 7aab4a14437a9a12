-- ===== src/Kv/Server/Refines.antt =====
-- The goroutine of kvraft/server.go that applies messages, against a map with a set of the indices
-- that were used.
use my_raft.Base.{
  ℤ, eqb_ℤ, if◌then◌else◌, Bool, true, false, ◌||◌, Option, none, some, List, [], ◌∷◌, ◌++◌, Bytes,
  ◌≡◌, refl, sym, ap, ◌∙◌, Option-cases, inl, inr,
}
use my_raft.Base.Assoc.{bytes_key, int_key, lookup, insert, eq_bytes, lookup-insert}
use my_raft.Raft.Data.{ApplyMsg, object}
use my_raft.Kv.Command.{append_op, put_op, get_cmd, put_append_cmd, parse_cmd}
use my_raft.Kv.Command.RoundTrip.{
  IsPlain, parse_cmd-get_cmd, parse_cmd-put_append_cmd, split_put_append_cmd-plain,
}
use my_raft.Kv.Server.{
  Kv, start_kv_server, apply, apply_old, apply_new, execute, append_value, apply_msgs,
}

-- What a client asks for.
pub data Request : Type 0 where
  put append_to : (key value : Bytes) → Request
  get : (key : Bytes) → Request

-- The text that the client builds of it.
abbrev pub cmd_of : Request → Bytes
cmd_of (put k v) = put_append_cmd put_op k v
cmd_of (append_to k v) = put_append_cmd append_op k v
cmd_of (get k) = get_cmd k

-- Its texts have no byte of a separator.
abbrev pub IsPlainRequest : Request → Type 0
IsPlainRequest (put k v) = IsPlain k × IsPlain v
IsPlainRequest (append_to k v) = IsPlain k × IsPlain v
IsPlainRequest (get k) = IsPlain k

pub record Store : Type 0 where
  pub taken : ℤ → Bool
  pub value : Bytes → Option Bytes

abbrev pub appended : Option Bytes → Bytes → Bytes
appended none v = v
appended (some old) v = old ++ v

abbrev pub effect : Request → (Bytes → Option Bytes) → Bytes → Option Bytes
effect (put k v) f = λ j. if eq_bytes k j then some v else f j
effect (append_to k v) f = λ j. if eq_bytes k j then some (appended (f k) v) else f j
effect (get k) f = f

pub record Delivery : Type 0 where
  pub index : ℤ
  pub context_id : Bytes
  pub request : Request

-- An index that was used changes nothing.
abbrev pub deliver : Store → Delivery → Store
deliver s d =
    if s.taken d.index
    then s
    else record { taken = λ i. eqb_ℤ d.index i || s.taken i; value = effect d.request s.value }

abbrev pub deliver_all : Store → List Delivery → Store
deliver_all s [] = s
deliver_all s (d ∷ ds) = deliver_all (deliver s d) ds

abbrev pub message : Delivery → ApplyMsg
message d = record {
  index = d.index;
  command = object (some (cmd_of d.request)) (some d.context_id);
}

abbrev pub messages : List Delivery → List ApplyMsg
messages [] = []
messages (d ∷ ds) = message d ∷ messages ds

abbrev pub ArePlain : List Delivery → Type 0
ArePlain [] = Unit
ArePlain (d ∷ ds) = IsPlainRequest d.request × ArePlain ds

abbrev pub has_value : {A : Type 0} → Option A → Bool
has_value none = false
has_value (some x) = true

abbrev pub Implements : Kv → Store → Type 0
Implements kv s =
    ((i : ℤ) → has_value (lookup i kv.log) ≡ s.taken i) × ((k : Bytes) → lookup k kv.db ≡ s.value k)

abbrev pub HasEffect : Kv → ℤ → Request → Bytes × Bytes → Type 0
HasEffect kv i r parsed =
    ((j : Bytes) → lookup j (execute kv i (cmd_of r) parsed).db ≡ effect r (λ k. lookup k kv.db) j)
    × ((execute kv i (cmd_of r) parsed).log ≡ kv.log)

lookup-append_value :
    (db : List (Bytes × Bytes)) (k v j : Bytes)
    → lookup j (append_value db k v)
      ≡ (if eq_bytes k j then some (appended (lookup k db) v) else lookup j db)
unfolding append_value
lookup-append_value db k v j = cases (lookup k db)
  where
    cases :
        (o : Option Bytes)
        → lookup j (elim o [ none ↦ insert k v db | some old ↦ insert k (old ++ v) db ])
          ≡ (if eq_bytes k j then some (appended o v) else lookup j db)
    cases none = lookup-insert k j v db
    cases (some old) = lookup-insert k j (old ++ v) db

pub execute-HasEffect :
    (kv : Kv) (i : ℤ) (r : Request) → IsPlainRequest r → HasEffect kv i r (parse_cmd (cmd_of r))
unfolding execute
execute-HasEffect kv i (put k v) (pk, pv) =
    rw
      (
        parse_cmd-put_append_cmd put_op k v (refl, (refl, (refl, tt))) pk pv.0,
        split_put_append_cmd-plain k v pk.1 pv.1,
      )
      (λ j. lookup-insert k j v kv.db, refl)
execute-HasEffect kv i (append_to k v) (pk, pv) =
    rw
      (
        parse_cmd-put_append_cmd append_op k v (refl, (refl, (refl, (refl, (refl, (refl, tt)))))) pk
            pv.0,
        split_put_append_cmd-plain k v pk.1 pv.1,
      )
      (λ j. lookup-append_value kv.db k v j, refl)
execute-HasEffect kv i (get k) pk = rw (parse_cmd-get_cmd k pk.0) (λ j. refl, refl)

abbrev Steps : Kv → Delivery → Store → Type 0
Steps kv d s = (kv' : Kv) × (apply kv (message d) ≡ some kv') × Implements kv' (deliver s d)

effect-cong :
    (r : Request) (f g : Bytes → Option Bytes)
    → ((k : Bytes) → f k ≡ g k)
    → (j : Bytes) → effect r f j ≡ effect r g j
effect-cong (put k v) f g e j = rw (e j) refl
effect-cong (append_to k v) f g e j = rw (e j, e k) refl
effect-cong (get k) f g e j = e j

pub has_value-insert :
    (i j : ℤ) (cmd : Bytes) (log : List (ℤ × Bytes))
    → has_value (lookup j (insert i cmd log)) ≡ (eqb_ℤ i j || has_value (lookup j log))
has_value-insert i j cmd log = rw (lookup-insert i j cmd log) (cases (eqb_ℤ i j))
  where
    cases :
        (b : Bool)
        → has_value (if b then some cmd else lookup j log) ≡ (b || has_value (lookup j log))
    cases true = refl
    cases false = refl

module _ (kv : Kv) (d : Delivery) where
  apply-old :
      (old : Bytes)
      → lookup d.index kv.log ≡ some old
      → apply kv (message d) ≡ some (apply_old kv d.index old)
  unfolding apply
  apply-old old e = rw (apply, e) refl

  pub apply-new :
      lookup d.index kv.log ≡ none
      → apply kv (message d) ≡ some (apply_new kv d.index (cmd_of d.request) d.context_id)
  unfolding apply
  apply-new e = rw (apply, e) refl

module _ (kv : Kv) (d : Delivery) (s : Store) (v : Implements kv s) where
  taken-lem : (o : Option Bytes) → lookup d.index kv.log ≡ o → s.taken d.index ≡ has_value o
  taken-lem o e = sym (v.0 d.index) ∙ ap has_value e

  old-Implements :
      (old : Bytes)
      → lookup d.index kv.log ≡ some old
      → Implements (apply_old kv d.index old) (deliver s d)
  unfolding apply_old
  old-Implements old e = rw (taken-lem (some old) e) v

  new-Implements :
      IsPlainRequest d.request
      → lookup d.index kv.log ≡ none
      → Implements (apply_new kv d.index (cmd_of d.request) d.context_id) (deliver s d)
  unfolding apply_new
  new-Implements p e = rw (taken-lem none e) (
    λ i.
        ap (λ log. has_value (lookup i log)) run.1
        ∙ has_value-insert d.index i (cmd_of d.request) kv.log
        ∙ ap (◌||◌ (eqb_ℤ d.index i)) (v.0 i),
    λ k. run.0 k ∙ effect-cong d.request _ s.value v.1 k,
  )
    where
      run :
          HasEffect
            (record kv {
              log = insert d.index (cmd_of d.request) kv.log;
              context = insert d.context_id d.index kv.context;
            })
            d.index
            d.request
            (parse_cmd (cmd_of d.request))
      run = execute-HasEffect _ d.index d.request p

  apply-Steps : IsPlainRequest d.request → Steps kv d s
  apply-Steps p = elim (Option-cases (lookup d.index kv.log)) [
    | inl e ↦
        (apply_new kv d.index (cmd_of d.request) d.context_id, apply-new kv d e, new-Implements p e)
    | inr (old, e) ↦ (apply_old kv d.index old, apply-old kv d old e, old-Implements old e)
  ]

-- Applying the messages of any requests without separators, old indices among them, to a server
-- that implements a store succeeds, and the server implements the store after these deliveries.
pub apply_msgs-Implements :
    (kv : Kv) (s : Store) (ds : List Delivery)
    → Implements kv s
    → ArePlain ds
    → (kv' : Kv) × (apply_msgs kv (messages ds) ≡ some kv') × Implements kv' (deliver_all s ds)
unfolding apply_msgs
apply_msgs-Implements kv s [] v p = (kv, refl, v)
apply_msgs-Implements kv s (d ∷ ds) v (p, ps) =
    let (next, e, w) = apply-Steps kv d s v p in
    rw e (apply_msgs-Implements next (deliver s d) ds w ps)

pub start_kv_server-Implements :
    Implements start_kv_server (record { taken = λ i. false; value = λ k. none })
unfolding start_kv_server lookup
start_kv_server-Implements = (λ i. refl, λ k. refl)
