-- ===== src/Control/Services/Resolves.antt =====
-- A name that `MakeService` lists (controller/service/service.go) leads `APIFunction` back to a method
-- with the signature of a handler.
use my_raft.Base.{
  ℕ, zero, suc, true, Bool-cases, inl, inr, ◌⊎◌, none, some, List, [], ◌∷◌, ◌++◌, length, replicate,
  get_elem?, Bytes, subst, ◌≡◌, ◌≢◌, refl, sym, ap, ◌∙◌,
}
use mathlib.Core.Option.{some-injective}
use my_raft.Base.Split.{split, Avoids, split-append, split-one}
use my_raft.Base.Assoc.{
  bytes_key, eq_bytes, eq_bytes_iff, lookup, insert, lookup-insert, lookup-insert_self,
}
use my_raft.Control.Services.{
  Method, value, Fields, Service, is_handler, full_name, collect, service_of, some_methods,
  add_value, visit, visit_depths, make_service, api_function,
}

abbrev dot : ℕ
dot = b'.'

abbrev pub NamesAvoid : List Method → Type 0
NamesAvoid [] = Unit
NamesAvoid (m ∷ ms) = Avoids dot m.name × NamesAvoid ms

-- The text is empty, or it is the full name of a handler of the table.
Entry : Bytes → List (Bytes × Method) → Bytes → Type 0
Entry typ methods full =
    (full ≡ [])
    ⊎ ((m : Method) × (full ≡ full_name typ m.name)
        × Avoids dot m.name
        × (lookup m.name methods ≡ some m)
        × (is_handler m ≡ true))

abbrev Listed : Bytes → List (Bytes × Method) → List Bytes → Type 0
Listed typ methods [] = Unit
Listed typ methods (f ∷ fs) = Entry typ methods f × Listed typ methods fs

-- A method that is put into the table leaves what is listed.
Entry-insert :
    (typ : Bytes) (m : Method) (methods : List (Bytes × Method)) (full : Bytes)
    → Avoids dot m.name
    → is_handler m ≡ true
    → Entry typ methods full
    → Entry typ (insert m.name m methods) full
unfolding Entry
Entry-insert typ m methods full v h (inl e) = inl e
Entry-insert typ m methods full v h (inr (d, e, w, found, h')) =
    elim (Bool-cases (eq_bytes m.name d.name)) [
      | inl same ↦
          let n : m.name ≡ d.name = (eq_bytes_iff m.name d.name).0 same in
          inr (m, e ∙ ap (full_name typ) (sym n), v, lookup-insert_self m.name m methods, h)
      | inr other ↦ inr (d, e, w, lookup-insert m.name d.name m methods ∙ rw other found, h')
    ]

Listed-insert :
    (typ : Bytes) (m : Method) (methods : List (Bytes × Method)) (names : List Bytes)
    → Avoids dot m.name
    → is_handler m ≡ true
    → Listed typ methods names
    → Listed typ (insert m.name m methods) (names ++ full_name typ m.name ∷ [])
unfolding Entry
Listed-insert typ m methods [] v h tt =
    (inr (m, refl, v, lookup-insert_self m.name m methods, h), tt)
Listed-insert typ m methods (f ∷ fs) v h (e, l) =
    (Entry-insert typ m methods f v h e, Listed-insert typ m methods fs v h l)

Listed-replicate : (typ : Bytes) (n : ℕ) → Listed typ [] (replicate n [])
unfolding Entry
Listed-replicate typ zero = tt
Listed-replicate typ (suc n) = (inl refl, Listed-replicate typ n)

collect-Listed :
    (typ : Bytes) (ms : List Method) (s : Service)
    → NamesAvoid ms
    → Listed typ s.methods s.svc_method_name
    → Listed typ (collect typ ms s).methods (collect typ ms s).svc_method_name
unfolding collect
collect-Listed typ [] s v l = l
collect-Listed typ (m ∷ ms) s v l = elim (Bool-cases (is_handler m)) [
  | inl h ↦ rw h (
      collect-Listed typ ms
        (record s {
          methods = insert m.name m s.methods;
          svc_method_name = s.svc_method_name ++ full_name typ m.name ∷ [];
        })
        v.1 (Listed-insert typ m s.methods s.svc_method_name v.0 h l))
  | inr h ↦ rw h (collect-Listed typ ms s v.1 l)
]

Listed-get_elem? :
    (typ : Bytes) (methods : List (Bytes × Method)) (names : List Bytes) (i : ℕ) (full : Bytes)
    → Listed typ methods names
    → get_elem? names i ≡ some full
    → Entry typ methods full
unfolding Entry
Listed-get_elem? typ methods [] i full l e = cc
Listed-get_elem? typ methods (f ∷ fs) zero full (h, l) e =
    subst (Entry typ methods) (some-injective _ _ e) h
Listed-get_elem? typ methods (f ∷ fs) (suc i) full (h, l) e =
    Listed-get_elem? typ methods fs i full l e

-- The service of a struct at the root, if there is one.
make_service-root :
    (typ : Bytes) (ms : List Method) (fs : Fields) (s : Service) (svces : List (Bytes × Service))
    → make_service (value typ true ms fs) 0 ≡ some svces
    → lookup typ svces ≡ some s
    → s ≡ service_of typ ms
unfolding make_service visit_depths visit add_value lookup
make_service-root typ ms fs s svces made found =
    elim (Bool-cases (some_methods (service_of typ ms))) [
      | inl b ↦
          let l : svces ≡ insert typ (service_of typ ms) [] =
            some-injective _ _ (sym made ∙ rw b refl) in
          some-injective _ _
            (sym found ∙ ap (lookup typ) l ∙ lookup-insert_self typ (service_of typ ms) [])
      | inr b ↦
          let l : svces ≡ [] = some-injective _ _ (sym made ∙ rw b refl) in
          absurd (let e : none ≡ some s = sym (ap (lookup typ) l) ∙ found in cc)
    ]

api_function-full_name :
    (typ name : Bytes) (svces : List (Bytes × Service)) (s : Service) (m : Method)
    → Avoids dot typ
    → Avoids dot name
    → lookup typ svces ≡ some s
    → lookup name s.methods ≡ some m
    → api_function (full_name typ name) svces ≡ some (s, m)
unfolding api_function
api_function-full_name typ name svces s m v w at_s at_m =
    let parts : split (full_name typ name) (dot ∷ []) ≡ typ ∷ name ∷ [] =
      split-append dot [] typ name v ∙ ap (◌∷◌ typ) (split-one dot [] name w) in
    rw (parts, at_s, at_m) refl

-- Of a struct whose type and methods have names without dots, every name in the service's list that is
-- not empty is the type's name and a method's, and it leads back to the service and a method of that
-- name that has the signature of a handler.
pub make_service-resolves :
    (typ : Bytes) (ms : List Method) (fs : Fields) (s : Service) (svces : List (Bytes × Service))
    (i : ℕ) (full : Bytes)
    → Avoids dot typ
    → NamesAvoid ms
    → make_service (value typ true ms fs) 0 ≡ some svces
    → lookup typ svces ≡ some s
    → get_elem? s.svc_method_name i ≡ some full
    → full ≢ []
    → (m : Method) × (full ≡ full_name typ m.name)
      × (api_function full svces ≡ some (s, m))
      × (is_handler m ≡ true)
unfolding Entry
make_service-resolves typ ms fs s svces i full v w made found at_i some_name =
    let e = make_service-root typ ms fs s svces made found in
    let listed : Listed typ s.methods s.svc_method_name =
      subst (λ (x : Service). Listed typ x.methods x.svc_method_name) (sym e)
        (collect-Listed typ ms _ w (Listed-replicate typ (length ms))) in
    elim (Listed-get_elem? typ s.methods s.svc_method_name i full listed at_i) [
      | inl empty ↦ absurd (some_name empty)
      | inr (m, n, u, at_m, h) ↦
          (m, n, rw n (api_function-full_name typ m.name svces s m v u found at_m), h)
    ]
