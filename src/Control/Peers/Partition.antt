-- ===== src/Control/Peers/Partition.antt =====
-- `StopRaftAPI` and `StartRaftAPI` of controller/raft_controller.go take a server off the network and
-- bring it back.
use my_raft.Base.{
  ℕ, zero, suc, ◌<◌, ◌==◌, if◌then◌else◌, Bool-cases, inl, inr, false, ◌||◌, some, List, [], ◌∷◌,
  map, length, get_elem?, set, get_elem?-set, get_elem?-some, ◌>>=◌, ◌≡◌, refl, sym, ap, ◌∙◌, arith,
}
use mathlib.Core.Option.{some-injective}
use my_raft.Control.Peers.{RClient, RaftController, block, unblock, stop_raft_api, start_raft_api}

get_elem?-map :
    {A B : Type 0} (f : A → B) (xs : List A) (i : ℕ) (x : A)
    → get_elem? xs i ≡ some x
    → get_elem? (map f xs) i ≡ some (f x)
get_elem?-map f [] i x e = cc
get_elem?-map f (y ∷ xs) zero x e = ap (λ z. some (f z)) (some-injective _ _ e)
get_elem?-map f (y ∷ xs) (suc i) x e = get_elem?-map f xs i x e

zero-suc_test : (j : ℕ) → (0 == suc j) ≡ false
zero-suc_test j = ground arith

suc-zero_test : (i : ℕ) → (suc i == 0) ≡ false
suc-zero_test i = ground arith

suc_test : (i j : ℕ) → (suc i == suc j) ≡ (i == j)
suc_test i j = ground arith

get_elem?-set_map :
    (f : RClient → RClient) (xs : List RClient) (i j : ℕ) (c d : RClient)
    → get_elem? xs i ≡ some d
    → get_elem? xs j ≡ some c
    → get_elem? (set xs i (f d)) j ≡ some (if i == j then f c else c)
get_elem?-set_map f [] i j c d e g = cc
get_elem?-set_map f (x ∷ xs) zero zero c d e g =
    ap (λ z. some (f z)) (some-injective _ _ (sym e ∙ g))
get_elem?-set_map f (x ∷ xs) zero (suc j) c d e g = rw (zero-suc_test j) g
get_elem?-set_map f (x ∷ xs) (suc i) zero c d e g = rw (suc-zero_test i) g
get_elem?-set_map f (x ∷ xs) (suc i) (suc j) c d e g =
    rw (suc_test i j) (get_elem?-set_map f xs i j c d e g)

-- The client for server `j` of server `me`, after a stop of server `idx`.
abbrev pub stopped : ℕ → ℕ → ℕ → RClient → RClient
stopped me idx j c = if (idx == me) || (idx == j) then block c else c

-- A stop of a server of the list does not panic, and it blocks exactly the client for that server, or all
-- clients where the stopped server is this one.
pub stop_raft_api-blocks :
    (rc : RaftController) (idx j : ℕ) (c : RClient)
    → idx < length rc.clients
    → get_elem? rc.clients j ≡ some c
    → (stop_raft_api idx rc >>= λ (rc' : RaftController). get_elem? rc'.clients j)
      ≡ some (stopped rc.me idx j c)
unfolding stop_raft_api
stop_raft_api-blocks rc idx j c h e = elim (Bool-cases (idx == rc.me)) [
  | inl b ↦ rw b (get_elem?-map block rc.clients j c e)
  | inr b ↦
      let (d, f) = get_elem?-some rc.clients idx h in
      rw (b, f) (get_elem?-set_map block rc.clients idx j c d f e)
]

abbrev AreUnblocked : List RClient → Type 0
AreUnblocked [] = Unit
AreUnblocked (c ∷ cs) = (c.is_blocked ≡ 0) × AreUnblocked cs

unblock-same : (c : RClient) → c.is_blocked ≡ 0 → unblock (block c) ≡ c
unblock-same c e = ap (λ n. record c { is_blocked = n }) (sym e)

map-unblock : (cs : List RClient) → AreUnblocked cs → map unblock (map block cs) ≡ cs
map-unblock [] u = refl
map-unblock (c ∷ cs) (e, u) = rw (map-unblock cs u) (ap (λ d. d ∷ cs) (unblock-same c e))

set-unblock :
    (cs : List RClient) (i : ℕ) (c : RClient)
    → AreUnblocked cs
    → get_elem? cs i ≡ some c
    → set (set cs i (block c)) i (unblock (block c)) ≡ cs
set-unblock [] i c u e = refl
set-unblock (d ∷ cs) zero c (f, u) e =
    ap (λ x. unblock (block x) ∷ cs) (some-injective _ _ (sym e))
    ∙ ap (λ x. x ∷ cs) (unblock-same d f)
set-unblock (d ∷ cs) (suc i) c (f, u) e = ap (◌∷◌ d) (set-unblock cs i c u e)

AreUnblocked-at :
    (cs : List RClient) (i : ℕ) (c : RClient)
    → AreUnblocked cs
    → get_elem? cs i ≡ some c
    → c.is_blocked ≡ 0
AreUnblocked-at [] i c u e = cc
AreUnblocked-at (d ∷ cs) zero c (f, u) e =
    sym (ap (λ (x : RClient). x.is_blocked) (some-injective _ _ e)) ∙ f
AreUnblocked-at (d ∷ cs) (suc i) c (f, u) e = AreUnblocked-at cs i c u e

-- Where no client is blocked and both this server and the stopped one are in the list, a start after
-- a stop of the same server gives the controller back.
pub start_raft_api-stop_raft_api :
    (rc : RaftController) (idx : ℕ)
    → AreUnblocked rc.clients
    → rc.me < length rc.clients
    → idx < length rc.clients
    → (stop_raft_api idx rc >>= start_raft_api idx) ≡ some rc
unfolding stop_raft_api start_raft_api
start_raft_api-stop_raft_api rc idx u m h = elim (Bool-cases (idx == rc.me)) [
  | inl b ↦ rw (b, b) (ap (λ cs. some (record rc { clients = cs })) (map-unblock rc.clients u))
  | inr b ↦
      let (d, f) = get_elem?-some rc.clients idx h in
      let (c, g) = get_elem?-some rc.clients rc.me m in
      rw
        (
          b,
          f,
          b,
          get_elem?-set_map block rc.clients idx rc.me c d f g,
          b,
          AreUnblocked-at rc.clients rc.me c u g,
          get_elem?-set rc.clients idx (block d) h,
        )
        (ap (λ cs. some (record rc { clients = cs })) (set-unblock rc.clients idx d u f))
]
