-- ===== src/Control/Mesh/Grows.antt =====
-- A Raft controller while its websockets are opened (controller/raft_controller.go).
use my_raft.Base.{
  ℕ, zero, suc, ◌<◌, ltb, Bool, Bool-cases, true, inl, inr, some, List, [], ◌∷◌, get_elem?,
  get_elem?-some, get_elem?-set, get_elem?-set_other, ◌&&◌, length, length-set, set, ◌≡◌, refl, sym,
  ap, ◌∙◌, subst, arith, if◌then◌else◌, ℕ_discrete,
}
use mathlib.Core.Option.{some-injective}
use my_raft.Control.Peers.{Details, RClient, RaftController, open_socket, connect, start_websocket}

-- The client for `j` has an open websocket.
abbrev pub Has : RaftController → ℕ → Type 0
Has rc j = (c : RClient) × (get_elem? rc.clients j ≡ some c) × (c.ws ≡ open_socket)

pub record Grows (rc rc' : RaftController) : Type 0 where
  pub same_me : rc'.me ≡ rc.me
  pub same_length : length rc'.clients ≡ length rc.clients
  pub keeps : (j : ℕ) → Has rc j → Has rc' j

pub Grows-refl : (rc : RaftController) → Grows rc rc
Grows-refl rc = record { same_me = refl; same_length = refl; keeps = λ j h. h }

pub Grows-trans : (a b c : RaftController) → Grows a b → Grows b c → Grows a c
Grows-trans a b c g h = record {
  same_me = h.same_me ∙ g.same_me;
  same_length = h.same_length ∙ g.same_length;
  keeps = λ j x. h.keeps j (g.keeps j x);
}

pub connect-Grows :
    (i : ℕ) (rc : RaftController)
    → i < length rc.clients
    → (rc' : RaftController) × (connect i rc ≡ some rc') × Grows rc rc' × Has rc' i
connect-Grows i rc lt =
    let (c, e) = get_elem?-some rc.clients i lt in
    let opened : RClient = record c { ws = open_socket } in
    let here = get_elem?-set rc.clients i opened lt in
    (
      record rc { clients = set rc.clients i opened },
      rw e refl,
      record {
        same_me = refl;
        same_length = length-set rc.clients i opened;
        keeps = λ j h. elim (ℕ_discrete i j) [
          | yes same ↦ (opened, ap (get_elem? (set rc.clients i opened)) (sym same) ∙ here, refl)
          | no other ↦ (h.0, get_elem?-set_other rc.clients i j opened other ∙ h.1, h.2)
        ];
      },
      (opened, here, refl),
    )

abbrev pub AllBelow : ℕ → List Details → Type 0
AllBelow n [] = Unit
AllBelow n (d ∷ ds) = (d.id < n) × AllBelow n ds

dial-Grows :
    (dial : Details → Bool) (d : Details) (rc : RaftController)
    → dial d ≡ true
    → d.id < length rc.clients
    → (rc' : RaftController) × ((if ltb rc.me d.id && dial d then connect d.id rc else some rc)
        ≡ some rc')
      × Grows rc rc'
      × (rc.me < d.id → Has rc' d.id)
dial-Grows dial d rc goes lt = elim (Bool-cases (ltb rc.me d.id)) [
  | inl higher ↦
      let (rc', e, g, h) = connect-Grows d.id rc lt in (rc', rw (higher, goes) e, g, λ _. h)
  | inr lower ↦ (rc, rw lower refl, Grows-refl rc, λ higher. absurd (ground arith))
]

pub start_websocket-Grows :
    (dial : Details → Bool) (ds : List Details) (rc : RaftController)
    → ((d : Details) → dial d ≡ true)
    → AllBelow (length rc.clients) ds
    → (rc' : RaftController) × (start_websocket dial ds rc ≡ some rc')
      × Grows rc rc'
      × ((x : ℕ) (d : Details) → get_elem? ds x ≡ some d → rc.me < d.id → Has rc' d.id)
unfolding start_websocket
start_websocket-Grows dial [] rc all below = (rc, refl, Grows-refl rc, λ x d e. cc)
start_websocket-Grows dial (d ∷ ds) rc all below =
    let (rc1, e1, g1, h1) = dial-Grows dial d rc (all d) below.0 in
    let rest = subst (λ n. AllBelow n ds) (sym g1.same_length) below.1 in
    let (rc2, e2, g2, h2) = start_websocket-Grows dial ds rc1 all rest in
    (
      rc2,
      rw e1 e2,
      Grows-trans rc rc1 rc2 g1 g2,
      λ x v at higher.
          elim x as (λ k. get_elem? (d ∷ ds) k ≡ some v → Has rc2 v.id) [
            | zero ↦ λ here.
                let same : d ≡ v = some-injective _ _ here in
                g2.keeps v.id (
                  subst (Has rc1) (ap (λ (y : Details). y.id) same)
                    (h1 (subst (λ (y : Details). rc.me < y.id) (sym same) higher)))
            | suc k ↦ λ there. h2 k v there (subst (λ n. n < v.id) (sym g1.same_me) higher)
          ]
            at,
    )
