-- ===== src/Control/Mesh/Connects.antt =====
-- The Raft controllers while one of them dials its peers (controller/raft_controller.go).
use my_raft.Base.{
  ℕ, zero, suc, ◌<◌, ltb, Bool, Bool-cases, true, inl, inr, some, List, [], ◌∷◌, get_elem?,
  get_elem?-some, get_elem?-lt, get_elem?-set, get_elem?-set_other, ◌&&◌, length, length-set, set,
  ◌≡◌, refl, sym, ap, ◌∙◌, subst, arith, if◌then◌else◌, ℕ_discrete,
}
use mathlib.Core.Option.{some-injective}
use my_raft.Control.Peers.{Details, RaftController, ws_init_peer_conn}
use my_raft.Control.Mesh.{Fleet, accept, accept_all, connect_all}
use my_raft.Control.Mesh.Grows.{
  Has, Grows, Grows-refl, Grows-trans, connect-Grows, AllBelow, start_websocket-Grows,
}

-- A fleet of n servers.
pub record IsFleet (n : ℕ) (fleet : Fleet) : Type 0 where
  pub size : length fleet ≡ n
  pub numbered : (i : ℕ) (rc : RaftController) → get_elem? fleet i ≡ some rc → rc.me ≡ i
  pub peers : (i : ℕ) (rc : RaftController) → get_elem? fleet i ≡ some rc → length rc.clients ≡ n

pub record GrowsAll (fleet fleet' : Fleet) : Type 0 where
  pub all_same : length fleet' ≡ length fleet
  pub at :
      (i : ℕ) (rc : RaftController)
      → get_elem? fleet i ≡ some rc
      → (rc' : RaftController) × (get_elem? fleet' i ≡ some rc') × Grows rc rc'

abbrev pub HasAt : Fleet → ℕ → ℕ → Type 0
HasAt fleet i j = (rc : RaftController) × (get_elem? fleet i ≡ some rc) × Has rc j

pub HasAt-grows :
    (fleet fleet' : Fleet) (i j : ℕ) → GrowsAll fleet fleet' → HasAt fleet i j → HasAt fleet' i j
HasAt-grows fleet fleet' i j g (rc, e, h) = let (rc', e', k) = g.at i rc e in (rc', e', k.keeps j h)

pub GrowsAll-refl : (fleet : Fleet) → GrowsAll fleet fleet
GrowsAll-refl fleet = record { all_same = refl; at = λ i rc e. (rc, e, Grows-refl rc) }

pub GrowsAll-trans : (a b c : Fleet) → GrowsAll a b → GrowsAll b c → GrowsAll a c
GrowsAll-trans a b c g h = record {
  all_same = h.all_same ∙ g.all_same;
  at = λ i rc e.
      let (rc', e', k) = g.at i rc e in
      let (rc'', e'', k') = h.at i rc' e' in (rc'', e'', Grows-trans rc rc' rc'' k k');
}

-- One server that grows.
GrowsAll-set :
    (fleet : Fleet) (i : ℕ) (rc rc' : RaftController)
    → get_elem? fleet i ≡ some rc
    → Grows rc rc'
    → GrowsAll fleet (set fleet i rc')
GrowsAll-set fleet i rc rc' e g = record {
  all_same = length-set fleet i rc';
  at = λ j s f. elim (ℕ_discrete i j) [
    | yes same ↦
        let both : some rc ≡ some s = sym e ∙ ap (get_elem? fleet) same ∙ f in
        (
          rc',
          ap (get_elem? (set fleet i rc')) (sym same)
              ∙ get_elem?-set fleet i rc' (get_elem?-lt fleet i rc e),
          subst (λ x. Grows x rc') (some-injective _ _ both) g,
        )
    | no other ↦ (s, get_elem?-set_other fleet i j rc' other ∙ f, Grows-refl s)
  ];
}

-- What stands in the fleet afterwards has grown from what stood there.
grown_from :
    (fleet fleet' : Fleet) (i : ℕ) (s : RaftController)
    → GrowsAll fleet fleet'
    → get_elem? fleet' i ≡ some s
    → (rc : RaftController) × (get_elem? fleet i ≡ some rc) × Grows rc s
grown_from fleet fleet' i s g f =
    let (rc, e) = get_elem?-some fleet i (omega (arith, get_elem?-lt fleet' i s f, g.all_same)) in
    let (rc', e', k) = g.at i rc e in (rc, e, subst (Grows rc) (some-injective _ _ (sym e' ∙ f)) k)

pub IsFleet-grows :
    (n : ℕ) (fleet fleet' : Fleet) → GrowsAll fleet fleet' → IsFleet n fleet → IsFleet n fleet'
IsFleet-grows n fleet fleet' g v = record {
  size = g.all_same ∙ v.size;
  numbered =
      λ i s f. let (rc, e, k) = grown_from fleet fleet' i s g f in k.same_me ∙ v.numbered i rc e;
  peers =
      λ i s f. let (rc, e, k) = grown_from fleet fleet' i s g f in k.same_length ∙ v.peers i rc e;
}

module _ (n : ℕ) (dials : ℕ → ℕ → Bool) (all : (i j : ℕ) → dials i j ≡ true) where
  accept-Grows :
      (me i : ℕ) (fleet : Fleet)
      → IsFleet n fleet
      → me < n
      → i < n
      → (fleet' : Fleet) × (accept me i fleet ≡ some fleet')
        × GrowsAll fleet fleet'
        × HasAt fleet' i me
  unfolding ws_init_peer_conn
  accept-Grows me i fleet v lt_me lt =
      let (rc, e) = get_elem?-some fleet i (omega (arith, v.size)) in
      let (rc', f, g, h) = connect-Grows me rc (omega (arith, v.peers i rc e)) in
      (
        set fleet i rc',
        rw (e, f) refl,
        GrowsAll-set fleet i rc rc' e g,
        (rc', get_elem?-set fleet i rc' (omega (arith, v.size)), h),
      )

  accept_one :
      (me : ℕ) (d : Details) (fleet : Fleet)
      → IsFleet n fleet
      → me < n
      → d.id < n
      → (fleet' : Fleet) × ((if ltb me d.id && dials me d.id
            then accept me d.id fleet
            else some fleet)
          ≡ some fleet')
        × GrowsAll fleet fleet'
        × (me < d.id → HasAt fleet' d.id me)
  accept_one me d fleet v lt_me lt = elim (Bool-cases (ltb me d.id)) [
    | inl higher ↦
        let (fleet', e, g, h) = accept-Grows me d.id fleet v lt_me lt in
        (fleet', rw (higher, all me d.id) e, g, λ _. h)
    | inr lower ↦ (fleet, rw lower refl, GrowsAll-refl fleet, λ higher. absurd (ground arith))
  ]

  accept_all-Grows :
      (me : ℕ) (ds : List Details) (fleet : Fleet)
      → IsFleet n fleet
      → me < n
      → AllBelow n ds
      → (fleet' : Fleet) × (accept_all dials me ds fleet ≡ some fleet')
        × GrowsAll fleet fleet'
        × ((x : ℕ) (d : Details) → get_elem? ds x ≡ some d → me < d.id → HasAt fleet' d.id me)
  unfolding accept_all
  accept_all-Grows me [] fleet v lt below = (fleet, refl, GrowsAll-refl fleet, λ x d e. cc)
  accept_all-Grows me (d ∷ ds) fleet v lt below =
      let (f1, e1, g1, h1) = accept_one me d fleet v lt below.0 in
      let (f2, e2, g2, h2) = accept_all-Grows me ds f1 (IsFleet-grows n fleet f1 g1 v) lt below.1 in
      (
        f2,
        rw e1 e2,
        GrowsAll-trans fleet f1 f2 g1 g2,
        λ x w at higher.
            elim x as (λ k. get_elem? (d ∷ ds) k ≡ some w → HasAt f2 w.id me) [
              | zero ↦ λ here.
                  let same : d ≡ w = some-injective _ _ here in
                  HasAt-grows f1 f2 w.id me g2 (
                    subst (λ (y : Details). HasAt f1 y.id me) same
                      (h1 (subst (λ (y : Details). me < y.id) (sym same) higher)))
              | suc k ↦ λ there. h2 k w there higher
            ]
              at,
      )

  -- Both ends of every connection that a server dials.
  pub connect_all-Grows :
      (me : ℕ) (ds : List Details) (fleet : Fleet)
      → IsFleet n fleet
      → me < n
      → AllBelow n ds
      → (fleet' : Fleet) × (connect_all dials me ds fleet ≡ some fleet')
        × GrowsAll fleet fleet'
        × ((x : ℕ) (d : Details)
            → get_elem? ds x ≡ some d
            → me < d.id
            → HasAt fleet' me d.id × HasAt fleet' d.id me)
  unfolding connect_all
  connect_all-Grows me ds fleet v lt below =
      let (rc, e) = get_elem?-some fleet me (omega (arith, v.size)) in
      let (rc', f, g, h) =
        start_websocket-Grows (λ d. dials me d.id) ds rc (λ d. all me d.id)
          (subst (λ k. AllBelow k ds) (sym (v.peers me rc e)) below) in
      let dialled = GrowsAll-set fleet me rc rc' e g in
      let (fleet', k, g', h') =
        accept_all-Grows me ds (set fleet me rc')
          (IsFleet-grows n fleet (set fleet me rc') dialled v) lt below in
      let here = get_elem?-set fleet me rc' (omega (arith, v.size)) in
      (
        fleet',
        rw (e, f) k,
        GrowsAll-trans fleet (set fleet me rc') fleet' dialled g',
        λ x d at higher. (
          HasAt-grows (set fleet me rc') fleet' me d.id g'
              (rc', here, h x d at (subst (λ j. j < d.id) (sym (v.numbered me rc e)) higher)),
          h' x d at higher,
        ),
      )
