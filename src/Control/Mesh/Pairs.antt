-- ===== src/Control/Mesh/Pairs.antt =====
-- Every two Raft controllers are connected after the master's calls (controller/controller.go), so that
-- `StartRaft` finds its connections (controller/raft_controller.go).
use my_raft.Base.{
  ℕ, zero, suc, ◌+◌, ◌-◌, ◌<◌, ◌≤◌, ◌==◌, dec_lt, Bool, Bool-cases, true, inl, inr, some, List, [],
  ◌∷◌, get_elem?, get_elem?-some, get_elem?-lt, length, drop, Bytes, ◌≡◌, ◌≢◌, refl, sym, ap, ◌∙◌,
  subst, arith,
}
use mathlib.Core.Option.{some-injective}
use my_raft.Control.Peers.{
  Details, RClient, RaftController, open_socket, serving, start_clients, start_metrics, start_raft,
}
use my_raft.Control.Registry.{Config, connects, ws_calls}
use my_raft.Control.Mesh.{Fleet, serve_calls}
use my_raft.Control.Mesh.Grows.{Has, AllBelow}
use my_raft.Control.Mesh.Connects.{
  IsFleet, GrowsAll, HasAt, HasAt-grows, GrowsAll-refl, GrowsAll-trans, IsFleet-grows,
  connect_all-Grows,
}

get_elem?-drop : (k i : ℕ) (l : List Details) → get_elem? (drop k l) i ≡ get_elem? l (k + i)
get_elem?-drop zero i l = let e : 0 + i ≡ i = omega arith in rw e refl
get_elem?-drop (suc k) i [] = refl
get_elem?-drop (suc k) i (x ∷ xs) =
    let e : suc k + i ≡ suc (k + i) = omega arith in rw e (get_elem?-drop k i xs)

AllBelow-of :
    (n : ℕ) (ds : List Details)
    → ((i : ℕ) (d : Details) → get_elem? ds i ≡ some d → d.id < n)
    → AllBelow n ds
AllBelow-of n [] h = tt
AllBelow-of n (d ∷ ds) h = (h 0 d refl, AllBelow-of n ds (λ i e f. h (suc i) e f))

-- The details have their positions as ids.
abbrev pub AreNumbered : List Details → Type 0
AreNumbered all = (i : ℕ) (d : Details) → get_elem? all i ≡ some d → d.id ≡ i

module _ (dials : ℕ → ℕ → Bool) (goes : (i j : ℕ) → dials i j ≡ true) (parses : Bytes → Bool)
    (parsed : (s : Bytes) → parses s ≡ true) (all : List Details) (numbered : AreNumbered all) where
  drop-AllBelow : (k : ℕ) → AllBelow (length all) (drop k all)
  drop-AllBelow k = AllBelow-of (length all) (drop k all) (λ i d e.
      let at = sym (get_elem?-drop k i all) ∙ e in
      subst (λ x. x < length all) (sym (numbered (k + i) d at)) (get_elem?-lt all (k + i) d at))

  -- From the server `i` on, whatever was connected before stays so.
  serve_calls-Grows :
      (i : ℕ) (cs : List Config) (fleet : Fleet)
      → i + length cs ≡ length all
      → IsFleet (length all) fleet
      → (fleet' : Fleet) × (serve_calls dials (ws_calls parses all i cs) fleet ≡ some fleet')
        × GrowsAll fleet fleet'
        × ((j k : ℕ) → i ≤ j → j < k → k < length all → HasAt fleet' j k × HasAt fleet' k j)
  unfolding serve_calls ws_calls
  serve_calls-Grows i [] fleet len v =
      (fleet, refl, GrowsAll-refl fleet, λ j k le lt below. absurd (omega arith))
  serve_calls-Grows i (c ∷ cs) fleet len v =
      let (f1, e1, g1, h1) =
        connect_all-Grows (length all) dials goes i (drop (i + 1) all) fleet v (omega arith)
          (drop-AllBelow (i + 1)) in
      let (f2, e2, g2, h2) =
        serve_calls-Grows (i + 1) cs f1 (omega arith) (IsFleet-grows (length all) fleet f1 g1 v) in
      (
        f2,
        rw (parsed c.raft_start_ws_full_path, e1) e2,
        GrowsAll-trans fleet f1 f2 g1 g2,
        λ j k le lt below. elim (dec_lt i j) [
          | yes later ↦ h2 j k (omega arith) lt below
          | no here ↦
              let same : i ≡ j = omega arith in
              let (d, at) = get_elem?-some all k below in
              let x : i + 1 + (k - (i + 1)) ≡ k = omega arith in
              let found = get_elem?-drop (i + 1) (k - (i + 1)) all ∙ ap (get_elem? all) x ∙ at in
              let id = numbered k d at in
              let (a, b) = h1 (k - (i + 1)) d found (subst (λ y. i < y) (sym id) (omega arith)) in
              (
                HasAt-grows f1 f2 j k g2 (subst (λ y. HasAt f1 y k) same (subst (HasAt f1 i) id a)),
                HasAt-grows f1 f2 k j g2 (subst (HasAt f1 k) same (subst (λ y. HasAt f1 y i) id b)),
              )
        ],
      )

-- `StartRaft` where every other client has its connection.
start_clients-starts :
    (me i : ℕ) (cs : List RClient)
    → ((j : ℕ) (c : RClient) → get_elem? cs j ≡ some c → i + j ≢ me → c.ws ≡ open_socket)
    → (cs' : List RClient) × (start_clients me i cs ≡ some cs')
unfolding start_clients
start_clients-starts me i [] h = ([], refl)
start_clients-starts me i (c ∷ cs) h =
    let (cs', e) =
      start_clients-starts me (suc i) cs (λ j d f ne. h (suc j) d f (λ same. ne (omega arith))) in
    elim (Bool-cases (i == me)) [
      | inl own ↦ (c ∷ cs', rw (e, own) refl)
      | inr peer ↦
          let opened = h 0 c refl (λ same. let t : (i == me) ≡ true = ground arith in cc) in
          (record c { ws = serving } ∷ cs', rw (e, peer, opened) refl)
    ]

length-connects : (cs : List Config) → length (connects cs) ≡ length cs
length-connects [] = refl
length-connects (c ∷ cs) = ap suc (length-connects cs)

start_raft-starts :
    (rc : RaftController)
    → rc.me < length rc.clients
    → ((j : ℕ) → rc.me ≢ j → j < length rc.clients → Has rc j)
    → (rc' : RaftController) × (start_raft rc ≡ some rc')
unfolding start_raft
start_raft-starts rc lt h =
    let (cs, e) = start_clients-starts rc.me 0 rc.clients (λ j c f ne.
      let (d, g, opened) = h j (λ same. ne (omega (arith, same))) (get_elem?-lt rc.clients j c f) in
      subst (λ (x : RClient). x.ws ≡ open_socket) (some-injective _ _ (sym g ∙ f)) opened) in
    let (mine, own) = get_elem?-some rc.clients rc.me lt in
    (record rc { clients = cs; metric_ws = start_metrics rc.metric_ws }, rw (e, own) refl)

-- Where the details of the master have their positions as ids, its tables and the Raft controllers have one
-- size, every path is read and every handshake succeeds, after the master's calls for the
-- websockets each Raft controller has an open connection to each other one, and `StartRaft` finds them
-- all.
pub ws_calls-start :
    (details : List Config) (dials : ℕ → ℕ → Bool) (parses : Bytes → Bool) (fleet : Fleet)
    → ((i j : ℕ) → dials i j ≡ true)
    → ((s : Bytes) → parses s ≡ true)
    → AreNumbered (connects details)
    → IsFleet (length details) fleet
    → (fleet' : Fleet) × (serve_calls dials (ws_calls parses (connects details) 0 details) fleet
        ≡ some fleet')
      × ((i j : ℕ) → i ≢ j → i < length details → j < length details → HasAt fleet' i j)
      × ((i : ℕ) (rc : RaftController)
          → get_elem? fleet' i ≡ some rc
          → (rc' : RaftController) × (start_raft rc ≡ some rc'))
ws_calls-start details dials parses fleet goes parsed numbered v =
    let n = length-connects details in
    let (fleet', e, g, h) =
      serve_calls-Grows dials goes parses parsed (connects details) numbered 0 details fleet
        (omega (arith, n)) (subst (λ k. IsFleet k fleet) (sym n) v) in
    let v' = IsFleet-grows (length details) fleet fleet' g v in
    let pairs : (i j : ℕ) → i ≢ j → i < length details → j < length details → HasAt fleet' i j =
      λ i j ne a b. elim (dec_lt i j) [
        | yes lt ↦ (h i j (omega arith) lt (omega (arith, n))).0
        | no ge ↦
            let lt : j < i = omega (arith, ne) in (h j i (omega arith) lt (omega (arith, n))).1
      ] in
    (
      fleet',
      e,
      pairs,
      λ i rc at.
          start_raft-starts rc
            (omega
              (arith, get_elem?-lt fleet' i rc at, v'.size, v'.numbered i rc at, v'.peers i rc at))
            (λ j ne lt.
              let me = v'.numbered i rc at in
              let (rc2, at2, has) =
                pairs i j (λ same. ne (me ∙ same))
                  (omega (arith, get_elem?-lt fleet' i rc at, v'.size))
                  (omega (arith, v'.peers i rc at)) in
              subst (λ x. Has x j) (some-injective _ _ (sym at2 ∙ at)) has),
    )
