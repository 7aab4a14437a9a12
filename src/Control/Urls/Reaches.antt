-- ===== src/Control/Urls/Reaches.antt =====
-- The calls between the controllers of controller/ reach the handlers that they are meant for.
use my_raft.Base.{
  ℕ, Bool, true, false, ◌&&◌, Bool-cases, inl, inr, Option, none, some, List, [], ◌∷◌, Bytes, ◌≡◌,
  refl, sym, ap, ◌∙◌, if◌then◌else◌, subst, ◌⊎◌,
}
use mathlib.Core.Option.{some-injective}
use my_raft.Base.Assoc.{bytes_key, eq_bytes, eq_bytes_iff, lookup, insert, lookup-insert}
use my_raft.Control.Services.{make_service, collect, add_value, visit, visit_depths}
use my_raft.Control.Urls.{
  codes, full_addr, Url, http, Bound, bind_all, rehost, Verb, get, post, slashed, serve, dispatch,
  Route,
}
use my_raft.Control.Urls.Tables.{
  raft_table, raft_bound, raft_routes, raft_init_routes, kv_apply_bound,
}
use my_raft.Control.Peers.{Details}

-- The URL of a request leads to a handler.
abbrev pub Reaches : Verb → Url → List Route → Bytes → Type 0
Reaches verb u routes name = dispatch verb (slashed u.path) routes ≡ some name

-- What a peer serves a bound method with.
abbrev pub raft_handler : Bytes → Bytes
raft_handler name =
    if eq_bytes name (codes "Raft.WSHeartBeat") then codes "API_WSInitPeerConn" else name

-- Heartbeats are the only calls over a websocket, whose handshake is a GET.
abbrev pub raft_verb : Bytes → Verb
raft_verb name = if eq_bytes name (codes "Raft.WSHeartBeat") then get else post

is_some_name : Option Bytes → Bytes → Bool
is_some_name none name = false
is_some_name (some n) name = eq_bytes n name

is_some_name-eq : (o : Option Bytes) (name : Bytes) → is_some_name o name ≡ true → o ≡ some name
unfolding is_some_name
is_some_name-eq none name h = cc
is_some_name-eq (some n) name h = ap some ((eq_bytes_iff n name).0 h)

is_none : Option Bytes → Bool
is_none none = true
is_none (some n) = false

is_none-eq : (o : Option Bytes) → is_none o ≡ true → o ≡ none
unfolding is_none
is_none-eq none h = refl
is_none-eq (some n) h = cc

-- The test for each pair of a table.
all_pairs : (Bytes → Bytes → Bool) → List (Bytes × Bytes) → Bool
all_pairs f [] = true
all_pairs f ((name, path) ∷ ps) = f name path && all_pairs f ps

Passes : (Bytes → Bytes → Bool) → Bound → Type 0
Passes f m = (name : Bytes) (u : Url) → lookup name m ≡ some u → f name u.path ≡ true

Passes-bind_all :
    (f : Bytes → Bytes → Bool) (ps : List (Bytes × Bytes)) (host : Bytes) (m : Bound)
    → all_pairs f ps ≡ true
    → Passes f m
    → Passes f (bind_all host ps m)
unfolding all_pairs bind_all Passes
Passes-bind_all f [] host m h v = v
Passes-bind_all f ((name, path) ∷ ps) host m h v =
    let (first, rest) = both (f name path) (all_pairs f ps) h in
    Passes-bind_all f ps host (insert name (http host path) m) rest (λ j u e.
      elim (Bool-cases (eq_bytes name j)) [
        | inl same ↦
            let at : some (http host path) ≡ some u =
              sym (lookup-insert name j (http host path) m ∙ rw same refl) ∙ e in
            let to : name ≡ j = (eq_bytes_iff name j).0 same in
            ap (λ (x : Bytes × Url). f x.0 x.1.path)
              (λ i. (sym to i, some-injective _ _ (sym at) i))
            ∙ first
        | inr differs ↦ v j u (sym (lookup-insert name j (http host path) m ∙ rw differs refl) ∙ e)
      ])
  where
    both : (a b : Bool) → (a && b) ≡ true → (a ≡ true) × (b ≡ true)
    both true b h = (refl, h)
    both false b h = cc

-- The clients of a controller have its paths, and the host of the peer.
lookup-rehost :
    (host name : Bytes) (m : Bound) (u : Url)
    → lookup name (rehost host m) ≡ some u
    → (v : Url) × (lookup name m ≡ some v) × (u ≡ record v { host = host })
unfolding lookup rehost
lookup-rehost host name [] u e = cc
lookup-rehost host name ((j, v) ∷ m) u e = elim (Bool-cases (eq_bytes j name)) [
  | inl same ↦ (v, rw same refl, some-injective _ _ (sym e ∙ rw same refl))
  | inr differs ↦
      let (w, f, g) = lookup-rehost host name m u (sym (rw differs refl) ∙ e) in
      (w, rw differs f, g)
]

-- The test for a bound name and its path at a peer with these routes.
is_served : List Route → Bytes → Bytes → Bool
unfolding is_some_name dispatch
is_served routes name path =
    let to = dispatch (raft_verb name) (slashed path) routes in
    if eq_bytes name (codes "RaftKV.Apply") then is_none to else is_some_name to (raft_handler name)

is_served-lem :
    (routes : List Route) (name path : Bytes)
    → is_served routes name path ≡ true
    → (dispatch (raft_verb name) (slashed path) routes ≡ some (raft_handler name))
      ⊎ ((name ≡ codes "RaftKV.Apply") × (dispatch post (slashed path) routes ≡ none))
unfolding is_served
is_served-lem routes name path h = elim (Bool-cases (eq_bytes name (codes "RaftKV.Apply"))) [
  | inl same ↦
      let e = (eq_bytes_iff name (codes "RaftKV.Apply")).0 same in
      let off : is_none (dispatch (raft_verb name) (slashed path) routes) ≡ true =
        rw (is_served, same) at h in
      inr (e, subst (λ x. dispatch (raft_verb x) (slashed path) routes ≡ none) e (is_none-eq _ off))
  | inr differs ↦
      let on : is_some_name (dispatch (raft_verb name) (slashed path) routes) (raft_handler name)
          ≡ true =
        rw (is_served, differs) at h in
      inl (is_some_name-eq _ _ on)
]

module _ (addr : Bytes) (port : ℕ) where
  raft_all : all_pairs (is_served (raft_routes (raft_bound addr port))) raft_table ≡ true
  unfolding is_served is_none all_pairs is_some_name dispatch raft_init_routes raft_routes
      raft_bound make_service collect add_value visit visit_depths serve bind_all lookup insert
  raft_all = refl

  apply_unserved :
      is_served
        (raft_routes (raft_bound addr port))
        (codes "RaftKV.Apply")
        (codes "api/kvraft/v1/apply")
      ≡ true
  unfolding is_served is_none all_pairs is_some_name dispatch raft_init_routes raft_routes
      raft_bound make_service collect add_value visit visit_depths serve bind_all lookup insert
  apply_unserved = refl

  -- The methods that a Raft controller has bound when the master names its peers are those that it was made
  -- with, and `RaftKV.Apply` of its key-value server. Such a method, called on a peer's client, has a URL with
  -- the host of the peer. Its path leads, at a Raft controller that has started its server, to the method
  -- of that name by a POST, the heartbeats' websocket to `API_WSInitPeerConn` by a GET; only
  -- `RaftKV.Apply`, which is called on the server's own client, has no handler at a peer.
  pub raft_call-Reaches :
      (addr' : Bytes) (port' : ℕ) (kv : Details) (host name : Bytes) (u : Url)
      → lookup name (rehost host (kv_apply_bound kv (raft_bound addr' port'))) ≡ some u
      → (u.host ≡ host)
        × (Reaches (raft_verb name) u (raft_routes (raft_bound addr port)) (raft_handler name)
            ⊎ ((name ≡ codes "RaftKV.Apply")
                × (dispatch post (slashed u.path) (raft_routes (raft_bound addr port)) ≡ none)))
  unfolding Passes raft_bound lookup kv_apply_bound bind_all all_pairs
  raft_call-Reaches addr' port' kv host name u e =
      let routes = raft_routes (raft_bound addr port) in
      let (v, f, g) = lookup-rehost host name (kv_apply_bound kv (raft_bound addr' port')) u e in
      let made =
        Passes-bind_all (is_served routes) raft_table (full_addr addr' port') [] raft_all
          (λ j w h. cc) in
      let all =
        Passes-bind_all (is_served routes)
          ((codes "RaftKV.Apply", codes "api/kvraft/v1/apply") ∷ []) (full_addr kv.addr kv.port)
          (raft_bound addr' port') (rw apply_unserved refl) made in
      (
        ap (λ (x : Url). x.host) g,
        subst
            (λ (x : Url).
              Reaches (raft_verb name) x routes (raft_handler name)
              ⊎ ((name ≡ codes "RaftKV.Apply") × (dispatch post (slashed x.path) routes ≡ none)))
            (sym g) (is_served-lem routes name v.path (all name v f)),
      )
