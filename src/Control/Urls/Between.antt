-- ===== src/Control/Urls/Between.antt =====
-- The calls of controller/ between processes of different kinds: clients and key-value servers,
-- key-value servers and Raft servers, the master and all of them.
use my_raft.Base.{ℕ, zero, suc, some, List, [], ◌∷◌, get_elem?, Bytes, ◌≡◌, refl, ap}
use mathlib.Core.Option.{some-injective}
use my_raft.Base.Assoc.{bytes_key, lookup, insert, lookup-insert_self}
use my_raft.Control.Peers.{Details}
use my_raft.Control.Services.{make_service, collect, add_value, visit, visit_depths}
use my_raft.Control.Urls.{
  codes, full_addr, Url, http, Bound, bind_all, rehost, post, serve, dispatch, Route,
}
use my_raft.Control.Urls.Tables.{
  raft_bound, raft_init_routes, raft_routes, kv_bound, kv_routes, kv_raft_bound, client_bound,
  init_kv_clients, kv_apply_bound,
}
use my_raft.Control.Urls.Reaches.{Reaches}

-- A call of the method is a POST to the host, and reaches the handler.
abbrev pub Calls : Bound → (name host : Bytes) → List Route → (handler : Bytes) → Type 0
Calls m name host routes handler =
    (u : Url) × (lookup name m ≡ some u) × (u.host ≡ host) × Reaches post u routes handler

abbrev pub host_of : Details → Bytes
host_of d = full_addr d.addr d.port

abbrev pub kv_of : Details → List Route
kv_of d = kv_routes (kv_bound d.addr d.port)

abbrev pub raft_of : Details → List Route
raft_of d = raft_routes (raft_bound d.addr d.port)

init_kv_clients-get_elem? :
    (peers : List Details) (m : Bound) (i : ℕ) (d : Details)
    → get_elem? peers i ≡ some d
    → get_elem? (init_kv_clients peers m) i ≡ some (rehost (host_of d) m)
unfolding init_kv_clients
init_kv_clients-get_elem? [] m i d e = cc
init_kv_clients-get_elem? (p ∷ ps) m zero d e =
    ap (λ (x : Details). some (rehost (host_of x) m)) (some-injective _ _ e)
init_kv_clients-get_elem? (p ∷ ps) m (suc i) d e = init_kv_clients-get_elem? ps m i d e

module _ (addr : Bytes) (port : ℕ) (d : Details) where
  clerk_get :
      Calls
        (rehost (host_of d) (client_bound addr port))
        (codes "RaftKV.Get")
        (host_of d)
        (kv_of d)
        (codes "API_Get")
  unfolding lookup rehost client_bound bind_all insert dispatch kv_routes kv_bound
  clerk_get = (http (host_of d) (codes "api/kvraft/v1/get"), refl, refl, refl)

  clerk_put_append :
      Calls
        (rehost (host_of d) (client_bound addr port))
        (codes "RaftKV.PutAppend")
        (host_of d)
        (kv_of d)
        (codes "API_PutAppend")
  unfolding lookup rehost client_bound bind_all insert dispatch kv_routes kv_bound
  clerk_put_append = (http (host_of d) (codes "api/kvraft/v1/putappend"), refl, refl, refl)

  -- The clerk of a client, whatever its own address, has for each key-value server that the master names a
  -- client whose `RaftKV.Get` and `RaftKV.PutAppend` go to that server's host and reach `API_Get` and
  -- `API_PutAppend` there.
  pub clerk_call-Calls :
      (peers : List Details) (i : ℕ)
      → get_elem? peers i ≡ some d
      → (m : Bound) × (get_elem? (init_kv_clients peers (client_bound addr port)) i ≡ some m)
        × Calls m (codes "RaftKV.Get") (host_of d) (kv_of d) (codes "API_Get")
        × Calls m (codes "RaftKV.PutAppend") (host_of d) (kv_of d) (codes "API_PutAppend")
  clerk_call-Calls peers i e = (
    rehost (host_of d) (client_bound addr port),
    init_kv_clients-get_elem? peers (client_bound addr port) i d e,
    clerk_get,
    clerk_put_append,
  )

raft_apply :
    (kv : Details) (m : Bound)
    → Calls (kv_apply_bound kv m) (codes "RaftKV.Apply") (host_of kv) (kv_of kv) (codes "API_Apply")
unfolding kv_apply_bound dispatch kv_routes kv_bound bind_all lookup insert
raft_apply kv m =
    let u = http (host_of kv) (codes "api/kvraft/v1/apply") in
    (u, lookup-insert_self (codes "RaftKV.Apply") u m, refl, refl)

-- Where the master tells a key-value server the address of a Raft server and the Raft server that of the
-- key-value server, `Raft.Agree` and `Raft.ReturnState` of the one go to the other's host and reach the
-- handlers of these names, and `RaftKV.Apply` goes back and reaches `API_Apply`.
pub kv_and_raft-Calls :
    (raft kv : Details) (m : Bound)
    → Calls
        (kv_raft_bound raft)
        (codes "Raft.Agree")
        (host_of raft)
        (raft_of raft)
        (codes "Raft.Agree")
      × Calls
          (kv_raft_bound raft)
          (codes "Raft.ReturnState")
          (host_of raft)
          (raft_of raft)
          (codes "Raft.ReturnState")
      × Calls
          (kv_apply_bound kv m)
          (codes "RaftKV.Apply")
          (host_of kv)
          (kv_of kv)
          (codes "API_Apply")
unfolding lookup insert bind_all kv_raft_bound dispatch raft_init_routes raft_routes raft_bound
    make_service collect add_value visit visit_depths serve
kv_and_raft-Calls raft kv m = (
  (http (host_of raft) (codes "raft/v1/agree"), refl, refl, refl),
  (http (host_of raft) (codes "raft/v1/get_state"), refl, refl, refl),
  raft_apply kv m,
)
