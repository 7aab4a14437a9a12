-- ===== src/Control/Urls/Master.antt =====
-- The calls between the master of controller/controller.go and the other processes.
use my_raft.Base.{ℕ, zero, suc, none, some, List, [], ◌∷◌, get_elem?, length, Bytes, ◌≡◌, refl, ap}
use mathlib.Core.Option.{some-injective}
use my_raft.Base.Assoc.{bytes_key, lookup, insert}
use my_raft.Control.Peers.{Details}
use my_raft.Control.Registry.{Config, Controller}
use my_raft.Control.Registry.Switch.{SwitchCall, to_kv, to_rafts, stop_server, start_server}
use my_raft.Control.Services.{make_service, collect, add_value, visit, visit_depths}
use my_raft.Control.Urls.{codes, Url, http, bind_all, post, serve, dispatch}
use my_raft.Control.Urls.Tables.{raft_bound, raft_init_routes, raft_routes, kv_bound, kv_routes}
use my_raft.Control.Urls.Reaches.{Reaches}
use my_raft.Control.Urls.Between.{host_of, kv_of, raft_of}

to_rafts-get_elem? :
    (path : Bytes) (idx : ℕ) (cs : List Config) (i : ℕ) (c : Config)
    → get_elem? cs i ≡ some c
    → get_elem? (to_rafts path idx cs) i ≡ some (http (host_of c.raft_connect) path, some idx)
unfolding to_rafts
to_rafts-get_elem? path idx [] i c e = cc
to_rafts-get_elem? path idx (d ∷ cs) zero c e =
    ap (λ (x : Config). some (http (host_of x.raft_connect) path, some idx)) (some-injective _ _ e)
to_rafts-get_elem? path idx (d ∷ cs) (suc i) c e = to_rafts-get_elem? path idx cs i c e

length-to_rafts :
    (path : Bytes) (idx : ℕ) (cs : List Config) → length (to_rafts path idx cs) ≡ length cs
unfolding to_rafts
length-to_rafts path idx [] = refl
length-to_rafts path idx (c ∷ cs) = ap suc (length-to_rafts path idx cs)

-- The first call reaches a handler of the key-value server, each further one a handler of the next Raft
-- server, with the index; there are no more.
abbrev pub Switches : Bytes → Bytes → ℕ → Controller → Details → List SwitchCall → Type 0
Switches to_one to_all idx c kv calls =
    ((u : Url) × (get_elem? calls 0 ≡ some (u, none))
      × (u.host ≡ host_of kv)
      × Reaches post u (kv_of kv) to_one)
    × ((i : ℕ) (r : Config)
        → get_elem? c.raft_details i ≡ some r
        → (u : Url) × (get_elem? calls (suc i) ≡ some (u, some idx))
          × (u.host ≡ host_of r.raft_connect)
          × Reaches post u (raft_of r.raft_connect) to_all)
    × (length calls ≡ suc (length c.raft_details))

module _ (c : Controller) (idx : ℕ) (kv : Details) (e : get_elem? c.kv_details idx ≡ some kv) where
  -- For an index of the table, stopping a server calls `API_Stop` of its key-value server and
  -- `StopRaftAPI` of every Raft server, with the index, each at its host, and nothing else.
  pub stop_server-Switches :
      (calls : List SwitchCall) × (stop_server idx c ≡ some calls)
      × Switches (codes "API_Stop") (codes "RaftController.StopRaftAPI") idx c kv calls
  unfolding stop_server kv_routes kv_bound raft_init_routes raft_routes raft_bound bind_all lookup
      insert dispatch make_service collect add_value visit visit_depths serve
  stop_server-Switches =
      let path = codes "raft/v1/internal/stop" in
      (
        to_kv (codes "api/kvraft/v1/internal/stop") kv ∷ to_rafts path idx c.raft_details,
        rw e refl,
        (
          (http (host_of kv) (codes "api/kvraft/v1/internal/stop"), refl, refl, refl),
          (λ i r f. (
            http (host_of r.raft_connect) path,
            to_rafts-get_elem? path idx c.raft_details i r f,
            refl,
            refl,
          )),
          ap suc (length-to_rafts path idx c.raft_details),
        ),
      )

  -- Starting it calls `API_Start` of its key-value server and `StartRaftAPI` of every Raft server likewise.
  pub start_server-Switches :
      (calls : List SwitchCall) × (start_server idx c ≡ some calls)
      × Switches (codes "API_Start") (codes "RaftController.StartRaftAPI") idx c kv calls
  unfolding start_server kv_routes kv_bound raft_init_routes raft_routes raft_bound bind_all lookup
      insert dispatch make_service collect add_value visit visit_depths serve
  start_server-Switches =
      let path = codes "raft/v1/internal/start" in
      (
        to_kv (codes "api/kvraft/v1/internal/start") kv ∷ to_rafts path idx c.raft_details,
        rw e refl,
        (
          (http (host_of kv) (codes "api/kvraft/v1/internal/start"), refl, refl, refl),
          (λ i r f. (
            http (host_of r.raft_connect) path,
            to_rafts-get_elem? path idx c.raft_details i r f,
            refl,
            refl,
          )),
          ap suc (length-to_rafts path idx c.raft_details),
        ),
      )
