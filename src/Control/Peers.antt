-- ===== src/Control/Peers.antt =====
-- `StopRaftAPI`, `StartRaftAPI`, `InitKVServerInfo`, `InitRaftPeers`, `StartWebsocket` and `StartRaft` of
-- controller/raft_controller.go, with the clients of controller/data/rclient.go and `AtBool` of
-- common/data/atomic_data.go. `none` is the panic on an index out of range.
pub mod Partition
use my_raft.Base.{
  ℕ, zero, suc, ◌<◌, ◌==◌, ltb, if◌then◌else◌, Bool, Bool-cases, inl, inr, true, false, not, ◌&&◌,
  ◌||◌, Option, none, some, List, [], ◌∷◌, map, length, get_elem?, set, replicate, get_elem?-set,
  get_elem?-some, Bytes, ◌>>=◌, ◌≡◌, refl, sym, ap, ◌∙◌, arith,
}
use mathlib.Core.Option.{some-injective}

-- `AtBool`: a number that is 0 or 1.
abbrev pub store_bool : Bool → ℕ
store_bool b = if b then 1 else 0

abbrev pub load_bool : ℕ → Bool
load_bool v = not (v == 0)

-- The address of a peer.
pub record Details : Type 0 where
  pub addr : Bytes
  pub port : ℕ
  pub id : ℕ
  pub reply_full_path : Bytes

-- The websocket for heart beats: none is there, or one that is open, or one that is in RPC mode.
pub data Socket : Type 0 where
  absent open_socket serving : Socket

-- `own` says that its methods are those of its server.
pub record RClient : Type 0 where
  pub addr : Bytes
  pub port : ℕ
  pub own : Bool
  pub ws : Socket
  pub is_blocked : ℕ

abbrev pub block : RClient → RClient
block c = record c { is_blocked = store_bool true }

abbrev pub unblock : RClient → RClient
unblock c = record c { is_blocked = store_bool false }

-- The results of the calls: `answered` says whether the HTTP call gave an answer.
abbrev pub call : RClient → Bool → Bool
call c answered = if load_bool c.is_blocked then false else answered

abbrev is_open : Socket → Bool
is_open absent = false
is_open _ = true

abbrev pub call_ws : RClient → Bool
call_ws c = if load_bool c.is_blocked then false else is_open c.ws

-- `metric_ws` is the connection "MetricController.Metrics" of its own client.
pub record RaftController : Type 0 where
  pub me : ℕ
  pub clients : List RClient
  pub kv_server : Option Details  -- the address behind "RaftKV.Apply"
  pub metric_ws : Socket

unfoldable pub stop_raft_api : ℕ → RaftController → Option RaftController
stop_raft_api idx rc =
    if idx == rc.me then some (record rc { clients = map block rc.clients }) else do
      c ← get_elem? rc.clients idx
      some (record rc { clients = set rc.clients idx (block c) })

abbrev pub unblock_at : ℕ → RaftController → Option RaftController
unblock_at idx rc = do
  c ← get_elem? rc.clients idx
  some (record rc { clients = set rc.clients idx (unblock c) })

unfoldable pub start_raft_api : ℕ → RaftController → Option RaftController
start_raft_api idx rc =
    if idx == rc.me then some (record rc { clients = map unblock rc.clients }) else do
      mine ← get_elem? rc.clients rc.me
      (if load_bool mine.is_blocked then some rc else unblock_at idx rc)

unfoldable pub init_kv_server_info : Details → RaftController → RaftController
init_kv_server_info d rc = record rc { kv_server = some d }

abbrev new_client : ℕ → Details → RClient
new_client me d = record {
  addr = d.addr;
  port = d.port;
  own = d.id == me;
  ws = absent;
  is_blocked = store_bool false;
}

-- An entry that no peer names stays nil: `none`.
unfoldable pub place_clients :
    ℕ → List Details → List (Option RClient) → Option (List (Option RClient))
place_clients me [] clients = some clients
place_clients me (d ∷ ds) clients =
    if ltb d.id (length clients)
    then place_clients me ds (set clients d.id (some (new_client me d)))
    else none

unfoldable pub init_raft_peers : ℕ → List Details → Option (List (Option RClient))
unfolding place_clients
init_raft_peers me peers = place_clients me peers (replicate (length peers) none)

abbrev pub connect : ℕ → RaftController → Option RaftController
connect i rc = do
  c ← get_elem? rc.clients i
  some (record rc { clients = set rc.clients i (record c { ws = open_socket }) })

-- `dial` says whether the handshake with a peer succeeds.
unfoldable pub start_websocket :
    (Details → Bool) → List Details → RaftController → Option RaftController
start_websocket dial [] rc = some rc
start_websocket dial (d ∷ ds) rc = do
  rc ← if ltb rc.me d.id && dial d then connect d.id rc else some rc
  start_websocket dial ds rc

-- `API_WSInitPeerConn`, for the number in the header, if there is one.
unfoldable pub ws_init_peer_conn : Option ℕ → RaftController → Option RaftController
ws_init_peer_conn none rc = some rc
ws_init_peer_conn (some i) rc = connect i rc

-- The loop of `StartRaft`: every connection to a peer goes into RPC mode. `none` is the panic where there
-- is no connection, and the exit where it is in that mode already.
unfoldable pub start_clients : ℕ → ℕ → List RClient → Option (List RClient)
start_clients me i [] = some []
start_clients me i (c ∷ cs) = do
  rest ← start_clients me (suc i) cs
  (if i == me
      then some (c ∷ rest)
      else elim c.ws [ open_socket ↦ some (record c { ws = serving } ∷ rest) | _ ↦ none ])

-- `connectToMetricController`, where the dial succeeds or not.
unfoldable pub connect_to_metric_controller : Bool → RaftController → Option RaftController
connect_to_metric_controller false rc = some rc
connect_to_metric_controller true rc = do
  _ ← get_elem? rc.clients rc.me
  some (record rc { metric_ws = open_socket })

-- RPC mode with the metric controller begins if it is connected by then.
abbrev pub start_metrics : Socket → Socket
start_metrics absent = absent
start_metrics open_socket = serving
start_metrics serving = serving

-- `StartRaft` on the connections.
unfoldable pub start_raft : RaftController → Option RaftController
unfolding start_clients
start_raft rc = do
  clients ← start_clients rc.me 0 rc.clients
  _ ← get_elem? rc.clients rc.me
  some (record rc { clients = clients; metric_ws = start_metrics rc.metric_ws })
