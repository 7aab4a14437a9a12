-- ===== src/Control/Mesh.antt =====
-- The websockets between all Raft controllers: the calls that the master of controller/controller.go makes
-- for them, `StartWebsocket` at the one end of each and `API_WSInitPeerConn` at the other
-- (controller/raft_controller.go).
pub mod Grows
pub mod Connects
pub mod Pairs
use my_raft.Base.{
  ℕ, ltb, ◌&&◌, Bool, Option, none, some, List, [], ◌∷◌, get_elem?, set, Bytes, ◌>>=◌,
  if◌then◌else◌,
}
use my_raft.Control.Peers.{Details, RaftController, start_websocket, ws_init_peer_conn}
use my_raft.Control.Registry.{Body, kv_init, raft_init, ws_init, raft_start, kv_connect}

-- The Raft controllers, in the order of their numbers.
abbrev pub Fleet : Type 0
Fleet = List RaftController

-- The server `i` gets the handshake of the server `me`.
abbrev pub accept : ℕ → ℕ → Fleet → Option Fleet
accept me i fleet = do
  rc ← get_elem? fleet i
  rc ← ws_init_peer_conn (some me) rc
  some (set fleet i rc)

-- The peers' ends of what `me` has dialled; `dials` says between which servers a handshake succeeds.
unfoldable pub accept_all : (ℕ → ℕ → Bool) → ℕ → List Details → Fleet → Option Fleet
accept_all dials me [] fleet = some fleet
accept_all dials me (d ∷ ds) fleet = do
  fleet ← if ltb me d.id && dials me d.id then accept me d.id fleet else some fleet
  accept_all dials me ds fleet

-- The server `me` gets the call of `StartWebsocket`.
unfoldable pub connect_all : (ℕ → ℕ → Bool) → ℕ → List Details → Fleet → Option Fleet
unfolding accept_all
connect_all dials me ds fleet = do
  rc ← get_elem? fleet me
  rc ← start_websocket (λ d. dials me d.id) ds rc
  accept_all dials me ds (set fleet me rc)

-- The master's calls for the websockets, in order.
unfoldable pub serve_calls : (ℕ → ℕ → Bool) → List (Bytes × Body) → Fleet → Option Fleet
unfolding connect_all
serve_calls dials [] fleet = some fleet
serve_calls dials ((path, ws_init ds me) ∷ cs) fleet = do
  fleet ← connect_all dials me ds fleet
  serve_calls dials cs fleet
serve_calls dials ((path, _) ∷ cs) fleet = serve_calls dials cs fleet
