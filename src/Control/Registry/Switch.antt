-- ===== src/Control/Registry/Switch.antt =====
-- `API_StopServer` and `API_StartServer` of controller/controller.go: what the master calls to take a
-- server off the network and to bring it back.
use my_raft.Base.{
  ℕ, Bool, if◌then◌else◌, Option, none, some, List, [], ◌∷◌, Bytes, get_elem?, ◌>>=◌,
}
use my_raft.Control.Peers.{Details}
use my_raft.Control.Urls.{Url, http, codes, full_addr}
use my_raft.Control.Registry.{Config, Controller}

-- A call: the URL, and the index in the body; the call to the key-value server has none.
abbrev pub SwitchCall : Type 0
SwitchCall = Url × Option ℕ

abbrev pub to_kv : Bytes → Details → SwitchCall
to_kv path d = (http (full_addr d.addr d.port) path, none)

-- The calls to all Raft servers.
unfoldable pub to_rafts : Bytes → ℕ → List Config → List SwitchCall
to_rafts path idx [] = []
to_rafts path idx (c ∷ cs) =
    (http (full_addr c.raft_connect.addr c.raft_connect.port) path, some idx) ∷ to_rafts path idx cs

-- `none` is the panic on an index out of range.
unfoldable pub stop_server : ℕ → Controller → Option (List SwitchCall)
unfolding to_rafts
stop_server idx c = do
  kv ← get_elem? c.kv_details idx
  some (
      to_kv (codes "api/kvraft/v1/internal/stop") kv
      ∷ to_rafts (codes "raft/v1/internal/stop") idx c.raft_details)

unfoldable pub start_server : ℕ → Controller → Option (List SwitchCall)
unfolding to_rafts
start_server idx c = do
  kv ← get_elem? c.kv_details idx
  some (
      to_kv (codes "api/kvraft/v1/internal/start") kv
      ∷ to_rafts (codes "raft/v1/internal/start") idx c.raft_details)

-- A round of `serveClients`: the client in the channel is told the key-value servers at the path that it
-- gave. `none` is the wait on an empty channel; the path is missing where `url.Parse` does not accept it.
unfoldable pub serve_client :
    (Bytes → Bool) → Controller → Option (Controller × Option (Bytes × List Details))
serve_client parses c = do
  client ← c.client_details
  some (
    record c { client_details = none },
    if parses client.reply_full_path then some (client.reply_full_path, c.kv_details) else none,
  )
