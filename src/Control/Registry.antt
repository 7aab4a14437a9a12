-- ===== src/Control/Registry.antt =====
-- The master of controller/controller.go: how the servers register with it and what it calls then.
pub mod Numbering
pub mod Ready
pub mod Switch
use my_raft.Base.{
  ℕ, zero, suc, ◌<◌, ◌≤◌, ◌+◌, ◌==◌, ==_iff, ltb, if◌then◌else◌, Bool, Bool-cases, inl, inr, true,
  false, ◌&&◌, Option, none, some, List, [], ◌∷◌, ◌++◌, map, length, get_elem?, set, drop,
  replicate, get_elem?-set, get_elem?-set_other, get_elem?-some, length-set, length-replicate,
  Bytes, ◌>>=◌, ◌≡◌, ◌≢◌, refl, sym, ap, ◌∙◌, subst, arith,
}
use my_raft.Control.Peers.{Details}

pub record Config : Type 0 where
  pub raft_connect : Details
  pub raft_start_ws_full_path : Bytes
  pub raft_start_full_path : Bytes
  pub kv_init_full_path : Bytes

-- Where the goroutine of `serversInit` stands: it waits on one channel and then on the other.
pub data Phase : Type 0 where
  waits_raft waits_kv runs : Phase

pub record Controller : Type 0 where
  pub n_servers : ℕ
  pub connected_raft : ℕ
  pub connected_kv : ℕ
  pub raft_details : List Config
  pub kv_details : List Details
  pub client_details : Option Details  -- the channel, with room for one
  pub phase : Phase

abbrev pub no_details : Details
no_details = record { addr = []; port = 0; id = 0; reply_full_path = [] }

abbrev pub no_config : Config
no_config = record {
  raft_connect = no_details;
  raft_start_ws_full_path = [];
  raft_start_full_path = [];
  kv_init_full_path = [];
}

-- The controller when its goroutine has come to its first wait.
unfoldable pub new_controller : ℕ → Controller
new_controller n = record {
  n_servers = n;
  connected_raft = 0;
  connected_kv = 0;
  raft_details = replicate n no_config;
  kv_details = replicate n no_details;
  client_details = none;
  phase = waits_raft;
}

-- The channels have no buffer, so a signal that nobody waits for is dropped.
abbrev pub raft_ready : Phase → Phase
raft_ready waits_raft = waits_kv
raft_ready p = p

abbrev pub kv_ready : Phase → Phase
kv_ready waits_kv = runs
kv_ready p = p

abbrev pub numbered : Config → ℕ → Config
numbered args i = record args { raft_connect = record args.raft_connect { id = i } }

unfoldable pub add_raft_server : Config → Controller → Controller
add_raft_server args c =
    if ltb c.connected_raft c.n_servers
    then record c {
      raft_details = set c.raft_details c.connected_raft (numbered args c.connected_raft);
      connected_raft = c.connected_raft + 1;
      phase = if c.connected_raft + 1 == c.n_servers then raft_ready c.phase else c.phase;
    }
    else c

unfoldable pub add_kv_server : Details → Controller → Controller
add_kv_server args c =
    if ltb c.connected_kv c.n_servers
    then record c {
      kv_details = set c.kv_details c.connected_kv args;
      connected_kv = c.connected_kv + 1;
      phase = if c.connected_kv + 1 == c.n_servers then kv_ready c.phase else c.phase;
    }
    else c

-- The handler waits while the channel is full: `none`.
unfoldable pub add_client : Details → Controller → Option Controller
add_client args c = elim c.client_details [
  | none ↦ some (record c { client_details = some args })
  | some d ↦ none
]

pub data Registration : Type 0 where
  raft_server : Config → Registration
  kv_server : Details → Registration

unfoldable pub registers : Controller → List Registration → Controller
registers c [] = c
registers c (raft_server args ∷ rs) = registers (add_raft_server args c) rs
registers c (kv_server args ∷ rs) = registers (add_kv_server args c) rs

-- A call of the master: the path and the body.
pub data Body : Type 0 where
  kv_init : Details → Body
  raft_init : List Details → ℕ → Body
  ws_init : List Details → ℕ → Body
  raft_start : Body
  kv_connect : Details → Body

abbrev pub connects : List Config → List Details
connects [] = []
connects (c ∷ cs) = c.raft_connect ∷ connects cs

-- The four loops of `serversInit`. `parses` says which paths `url.Parse` accepts; `none` is the panic
-- on an index out of range.
unfoldable pub init_calls :
    (Bytes → Bool) → List Details → List Details → ℕ → List Config → Option (List (Bytes × Body))
init_calls parses all kvs i [] = some []
init_calls parses all kvs i (c ∷ cs) = do
  rest ← init_calls parses all kvs (i + 1) cs
  (if parses c.raft_connect.reply_full_path && parses c.kv_init_full_path
      then elim (get_elem? kvs i) [
        | none ↦ none
        | some kv ↦ some (
            (c.kv_init_full_path, kv_init kv)
            ∷ (c.raft_connect.reply_full_path, raft_init all i)
            ∷ rest)
      ]
      else some rest)

unfoldable pub ws_calls : (Bytes → Bool) → List Details → ℕ → List Config → List (Bytes × Body)
ws_calls parses all i [] = []
ws_calls parses all i (c ∷ cs) =
    let rest = ws_calls parses all (i + 1) cs in
    if parses c.raft_start_ws_full_path
    then (c.raft_start_ws_full_path, ws_init (drop (i + 1) all) i) ∷ rest
    else rest

unfoldable pub start_calls : (Bytes → Bool) → List Config → List (Bytes × Body)
start_calls parses [] = []
start_calls parses (c ∷ cs) =
    let rest = start_calls parses cs in
    if parses c.raft_start_full_path then (c.raft_start_full_path, raft_start) ∷ rest else rest

unfoldable pub kv_calls :
    (Bytes → Bool) → List Details → ℕ → List Details → Option (List (Bytes × Body))
kv_calls parses all i [] = some []
kv_calls parses all i (d ∷ ds) = do
  rest ← kv_calls parses all (i + 1) ds
  (if parses d.reply_full_path
      then elim (get_elem? all i) [
        | none ↦ none
        | some raft ↦ some ((d.reply_full_path, kv_connect raft) ∷ rest)
      ]
      else some rest)

-- What the goroutine calls after its two waits, in order.
unfoldable pub servers_init : (Bytes → Bool) → Controller → Option (List (Bytes × Body))
unfolding init_calls ws_calls start_calls kv_calls
servers_init parses c = do
  inits ← init_calls parses (connects c.raft_details) c.kv_details 0 c.raft_details
  kvs ← kv_calls parses (connects c.raft_details) 0 c.kv_details
  some (
      inits
      ++ (ws_calls parses (connects c.raft_details) 0 c.raft_details
          ++ (start_calls parses c.raft_details ++ kvs)))
