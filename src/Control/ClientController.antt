-- ===== src/Control/ClientController.antt =====
-- `ClientController` of controller/clientcontroller.go, with the structs of raftclient/clientdto.
use my_raft.Base.{ℕ, Option, none, some, List, [], length, Bytes, ◌>>=◌}
use my_raft.Base.Assoc.{bytes_key, lookup}
use my_raft.Kv.Server.{GetReply, PutAppendReply}
use my_raft.Kv.Clerk.{Clerk, make_clerk, Outcome, get, put_append}
use my_raft.Control.Peers.{Details}
use my_raft.Control.Services.{Method, Service, make_service}
use my_raft.Control.Urls.{codes, Bound}
use my_raft.Control.Urls.Tables.{client_bound, clerk_bound, clerk_type, init_kv_clients}

pub record ClientGetReply : Type 0 where
  pub key : Bytes
  pub value : Bytes

pub record ClientPutAppendArg : Type 0 where
  pub op : Bytes
  pub key : Bytes
  pub value : Bytes

-- `kvservers` are the clients of the key-value servers, by their bound methods.
pub record ClientController : Type 0 where
  pub bound : Bound
  pub kvservers : List Bound
  pub clerk : Option Clerk
  pub services : List (Bytes × Service)

-- `MakeClientController2`, without its post to the master.
unfoldable pub make_client_controller2 : Bytes → ℕ → ClientController
make_client_controller2 addr port = record {
  bound = client_bound addr port;
  kvservers = [];
  clerk = none;
  services = [];
}

unfoldable pub make_client_controller : Bytes → List Bound → ClientController
make_client_controller addr kvservers = record {
  bound = clerk_bound addr;
  kvservers = kvservers;
  clerk = none;
  services = [];
}

-- `start`
unfoldable pub start_clerk : ClientController → Option ClientController
start_clerk c = do
  svces ← make_service clerk_type 0
  some (record c { clerk = some (make_clerk (length c.kvservers)); services = svces })

unfoldable pub init_kv_server : List Details → ClientController → Option ClientController
unfolding start_clerk
init_kv_server peers c = start_clerk (record c { kvservers = init_kv_clients peers c.bound })

-- `API_InitKVServer`; where the body is not decoded there is no request.
unfoldable pub api_init_kv_server :
    Option (List Details) → ClientController → Option ClientController
unfolding init_kv_server
api_init_kv_server none c = some c
api_init_kv_server (some peers) c = init_kv_server peers c

-- `c.Services["Clerk"].Methods[name]`, with its first two inputs; `none` is the panic.
abbrev clerk_method : Bytes → ClientController → Option Method
clerk_method name c = do s ← lookup (codes "Clerk") c.services; lookup name s.methods

-- What a handler gives: the error of the decoding, or a reply.
pub data Response (R : Type 0) : Type 0 where
  bind_error : Response R
  replied : R → Response R

-- `API_Get` with the key of the request, and the outcomes of the clerk's calls. `none` is a panic, or a clerk
-- that still calls.
unfoldable pub api_get :
    Option Bytes
    → List (Outcome GetReply)
    → ClientController
    → Option (ClientController × Response ClientGetReply)
api_get request calls c = do
  _ ← clerk_method (codes "Get") c
  elim request [
    | none ↦ some (c, bind_error)
    | some key ↦ do
      ck ← c.clerk
      (ck, v) ← get ck calls
      some (record c { clerk = some ck }, replied (record { key = key; value = v }))
  ]

-- `API_PutAppend`; `context_id` is what the clerk draws. The reply stays empty.
unfoldable pub api_put_append :
    Option ClientPutAppendArg
    → (context_id : Bytes) → List (Outcome PutAppendReply)
    → ClientController
    → Option (ClientController × Response Unit)
api_put_append request context_id calls c = do
  _ ← clerk_method (codes "PutAppend") c
  elim request [
    | none ↦ some (c, bind_error)
    | some args ↦ do
      ck ← c.clerk
      ck ← put_append ck context_id args.op args.key args.value calls
      some (record c { clerk = some ck }, replied tt)
  ]
