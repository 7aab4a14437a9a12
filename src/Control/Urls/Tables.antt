-- ===== src/Control/Urls/Tables.antt =====
-- What the controllers of controller/ bind and serve: `MakeRaftController`, `MakeKVRaftController`,
-- `MakeClientController2` and `MakeMetricController`, their `Init`, and what they tell the master.
use my_raft.Base.{ℕ, Option, none, some, true, false, List, [], ◌∷◌, ◌++◌, Bytes}
use my_raft.Base.Assoc.{bytes_key, lookup, insert}
use my_raft.Control.Peers.{Details}
use my_raft.Control.Services.{Method, Value, value, none_left, Service, make_service}
use my_raft.Control.Registry.{Config}
use my_raft.Control.Urls.{
  codes, full_addr, Url, http, Bound, bind_all, rehost, get, post, Route, on, serve,
}

abbrev handler : Bytes → Method
handler name = record { name = name; exported = true; inputs = 3; pointer = true; outputs = 0 }

-- A method of another signature.
abbrev other : Bytes → ℕ → ℕ → Method
other name inputs outputs = record {
  name = name;
  exported = true;
  inputs = inputs;
  pointer = false;
  outputs = outputs;
}

-- `*raft.Raft`. At depth 0 the fields are not looked at.
abbrev pub raft_type : Value
raft_type =
    value (codes "Raft") true
      (handler (codes "Agree")
        ∷ other (codes "GetState") 1 2
        ∷ handler (codes "HeartBeat")
        ∷ other (codes "Kill") 1 0
        ∷ handler (codes "RequestVote")
        ∷ handler (codes "ReturnState")
        ∷ handler (codes "SendMetrics")
        ∷ other (codes "Start") 2 3
        ∷ [])
      none_left

-- `*RaftController`
abbrev pub raft_controller_type : Value
raft_controller_type =
    value (codes "RaftController") true
      (other (codes "API_WSInitPeerConn") 1 1
        ∷ other (codes "Init") 1 0
        ∷ handler (codes "InitKVServerInfo")
        ∷ handler (codes "InitRaftPeers")
        ∷ other (codes "StartRaft") 1 0
        ∷ handler (codes "StartRaftAPI")
        ∷ handler (codes "StartRaftServer")
        ∷ handler (codes "StartWebsocket")
        ∷ handler (codes "StopRaftAPI")
        ∷ [])
      none_left

-- `services[typ].SvcMethodName`; no names where there is no such service.
abbrev service_names : Bytes → Option (List (Bytes × Service)) → List Bytes
service_names typ none = []
service_names typ (some svces) = elim (lookup typ svces) [ none ↦ [] | some s ↦ s.svc_method_name ]

abbrev pub raft_table : List (Bytes × Bytes)
raft_table =
    (codes "Raft.RequestVote", codes "raft/v1/election")
    ∷ (codes "Raft.HeartBeat", codes "raft/v1/heartbeat")
    ∷ (codes "Raft.Agree", codes "raft/v1/agree")
    ∷ (codes "Raft.ReturnState", codes "raft/v1/get_state")
    ∷ (codes "RaftController.InitRaftPeers", codes "raft/v1/internal/init_raft_server")
    ∷ (codes "RaftController.StartWebsocket", codes "raft/v1/internal/start_websockets")
    ∷ (codes "RaftController.StartRaftServer", codes "raft/v1/internal/start_raft_server")
    ∷ (codes "RaftController.InitKVServerInfo", codes "raft/v1/internal/init_kv_server")
    ∷ (codes "RaftController.StopRaftAPI", codes "raft/v1/internal/stop")
    ∷ (codes "RaftController.StartRaftAPI", codes "raft/v1/internal/start")
    ∷ (codes "Raft.WSHeartBeat", codes "raft/v1/ws/heartbeat")
    ∷ []

-- The bound methods of `MakeRaftController`.
unfoldable pub raft_bound : Bytes → ℕ → Bound
unfolding bind_all
raft_bound addr port = bind_all (full_addr addr port) raft_table []

-- `InitKVServerInfo`
unfoldable pub kv_apply_bound : Details → Bound → Bound
unfolding insert
kv_apply_bound d m =
    insert (codes "RaftKV.Apply") (http (full_addr d.addr d.port) (codes "api/kvraft/v1/apply")) m

-- The routes of `RaftController.Init`.
unfoldable pub raft_init_routes : Bound → List Route
unfolding serve make_service lookup
raft_init_routes m =
    on get (codes "Raft.WSHeartBeat") (codes "API_WSInitPeerConn") m
    ∷ serve (service_names (codes "RaftController") (make_service raft_controller_type 0)) m

-- Those and what `StartRaft` adds.
unfoldable pub raft_routes : Bound → List Route
unfolding raft_init_routes serve make_service lookup
raft_routes m =
    raft_init_routes m ++ serve (service_names (codes "Raft") (make_service raft_type 0)) m

abbrev pub kv_table : List (Bytes × Bytes)
kv_table =
    (codes "RaftKV.Get", codes "api/kvraft/v1/get")
    ∷ (codes "RaftKV.PutAppend", codes "api/kvraft/v1/putappend")
    ∷ (codes "RaftKV.Apply", codes "api/kvraft/v1/apply")
    ∷ (codes "KVRaftController.Stop", codes "api/kvraft/v1/internal/stop")
    ∷ (codes "KVRaftController.Start", codes "api/kvraft/v1/internal/start")
    ∷ (codes "KVRaftController.InitRaft", codes "api/kvraft/v1/internal/init_raft")
    ∷ []

-- The bound methods of `MakeKVRaftController`.
unfoldable pub kv_bound : Bytes → ℕ → Bound
unfolding bind_all
kv_bound addr port = bind_all (full_addr addr port) kv_table []

-- The routes of `KVRaftController.Init`.
unfoldable pub kv_routes : Bound → List Route
unfolding lookup
kv_routes m =
    on post (codes "RaftKV.Get") (codes "API_Get") m
    ∷ on post (codes "RaftKV.PutAppend") (codes "API_PutAppend") m
    ∷ on post (codes "RaftKV.Apply") (codes "API_Apply") m
    ∷ on post (codes "KVRaftController.InitRaft") (codes "API_InitRaft") m
    ∷ on post (codes "KVRaftController.Stop") (codes "API_Stop") m
    ∷ on post (codes "KVRaftController.Start") (codes "API_Start") m
    ∷ []

abbrev pub kv_raft_table : List (Bytes × Bytes)
kv_raft_table =
    (codes "Raft.Agree", codes "raft/v1/agree")
    ∷ (codes "Raft.ReturnState", codes "raft/v1/get_state")
    ∷ []

-- The methods of the client that `API_InitRaft` makes for the Raft server of the request.
unfoldable pub kv_raft_bound : Details → Bound
unfolding bind_all
kv_raft_bound d = bind_all (full_addr d.addr d.port) kv_raft_table []

abbrev client_table : List (Bytes × Bytes)
client_table =
    (codes "Clerk.Get", codes "api/client/v1/get")
    ∷ (codes "Clerk.PutAppend", codes "api/client/v1/putappend")
    ∷ (codes "ClientController.InitKVServer", codes "api/client/v1/internal/init_kv_servers")
    ∷ (codes "RaftKV.Get", codes "api/kvraft/v1/get")
    ∷ (codes "RaftKV.PutAppend", codes "api/kvraft/v1/putappend")
    ∷ []

-- The bound methods of `MakeClientController2`.
unfoldable pub client_bound : Bytes → ℕ → Bound
unfolding bind_all
client_bound addr port = bind_all (full_addr addr port) client_table []

-- The routes of `ClientController.Init`.
unfoldable pub client_routes : Bound → List Route
unfolding lookup
client_routes m =
    on get (codes "Clerk.Get") (codes "API_Get") m
    ∷ on post (codes "Clerk.PutAppend") (codes "API_PutAppend") m
    ∷ on post (codes "ClientController.InitKVServer") (codes "API_InitKVServer") m
    ∷ []

-- The methods of the clients that `InitKVServer` makes, one client for each peer in order.
unfoldable pub init_kv_clients : List Details → Bound → List Bound
unfolding rehost
init_kv_clients [] m = []
init_kv_clients (d ∷ ds) m = rehost (full_addr d.addr d.port) m ∷ init_kv_clients ds m

abbrev clerk_table : List (Bytes × Bytes)
clerk_table =
    (codes "Clerk.Get", codes "api/client/v1/get")
    ∷ (codes "Clerk.PutAppend", codes "api/client/v1/putappend")
    ∷ []

-- The bound methods of `MakeClientController`.
unfoldable pub clerk_bound : Bytes → Bound
unfolding bind_all
clerk_bound host = bind_all host clerk_table []

-- `*client.Clerk`
abbrev pub clerk_type : Value
clerk_type =
    value (codes "Clerk") true (handler (codes "Get") ∷ handler (codes "PutAppend") ∷ []) none_left

abbrev metric_table : List (Bytes × Bytes)
metric_table =
    (codes "MetricController.Metrics", codes "api/metric/v1/rpccount")
    ∷ (codes "WebHost.RPCCount", codes "api/metric/v1/getrpccount")
    ∷ []

-- The bound methods of `MakeMetricController`.
unfoldable pub metric_bound : Bytes → ℕ → Bound
unfolding bind_all
metric_bound addr port = bind_all (full_addr addr port) metric_table []

-- The routes of `MetricController.Init`.
unfoldable pub metric_routes : Bound → List Route
unfolding lookup
metric_routes m =
    on get (codes "MetricController.Metrics") (codes "WSAPI_RPCCount") m
    ∷ on get (codes "WebHost.RPCCount") (codes "WSWebHost_GetRPCCount") m
    ∷ []

-- `*MetricController`, for `Start`.
abbrev pub metric_controller_type : Value
metric_controller_type =
    value (codes "MetricController") true
      (other (codes "Init") 1 0
        ∷ handler (codes "MetricUpdate")
        ∷ other (codes "Start") 1 0
        ∷ other (codes "StartEchoService") 1 0
        ∷ other (codes "WSAPI_RPCCount") 1 1
        ∷ other (codes "WSWebHost_GetRPCCount") 1 1
        ∷ [])
      none_left

-- What the controllers post to the master when they are made.
abbrev pub master_url : Bytes → Url
master_url path = http (full_addr (codes "localhost") 65000) path

-- `render` is `URL.String`.
module _ (render : Url → Bytes) where
  unfoldable pub raft_registration : Bytes → ℕ → Url × Config
  raft_registration addr port =
      let host = full_addr addr port in
      (
        master_url (codes "/api/controller/v1/raftadd"),
        record {
          raft_connect = record {
            addr = addr;
            port = port;
            id = 0;
            reply_full_path = render (http host (codes "raft/v1/internal/init_raft_server"));
          };
          raft_start_ws_full_path = render (http host (codes "raft/v1/internal/start_websockets"));
          raft_start_full_path = render (http host (codes "raft/v1/internal/start_raft_server"));
          kv_init_full_path = render (http host (codes "raft/v1/internal/init_kv_server"));
        },
      )

  unfoldable pub kv_registration : Bytes → ℕ → Url × Details
  kv_registration addr port = (
    master_url (codes "/api/controller/v1/kvadd"),
    record {
      addr = addr;
      port = port;
      id = 0;
      reply_full_path =
          render (http (full_addr addr port) (codes "api/kvraft/v1/internal/init_raft"));
    },
  )

  unfoldable pub client_registration : Bytes → ℕ → Url × Details
  client_registration addr port = (
    master_url (codes "/api/controller/v1/clientadd"),
    record {
      addr = addr;
      port = port;
      id = 0;
      reply_full_path =
          render (http (full_addr addr port) (codes "api/client/v1/internal/init_kv_servers"));
    },
  )

-- The routes of the master's `Init`.
abbrev pub master_routes : List Route
master_routes =
    record {
      verb = post;
      path = codes "/api/controller/v1/raftadd";
      handler = codes "API_AddRaftServer";
    }
    ∷ record {
      verb = post;
      path = codes "/api/controller/v1/kvadd";
      handler = codes "API_AddKVServer";
    }
    ∷ record {
      verb = post;
      path = codes "/api/controller/v1/clientadd";
      handler = codes "API_AddClient";
    }
    ∷ record {
      verb = post;
      path = codes "/api/controller/v1/remove";
      handler = codes "API_RemoveServer";
    }
    ∷ record {
      verb = post;
      path = codes "/api/controller/v1/stop";
      handler = codes "API_StopServer";
    }
    ∷ record {
      verb = post;
      path = codes "/api/controller/v1/start";
      handler = codes "API_StartServer";
    }
    ∷ []
