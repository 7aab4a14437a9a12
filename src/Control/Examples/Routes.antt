-- ===== src/Control/Examples/Routes.antt =====
-- The theorems on URLs, routes and services of controller/ at concrete addresses.
use my_raft.Base.{◌⊎◌, none, some, List, [], ◌∷◌, ◌≡◌, refl, true}
use my_raft.Base.Assoc.{bytes_key, lookup, insert}
use my_raft.Control.Peers.{Details}
use my_raft.Control.Registry.{Controller, runs, no_config}
use my_raft.Control.Registry.Switch.{SwitchCall, stop_server}
use my_raft.Control.Services.{
  Method, value, none_left, Service, is_handler, full_name, collect, add_value, visit, visit_depths,
  make_service, api_function,
}
use my_raft.Control.Services.Resolves.{make_service-resolves}
use my_raft.Control.Urls.{
  codes, full_addr, Url, http, bind_all, rehost, slashed, post, digits, dispatch,
}
use my_raft.Control.Urls.Tables.{raft_bound, raft_routes, kv_apply_bound}
use my_raft.Control.Urls.Reaches.{Reaches, raft_call-Reaches}
use my_raft.Control.Urls.Master.{Switches, stop_server-Switches}

itoa_test : full_addr (codes "localhost") 65010 ≡ codes "localhost:65010"
unfolding digits
itoa_test = refl

abbrev raft_one : Details
raft_one = record { addr = codes "localhost"; port = 65010; id = 0; reply_full_path = [] }

abbrev kv_one : Details
kv_one = record { addr = codes "localhost"; port = 65020; id = 0; reply_full_path = [] }

abbrev election_url : Url
election_url = http (codes "localhost:65011") (codes "raft/v1/election")

election_bound :
    lookup (codes "Raft.RequestVote") (
      rehost
        (codes "localhost:65011")
        (kv_apply_bound kv_one (raft_bound (codes "localhost") 65010)))
    ≡ some election_url
unfolding lookup rehost kv_apply_bound raft_bound bind_all insert
election_bound = refl

raft_call-Reaches_example :
    (codes "localhost:65011" ≡ codes "localhost:65011")
    × ((Reaches post election_url
          (raft_routes (raft_bound (codes "localhost") 65011))
          (codes "Raft.RequestVote"))
        ⊎ ((codes "Raft.RequestVote" ≡ codes "RaftKV.Apply")
            × (dispatch post
                  (slashed election_url.path)
                  (raft_routes (raft_bound (codes "localhost") 65011))
                ≡ none)))
raft_call-Reaches_example =
    raft_call-Reaches (codes "localhost") 65011 (codes "localhost") 65010 kv_one
      (codes "localhost:65011") (codes "Raft.RequestVote") election_url election_bound

abbrev master : Controller
master = record {
  n_servers = 1;
  connected_raft = 1;
  connected_kv = 1;
  raft_details = record no_config { raft_connect = raft_one } ∷ [];
  kv_details = kv_one ∷ [];
  client_details = none;
  phase = runs;
}

stop_server-Switches_example :
    (calls : List SwitchCall) × (stop_server 0 master ≡ some calls)
    × Switches (codes "API_Stop") (codes "RaftController.StopRaftAPI") 0 master kv_one calls
stop_server-Switches_example = stop_server-Switches master 0 kv_one refl

abbrev stop_method : Method
stop_method = record {
  name = codes "Stop";
  exported = true;
  inputs = 3;
  pointer = true;
  outputs = 0;
}

abbrev stop_service : Service
stop_service = record {
  name = codes "T";
  methods = (codes "Stop", stop_method) ∷ [];
  svc_method_name = [] ∷ codes "T.Stop" ∷ [];
}

stop_made :
    make_service (value (codes "T") true (stop_method ∷ []) none_left) 0
    ≡ some ((codes "T", stop_service) ∷ [])
unfolding make_service visit_depths visit add_value collect insert
stop_made = refl

stop_found : lookup (codes "T") ((codes "T", stop_service) ∷ []) ≡ some stop_service
unfolding lookup
stop_found = refl

make_service-resolves_example :
    (m : Method) × (codes "T.Stop" ≡ full_name (codes "T") m.name)
    × (api_function (codes "T.Stop") ((codes "T", stop_service) ∷ []) ≡ some (stop_service, m))
    × (is_handler m ≡ true)
make_service-resolves_example =
    make_service-resolves (codes "T") (stop_method ∷ []) none_left stop_service
      ((codes "T", stop_service) ∷ []) 1 (codes "T.Stop") (refl, tt)
      ((refl, (refl, (refl, (refl, tt)))), tt) stop_made stop_found refl (λ e. cc)
