-- ===== src/Control/Examples.antt =====
-- The theorems on controller/ at concrete controllers, reports and frames.
mod Routes
mod Meshes
mod Stops
mod Links
use my_raft.Base.{
  ◌+◌, ◌≤◌, pos, ◌≡◌, refl, true, false, some, none, List, [], ◌∷◌, ◌++◌, get_elem?, map, replicate,
  ◌>>=◌, arith,
}
use my_raft.Raft.Data.{RpcArgs, MetricKind}
use my_raft.Control.Metrics.{
  make_metric_controller, metric_of, metric_updates, metric_updates-counts,
}
use my_raft.Control.Connection.{next_times}
use my_raft.Control.Registry.{
  Controller, Registration, raft_server, kv_server, runs, new_controller, registers, no_config,
  no_details, add_kv_server,
}
use my_raft.Control.Registry.Numbering.{IsNumbered, registers-IsNumbered}
use my_raft.Control.Registry.Ready.{IsLate, registers-IsLate, registers-runs}

abbrev beat : RpcArgs
beat = record {
  idx = pos 1;
  rpc_from_idx = pos 0;
  logs = [];
  kind = MetricKind.hb;
  voted_for = pos 0;
  leader_idx = pos 0;
}

metric_updates-counts_example :
    ((metric_of (metric_updates make_metric_controller (beat ∷ beat ∷ [])).metrics (pos 1)).hb_rpc
      ≡ (metric_of make_metric_controller.metrics (pos 1)).hb_rpc + 2)
    × ((metric_of
          (metric_updates make_metric_controller (beat ∷ beat ∷ [])).metrics
          (pos 1)).election_rpc
        ≡ (metric_of make_metric_controller.metrics (pos 1)).election_rpc + 0)
    × ((metric_of
          (metric_updates make_metric_controller (beat ∷ beat ∷ [])).metrics
          (pos 1)).successful_hb
        ≡ (metric_of make_metric_controller.metrics (pos 1)).successful_hb + 0)
metric_updates-counts_example =
    metric_updates-counts make_metric_controller (beat ∷ beat ∷ []) (pos 1)

same_index : next_times 0 3 ≡ next_times 256 3
unfolding next_times
same_index = refl

-- The only KV server has registered before the only Raft server.
abbrev early_kv : Controller
early_kv = add_kv_server no_details (new_controller 1)

early_kv-IsLate : IsLate early_kv
unfolding add_kv_server new_controller
early_kv-IsLate = (refl, λ e. cc)

registers-IsLate_example : IsLate (registers early_kv (raft_server no_config ∷ []))
registers-IsLate_example = registers-IsLate early_kv (raft_server no_config ∷ []) early_kv-IsLate

registers-runs_example :
    (registers (new_controller 2) (
      map raft_server (no_config ∷ no_config ∷ [])
      ++ map kv_server (no_details ∷ no_details ∷ []))).phase
    ≡ runs
registers-runs_example = registers-runs no_config (no_config ∷ []) no_details (no_details ∷ []) refl
