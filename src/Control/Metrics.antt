-- ===== src/Control/Metrics.antt =====
-- `MetricController` of controller/metricontroller.go, with `Metric` and
-- `AllMetrics` of controller/data/metric.go.
use my_raft.Base.{
  ℕ, ◌+◌, ℤ, pos, eqb_ℤ, eqb_ℤ_iff, if◌then◌else◌, Bool, Bool-cases, inl, inr, true, false, Option,
  none, some, List, [], ◌∷◌, ◌++◌, map, ◌>>=◌, ◌≡◌, refl, ap, ◌∙◌, arith,
}
use my_raft.Base.Assoc.{int_key, lookup, insert, lookup-insert}
use my_raft.Control.Connection.{
  WsConnection, Method, GoType, new_ws_connection, start_rpc_mode, start_writer, write_frame,
}
use my_raft.Control.Urls.{codes}
use my_raft.Raft.Data.{RaftLog, MetricKind, hb, election, logs, success_hb, unknown, RpcArgs}

pub record Metric : Type 0 where
  pub idx : ℤ
  pub hb_rpc : ℕ
  pub successful_hb : ℕ
  pub election_rpc : ℕ
  pub logs : List RaftLog
  pub leader_idx : ℤ

abbrev pub AllMetrics : Type 0
AllMetrics = List (ℤ × Metric)

-- `changed` says that `metricChangeChnl` holds its one signal. Of an end client's connection there is the
-- buffer of its write channel, which holds maps.
pub record MetricController : Type 0 where
  pub metrics : AllMetrics
  pub changed : Bool
  pub servers : List WsConnection
  pub end_clients : List (List AllMetrics)

unfoldable pub make_metric_controller : MetricController
make_metric_controller = record { metrics = []; changed = false; servers = []; end_clients = [] }

abbrev pub blank_metric : ℤ → Metric
blank_metric i = record {
  idx = i;
  hb_rpc = 0;
  successful_hb = 0;
  election_rpc = 0;
  logs = [];
  leader_idx = pos 0;
}

-- The `switch` on the type.
unfoldable pub count_rpc : Metric → RpcArgs → Metric
count_rpc m args = elim args.kind [
  | hb ↦ record m { hb_rpc = m.hb_rpc + 1; leader_idx = args.rpc_from_idx }
  | election ↦ record m { election_rpc = m.election_rpc + 1 }
  | logs ↦ record m { logs = args.logs }
  | success_hb ↦ record m { successful_hb = m.successful_hb + 1; leader_idx = args.idx }
  | unknown ↦ m
]

abbrev metric_at : ℤ → Option Metric → Metric
metric_at i none = blank_metric i
metric_at i (some m) = m

abbrev pub metric_of : List (ℤ × Metric) → ℤ → Metric
metric_of ms i = metric_at i (lookup i ms)

unfoldable pub metric_update : MetricController → RpcArgs → MetricController
unfolding count_rpc
metric_update c args = record c {
  metrics = insert args.idx (count_rpc (metric_of c.metrics args.idx) args) c.metrics;
  changed = true;
}

-- One round of the loop; it waits where no signal is there.
unfoldable pub update_end_clients : MetricController → MetricController
update_end_clients c =
    if c.changed
    then record c { changed = false; end_clients = map (write_frame c.metrics) c.end_clients }
    else c

-- The writer of the end client takes a map.
abbrev pub take_map : List AllMetrics → Option (AllMetrics × List AllMetrics)
take_map [] = none
take_map (m ∷ ms) = some (m, ms)

-- `MetricUpdate`, by its parameters.
abbrev pub metric_update_method : Method
metric_update_method =
    Method.func (GoType.named (codes "RPCArgs") ∷ GoType.ptr (GoType.named (codes "RPCReply")) ∷ [])

-- `WSAPI_RPCCount`, where the upgrade succeeds or not; `none` is the end of the process.
unfoldable pub ws_api_rpc_count : Bool → MetricController → Option MetricController
unfolding new_ws_connection start_rpc_mode
ws_api_rpc_count false c = some c
ws_api_rpc_count true c = do
  w ← start_rpc_mode metric_update_method [] (new_ws_connection Method.no_value)
  some (record c { servers = c.servers ++ (w ∷ []) })

-- `WSWebHost_GetRPCCount`, likewise.
unfoldable pub ws_web_host_get_rpc_count : Bool → MetricController → Option MetricController
unfolding new_ws_connection start_writer
ws_web_host_get_rpc_count false c = some c
ws_web_host_get_rpc_count true c = do
  _ ← start_writer (new_ws_connection Method.no_value)
  some (record c { end_clients = c.end_clients ++ ([] ∷ []) })

unfoldable pub metric_updates : MetricController → List RpcArgs → MetricController
metric_updates c [] = c
metric_updates c (a ∷ reports) = metric_updates (metric_update c a) reports

-- How many reports about the server are of a kind.
abbrev pub count_kind : (MetricKind → ℕ) → ℤ → List RpcArgs → ℕ
count_kind f i [] = 0
count_kind f i (a ∷ reports) = (if eqb_ℤ a.idx i then f a.kind else 0) + count_kind f i reports

abbrev pub is_hb : MetricKind → ℕ
is_hb MetricKind.hb = 1
is_hb _ = 0

abbrev pub is_election : MetricKind → ℕ
is_election MetricKind.election = 1
is_election _ = 0

abbrev pub is_success : MetricKind → ℕ
is_success MetricKind.success_hb = 1
is_success _ = 0

count_rpc-counts :
    (m : Metric) (a : RpcArgs)
    → ((count_rpc m a).hb_rpc ≡ m.hb_rpc + is_hb a.kind)
      × ((count_rpc m a).election_rpc ≡ m.election_rpc + is_election a.kind)
      × ((count_rpc m a).successful_hb ≡ m.successful_hb + is_success a.kind)
unfolding count_rpc
count_rpc-counts m a = ground arith

metric_of-update :
    (c : MetricController) (a : RpcArgs) (i : ℤ)
    → metric_of (metric_update c a).metrics i
      ≡ (if eqb_ℤ a.idx i then count_rpc (metric_of c.metrics i) a else metric_of c.metrics i)
unfolding metric_update
metric_of-update c a i =
    ap (metric_at i) (lookup-insert a.idx i (count_rpc (metric_of c.metrics a.idx) a) c.metrics)
    ∙ elim (Bool-cases (eqb_ℤ a.idx i)) [
      | inl e ↦ rw (e, (eqb_ℤ_iff a.idx i).0 e) refl
      | inr e ↦ rw e refl
    ]

-- After any reports, the three counters of a server are what they were and the number of reports of that
-- kind about that server.
pub metric_updates-counts :
    (c : MetricController) (reports : List RpcArgs) (i : ℤ)
    → ((metric_of (metric_updates c reports).metrics i).hb_rpc
        ≡ (metric_of c.metrics i).hb_rpc + count_kind is_hb i reports)
      × ((metric_of (metric_updates c reports).metrics i).election_rpc
          ≡ (metric_of c.metrics i).election_rpc + count_kind is_election i reports)
      × ((metric_of (metric_updates c reports).metrics i).successful_hb
          ≡ (metric_of c.metrics i).successful_hb + count_kind is_success i reports)
unfolding metric_updates
metric_updates-counts c [] i = (omega arith, omega arith, omega arith)
metric_updates-counts c (a ∷ reports) i =
    let rest = metric_updates-counts (metric_update c a) reports i in
    let one = count_rpc-counts (metric_of c.metrics i) a in
    let e = metric_of-update c a i in
    elim (Bool-cases (eqb_ℤ a.idx i)) [ inl b ↦ ground arith | inr b ↦ ground arith ]
