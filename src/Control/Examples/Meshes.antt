-- ===== src/Control/Examples/Meshes.antt =====
-- The theorem on websockets between Raft controllers (controller/) at three controllers.
use my_raft.Base.{
  ℕ, zero, suc, ◌<◌, true, false, none, some, List, [], ◌∷◌, get_elem?, length, ◌≡◌, ◌≢◌, refl,
  arith,
}
use my_raft.Control.Peers.{RClient, RaftController, absent, start_raft, start_clients}
use my_raft.Control.Registry.{Config, no_config, connects, ws_calls}
use my_raft.Control.Mesh.{Fleet, serve_calls}
use my_raft.Control.Mesh.Connects.{IsFleet, HasAt}
use my_raft.Control.Mesh.Pairs.{AreNumbered, ws_calls-start}

abbrev config : ℕ → Config
config i = record no_config {
  raft_connect = record { addr = []; port = 65010; id = i; reply_full_path = [] };
}

abbrev details : List Config
details = config 0 ∷ config 1 ∷ config 2 ∷ []

abbrev unconnected : RClient
unconnected = record { addr = []; port = 65010; own = false; ws = absent; is_blocked = 0 }

abbrev fresh : ℕ → RaftController
fresh i = record {
  me = i;
  clients = unconnected ∷ unconnected ∷ unconnected ∷ [];
  kv_server = none;
  metric_ws = absent;
}

abbrev fleet : Fleet
fleet = fresh 0 ∷ fresh 1 ∷ fresh 2 ∷ []

details-AreNumbered : AreNumbered (connects details)
details-AreNumbered zero d e = ground arith
details-AreNumbered (suc zero) d e = ground arith
details-AreNumbered (suc (suc zero)) d e = ground arith
details-AreNumbered (suc (suc (suc i))) d e = cc

fleet-me : (i : ℕ) (rc : RaftController) → get_elem? fleet i ≡ some rc → rc.me ≡ i
fleet-me zero rc e = ground arith
fleet-me (suc zero) rc e = ground arith
fleet-me (suc (suc zero)) rc e = ground arith
fleet-me (suc (suc (suc i))) rc e = cc

fleet-peers : (i : ℕ) (rc : RaftController) → get_elem? fleet i ≡ some rc → length rc.clients ≡ 3
fleet-peers zero rc e = ground arith
fleet-peers (suc zero) rc e = ground arith
fleet-peers (suc (suc zero)) rc e = ground arith
fleet-peers (suc (suc (suc i))) rc e = cc

fleet-IsFleet : IsFleet 3 fleet
fleet-IsFleet = record { size = refl; numbered = fleet-me; peers = fleet-peers }

-- Before the calls there is no connection to start.
unconnected_test : start_raft (fresh 0) ≡ none
unfolding start_raft start_clients
unconnected_test = refl

ws_calls-start_example :
    (fleet' : Fleet) × (serve_calls
        (λ i j. true)
        (ws_calls (λ s. true) (connects details) 0 details)
        fleet
      ≡ some fleet')
    × ((i j : ℕ) → i ≢ j → i < 3 → j < 3 → HasAt fleet' i j)
    × ((i : ℕ) (rc : RaftController)
        → get_elem? fleet' i ≡ some rc
        → (rc' : RaftController) × (start_raft rc ≡ some rc'))
ws_calls-start_example =
    ws_calls-start details (λ i j. true) (λ s. true) fleet (λ i j. refl) (λ s. refl)
      details-AreNumbered fleet-IsFleet
