-- ===== src/Control/Registry/Numbering.antt =====
-- The tables and the ids of controller/controller.go.
use my_raft.Base.{
  ℕ, ◌<◌, ◌≤◌, ◌==◌, ==_iff, ltb, Bool-cases, inl, inr, some, List, [], ◌∷◌, length, get_elem?,
  get_elem?-set, get_elem?-set_other, length-set, length-replicate, ◌≡◌, sym, ap, ◌∙◌, arith,
}
use my_raft.Control.Peers.{Details}
use my_raft.Control.Registry.{
  Config, Controller, no_details, no_config, new_controller, numbered, add_raft_server,
  add_kv_server, Registration, raft_server, kv_server, registers,
}

-- The tables have an entry for each server, and the servers that registered have their positions as
-- ids.
pub record IsNumbered (c : Controller) : Type 0 where
  pub raft_len : length c.raft_details ≡ c.n_servers
  pub kv_len : length c.kv_details ≡ c.n_servers
  pub raft_bound : c.connected_raft ≤ c.n_servers
  pub kv_bound : c.connected_kv ≤ c.n_servers
  pub ids :
      (i : ℕ)
      → i < c.connected_raft
      → (d : Config) × (get_elem? c.raft_details i ≡ some d) × (d.raft_connect.id ≡ i)

add_raft_server-IsNumbered :
    (args : Config) (c : Controller) → IsNumbered c → IsNumbered (add_raft_server args c)
unfolding add_raft_server
add_raft_server-IsNumbered args c v = elim (Bool-cases (ltb c.connected_raft c.n_servers)) [
  | inr b ↦ rw b v
  | inl b ↦ rw b (record {
    raft_len = length-set c.raft_details c.connected_raft _ ∙ v.raft_len;
    kv_len = v.kv_len;
    raft_bound = ground arith;
    kv_bound = v.kv_bound;
    ids = λ i l. elim (Bool-cases (c.connected_raft == i)) [
      | inl e ↦ (
        numbered args c.connected_raft,
        ap (get_elem? _) (sym ((==_iff c.connected_raft i).0 e))
            ∙ get_elem?-set c.raft_details c.connected_raft (numbered args c.connected_raft)
                (ground arith),
        (==_iff c.connected_raft i).0 e,
      )
      | inr e ↦
          let (d, f, g) = v.ids i (ground arith) in
          (
            d,
            get_elem?-set_other c.raft_details c.connected_raft i (numbered args c.connected_raft)
                  (ground (arith, ==_iff c.connected_raft i))
                ∙ f,
            g,
          )
    ];
  })
]

add_kv_server-IsNumbered :
    (args : Details) (c : Controller) → IsNumbered c → IsNumbered (add_kv_server args c)
unfolding add_kv_server
add_kv_server-IsNumbered args c v = elim (Bool-cases (ltb c.connected_kv c.n_servers)) [
  | inr b ↦ rw b v
  | inl b ↦ rw b (record {
    raft_len = v.raft_len;
    kv_len = length-set c.kv_details c.connected_kv _ ∙ v.kv_len;
    raft_bound = v.raft_bound;
    kv_bound = ground arith;
    ids = v.ids;
  })
]

new_controller-IsNumbered : (n : ℕ) → IsNumbered (new_controller n)
unfolding new_controller
new_controller-IsNumbered n = record {
  raft_len = length-replicate n no_config;
  kv_len = length-replicate n no_details;
  raft_bound = omega arith;
  kv_bound = omega arith;
  ids = λ i l. absurd (omega arith);
}

-- Whatever registers, in whatever order and however often, the tables keep their lengths, no more servers
-- are counted than there are entries, and the Raft servers that are counted have their positions as ids.
pub registers-IsNumbered :
    (n : ℕ) (rs : List Registration) → IsNumbered (registers (new_controller n) rs)
unfolding registers
registers-IsNumbered n rs = go (new_controller n) (new_controller-IsNumbered n) rs
  where
    go : (c : Controller) → IsNumbered c → (rs : List Registration) → IsNumbered (registers c rs)
    go c v [] = v
    go c v (raft_server args ∷ rs) =
        go (add_raft_server args c) (add_raft_server-IsNumbered args c v) rs
    go c v (kv_server args ∷ rs) = go (add_kv_server args c) (add_kv_server-IsNumbered args c v) rs
