-- ===== src/Control/Registry/Ready.antt =====
-- The two signals that `serversInit` of controller/controller.go waits for.
use my_raft.Base.{
  ℕ, suc, ◌+◌, ◌==◌, ltb, Bool-cases, inl, inr, true, false, List, [], ◌∷◌, ◌++◌, map, length, ◌≡◌,
  ◌≢◌, refl, ap, ◌∙◌, subst, arith,
}
use my_raft.Control.Peers.{Details}
use my_raft.Control.Registry.{
  Config, Phase, waits_raft, waits_kv, runs, Controller, new_controller, raft_ready,
  add_raft_server, add_kv_server, Registration, raft_server, kv_server, registers,
}

raft_ready-waits : (p : Phase) → p ≢ runs → raft_ready p ≢ runs
raft_ready-waits waits_raft w = λ e. cc
raft_ready-waits waits_kv w = w
raft_ready-waits runs w = w

-- All KV servers have registered, and the goroutine does not run yet.
abbrev pub IsLate : Controller → Type 0
IsLate c = (c.connected_kv ≡ c.n_servers) × (c.phase ≢ runs)

add_raft_server-IsLate :
    (args : Config) (c : Controller) → IsLate c → IsLate (add_raft_server args c)
unfolding add_raft_server
add_raft_server-IsLate args c (full, w) = elim (Bool-cases (ltb c.connected_raft c.n_servers)) [
  | inr b ↦ rw b (full, w)
  | inl b ↦ rw b (
    full,
    elim (Bool-cases (c.connected_raft + 1 == c.n_servers)) [
      | inl e ↦ rw e (raft_ready-waits c.phase w)
      | inr e ↦ rw e w
    ],
  )
]

add_kv_server-IsLate : (args : Details) (c : Controller) → IsLate c → IsLate (add_kv_server args c)
unfolding add_kv_server
add_kv_server-IsLate args c (full, w) = rw full_test (full, w)
  where
    full_test : ltb c.connected_kv c.n_servers ≡ false
    full_test = ground arith

-- Where all KV servers have registered and the goroutine does not run yet, it does not run after any
-- further registrations either.
pub registers-IsLate :
    (c : Controller) (rs : List Registration) → IsLate c → IsLate (registers c rs)
unfolding registers
registers-IsLate c [] v = v
registers-IsLate c (raft_server args ∷ rs) v =
    registers-IsLate (add_raft_server args c) rs (add_raft_server-IsLate args c v)
registers-IsLate c (kv_server args ∷ rs) v =
    registers-IsLate (add_kv_server args c) rs (add_kv_server-IsLate args c v)

kv_stage :
    (c : Controller) (d : Details) (ds : List Details)
    → c.phase ≡ waits_kv
    → c.connected_kv + suc (length ds) ≡ c.n_servers
    → (registers c (map kv_server (d ∷ ds))).phase ≡ runs
unfolding registers add_kv_server
kv_stage c d [] w n = rw (room, last, w) refl
  where
    room : ltb c.connected_kv c.n_servers ≡ true
    room = ground arith

    last : (c.connected_kv + 1 == c.n_servers) ≡ true
    last = ground arith
kv_stage c d (e ∷ ds) w n =
    kv_stage (add_kv_server d c) e ds (rw (room, more) w) (rw room (omega arith))
  where
    room : ltb c.connected_kv c.n_servers ≡ true
    room = ground arith

    more : (c.connected_kv + 1 == c.n_servers) ≡ false
    more = ground arith

-- The state when all Raft servers have registered and no KV server has.
abbrev IsReady : ℕ → Controller → Type 0
IsReady n c = (c.phase ≡ waits_kv) × (c.connected_kv ≡ 0) × (c.n_servers ≡ n)

raft_stage :
    (c : Controller) (d : Config) (ds : List Config) (rs : List Registration)
    → c.phase ≡ waits_raft
    → c.connected_kv ≡ 0
    → c.connected_raft + suc (length ds) ≡ c.n_servers
    → (c' : Controller) × (registers c (map raft_server (d ∷ ds) ++ rs) ≡ registers c' rs)
      × IsReady c.n_servers c'
unfolding registers add_raft_server
raft_stage c d [] rs w z n = (add_raft_server d c, refl, rw (room, last, w) (refl, z, refl))
  where
    room : ltb c.connected_raft c.n_servers ≡ true
    room = ground arith

    last : (c.connected_raft + 1 == c.n_servers) ≡ true
    last = ground arith
raft_stage c d (e ∷ ds) rs w z n =
    let next =
      raft_stage (add_raft_server d c) e ds rs (rw (room, more) w) (rw room z)
        (rw room (omega arith)) in
    (next.0, next.1, subst (λ m. IsReady m next.0) (rw room refl) next.2)
  where
    room : ltb c.connected_raft c.n_servers ≡ true
    room = ground arith

    more : (c.connected_raft + 1 == c.n_servers) ≡ false
    more = ground arith

-- Where all Raft servers register before the KV servers, as many of each as the controller was made for, and
-- one at least, the goroutine runs in the end.
pub registers-runs :
    (d : Config) (ds : List Config) (e : Details) (es : List Details)
    → length es ≡ length ds
    → (registers
        (new_controller (suc (length ds)))
        (map raft_server (d ∷ ds) ++ map kv_server (e ∷ es))).phase
      ≡ runs
unfolding new_controller
registers-runs d ds e es n =
    let (c, r, (w, z, m)) =
      raft_stage (new_controller (suc (length ds))) d ds (map kv_server (e ∷ es)) refl refl
        (omega arith) in
    ap (λ (c : Controller). c.phase) r ∙ kv_stage c e es w (omega arith)
