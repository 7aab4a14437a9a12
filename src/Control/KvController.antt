-- ===== src/Control/KvController.antt =====
-- `KVRaftController` of controller/kvraft_controller.go: the handlers that set it up and that take it off
-- the network, and those that hand requests to its server.
use my_raft.Base.{
  ℕ, Bool, true, false, Option, none, some, [], sym, ◌≡◌, refl, ap, pos, if◌then◌else◌, ◌>>=◌,
}
use my_raft.Raft.Data.{StateReply, AgreeReply, ApplyMsg}
use my_raft.Kv.Server.{
  Kv, Op, Err, PutAppendArgs, PutAppendReply, GetReply, Handling, replied, put_reply,
  start_kv_server, begin_get, begin_put_append, apply,
}
use my_raft.Control.Peers.{Details, store_bool, load_bool}
use my_raft.Control.Urls.{Bound}
use my_raft.Control.Urls.Tables.{kv_raft_bound}

-- The client of the Raft server, which the key-value server has too.
pub record RaftClient : Type 0 where
  pub bound : Bound
  pub is_blocked : ℕ

pub record KvController : Type 0 where
  pub me : ℕ
  pub kv : Option Kv
  pub client : Option RaftClient

abbrev pub make_kv_controller : KvController
make_kv_controller = record { me = 0; kv = none; client = none }

-- `StartKVRaft`
abbrev pub start_kv_raft : RaftClient → KvController → KvController
start_kv_raft client c = record c { kv = some start_kv_server; client = some client }

unfoldable pub api_init_raft : Details → KvController → KvController
api_init_raft d c =
    start_kv_raft (record { bound = kv_raft_bound d; is_blocked = store_bool false })
      (record c { me = d.id })

abbrev set_blocked : Bool → Option RaftClient → Option RaftClient
set_blocked b none = none
set_blocked b (some client) = some (record client { is_blocked = store_bool b })

unfoldable pub api_stop : KvController → KvController
api_stop c = record c { client = set_blocked true c.client }

unfoldable pub api_start : KvController → KvController
api_start c = record c { client = set_blocked false c.client }

-- The answer to a call of the client, where the HTTP call would give this one; `none` is `false`.
abbrev pub client_call : {A : Type 0} → Option RaftClient → Option A → Option A
client_call none answer = none
client_call (some client) answer = if load_bool client.is_blocked then none else answer

-- A request before the server is there is a panic: `none`. `state` and `agreed` are what the HTTP calls to
-- the Raft server would answer.
unfoldable pub api_get :
    Option StateReply
    → Option AgreeReply
    → Op
    → KvController
    → Option (KvController × Handling GetReply)
api_get state agreed op c = do
  kv ← c.kv
  let (kv, h) = begin_get kv op (client_call c.client state) (client_call c.client agreed)
  some (record c { kv = some kv }, h)

unfoldable pub api_put_append :
    Option StateReply
    → Option AgreeReply
    → PutAppendArgs
    → KvController
    → Option (KvController × Handling PutAppendReply)
api_put_append state agreed args c = do
  kv ← c.kv
  let (kv, h) = begin_put_append kv args (client_call c.client state) (client_call c.client agreed)
  some (record c { kv = some kv }, h)

-- The message goes to the goroutine that applies.
unfoldable pub api_apply : ApplyMsg → KvController → Option KvController
api_apply msg c = do kv ← c.kv; kv ← apply kv msg; some (record c { kv = some kv })

abbrev pub refused_get : GetReply
refused_get = record { wrong_leader = true; err = Err.none_yet; value = [] }

abbrev pub running : ℕ → Kv → RaftClient → KvController
running me kv client = record { me = me; kv = some kv; client = some client }

-- After a stop, a controller with a server and a client answers every get, put and append at once, whatever
-- the Raft server would say, that it is not the leader, and its server is unchanged; a start after the
-- stop gives the controller back where its client was not blocked.
pub api_stop-refuses :
    (me : ℕ) (kv : Kv) (client : RaftClient)
    → let c = running me kv client in
      ((state : Option StateReply) (agreed : Option AgreeReply) (op : Op)
        → api_get state agreed op (api_stop c) ≡ some (api_stop c, replied refused_get))
      × ((state : Option StateReply) (agreed : Option AgreeReply) (args : PutAppendArgs)
          → api_put_append state agreed args (api_stop c)
            ≡ some (api_stop c, replied (put_reply true Err.none_yet (pos 0))))
      × (client.is_blocked ≡ 0 → api_start (api_stop c) ≡ c)
unfolding api_stop api_start api_get api_put_append begin_get begin_put_append
api_stop-refuses me kv client = (
  λ state agreed op. refl,
  λ state agreed args. refl,
  λ e. ap (λ n. running me kv (record client { is_blocked = n })) (sym e),
)
