-- ===== src/Kv/Calls.antt =====
-- The calls of a `Clerk` (raftclient/client/client.go) to the `RaftKV` servers (kvraft/server.go): each
-- handler as a whole, and the loops of the clerk together with the servers that answer them.
pub mod Written
pub mod Read
pub mod Lost
use my_raft.Base.{
  ℕ, ℤ, pos, negsuc, true, Option, none, some, List, [], ◌∷◌, Bytes, get_elem?, set, ◌>>=◌,
}
use my_raft.Raft.Data.{ApplyMsg, StateReply, AgreeReply}
use my_raft.Kv.Server.{
  Kv, Op, PutAppendArgs, PutAppendReply, GetReply, Handling, replied, waits, begin_get, end_get,
  begin_put_append, end_put_append, apply_msgs,
}
use my_raft.Kv.Clerk.{
  Clerk, Place, trying, asking, Round, again, done, Putting, put_round, get_round,
}

-- What a call meets: the replies of the Raft server, and the messages that it hands over until the
-- handler returns.
pub record Turn : Type 0 where
  pub state : Option StateReply
  pub agreed : Option AgreeReply
  pub msgs : List ApplyMsg

-- `PutAppend` as a whole; `none` where it waits and the messages do not answer it.
unfoldable pub serve_put : Kv → PutAppendArgs → Turn → Option (Kv × PutAppendReply)
serve_put kv args t =
    let (kv, h) = begin_put_append kv args t.state t.agreed in
    do
      kv ← apply_msgs kv t.msgs
      elim h [ replied r ↦ some (kv, r) | waits i ↦ do r ← end_put_append kv args; some (kv, r) ]

-- `Get` as a whole.
unfoldable pub serve_get : Kv → Op → Turn → Option (Kv × GetReply)
serve_get kv op t =
    let (kv, h) = begin_get kv op t.state t.agreed in
    do
      kv ← apply_msgs kv t.msgs
      elim h [ replied r ↦ some (kv, r) | waits i ↦ do r ← end_get kv op i; some (kv, r) ]

-- The server that is called; `none` is an index out of range.
unfoldable pub called : Clerk → Place → Option ℕ
called ck (trying i) = some i
called ck asking = elim ck.last_leader [ pos l ↦ some l | negsuc l ↦ none ]

-- The loop of `PutAppend`, whose calls all come back, with the servers.
unfoldable pub put_calls :
    List Turn → PutAppendArgs → Putting → Place → List Kv → Option (Clerk × List Kv)
unfolding serve_put called
put_calls [] args p at kvs = none
put_calls (t ∷ ts) args p at kvs = do
  i ← called p.clerk at
  kv ← get_elem? kvs i
  (kv, reply) ← serve_put kv (record args { idx = p.idx }) t
  elim (put_round p at (record { reached = true; reply = reply })) [
    | again q to ↦ put_calls ts args q to (set kvs i kv)
    | done q u ↦ some (q.clerk, set kvs i kv)
  ]

-- The loop of `Get`.
unfoldable pub get_calls :
    List Turn → Op → Clerk → Place → List Kv → Option (Clerk × Bytes × List Kv)
unfolding serve_get called
get_calls [] op ck at kvs = none
get_calls (t ∷ ts) op ck at kvs = do
  i ← called ck at
  kv ← get_elem? kvs i
  (kv, reply) ← serve_get kv op t
  elim (get_round ck at (record { reached = true; reply = reply })) [
    | again ck to ↦ get_calls ts op ck to (set kvs i kv)
    | done ck v ↦ some (ck, v, set kvs i kv)
  ]
