-- ===== src/Kv/Server/Session.antt =====
-- The calls of one client's write to `RaftKV.PutAppend` (kvraft/server.go): it is handed to the Raft server
-- once, and the client learns its index.
use my_raft.Base.{
  ℤ, pos, eqb_ℤ, eqb_ℤ_iff, ◌≡◌, ◌≢◌, refl, ◌∙◌, true, false, Option, none, some, arith,
}
use my_raft.Base.Assoc.{bytes_key, lookup, insert, lookup-insert_self}
use my_raft.Raft.Data.{StateReply, AgreeReply}
use my_raft.Kv.Server.{
  Kv, Err, PutAppendArgs, replied, waits, put_reply, register, begin_put_append, ensure,
}

-- The Raft server has accepted the command, at this index.
abbrev pub registered : Kv → PutAppendArgs → ℤ → Kv
registered kv args i = record kv { context = insert args.op.context_id i kv.context }

module _ (kv : Kv) (args : PutAppendArgs) (state : StateReply) (leads : state.is_leader ≡ true)
    (first : args.idx ≡ pos 0) where
  begin-register :
      (agreed : Option AgreeReply)
      → begin_put_append kv args (some state) agreed ≡ register kv args agreed
  unfolding begin_put_append
  begin-register agreed = rw (leads, first) refl

-- At a leader, the first call of a write whose context is new replies the index 0 and keeps the index that
-- `Agree` gave. Any further call with the index 0, whatever `Agree` would say, changes nothing and replies
-- the index that was kept; and a call with that index, where it is not 0, waits for it.
pub put_append-registers :
    (kv : Kv) (args : PutAppendArgs) (state state' : StateReply) (reply : AgreeReply)
    (agreed agreed' : Option AgreeReply)
    → state.is_leader ≡ true
    → state'.is_leader ≡ true
    → args.idx ≡ pos 0
    → lookup args.op.context_id kv.context ≡ none
    → reply.index ≢ pos 0
    → let kv' = registered kv args reply.index in
      (begin_put_append kv args (some state) (some reply)
        ≡ (kv', replied (put_reply false Err.ok (pos 0))))
      × (begin_put_append kv' args (some state') agreed
          ≡ (kv', replied (put_reply false Err.ok reply.index)))
      × (begin_put_append kv' (record args { idx = reply.index }) (some state') agreed'
          ≡ (record kv' { ops = ensure kv'.ops reply.index }, waits reply.index))
unfolding begin_put_append register
put_append-registers kv args state state' reply agreed agreed' leads leads' first new other =
    let kept = lookup-insert_self args.op.context_id reply.index kv.context in
    let not_first : eqb_ℤ reply.index (pos 0) ≡ false =
      ground (arith, eqb_ℤ_iff reply.index (pos 0)) in
    (
      begin-register kv args state leads first (some reply) ∙ rw (register, new) refl,
      begin-register (registered kv args reply.index) args state' leads' first agreed
          ∙ rw (register, kept) refl,
      rw (leads', not_first) refl,
    )
