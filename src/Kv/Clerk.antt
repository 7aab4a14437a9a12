-- ===== src/Kv/Clerk.antt =====
-- The `Clerk` of raftclient/client/client.go. Its loops are run on the list of the outcomes of
-- their calls, in order; `none` says that the loop still runs when the list is at its end.
pub mod Range
pub mod Confirmed
use my_raft.Base.{
  ℕ, ◌+◌, ℤ, pos, negsuc, ltb_ℤ, ltb, if◌then◌else◌, Bool, true, false, not, ◌&&◌, ◌||◌, Option,
  none, some, List, [], ◌∷◌, Bytes,
}
use my_raft.Base.Assoc.{eq_bytes}
use my_raft.Kv.Command.{append_op, put_op, get_cmd, put_append_cmd}
use my_raft.Kv.Server.{Err, GetReply, PutAppendReply, PutAppendArgs, Op}

pub record Clerk : Type 0 where
  pub servers : ℕ  -- len(ck.servers)
  pub last_leader : ℤ

unfoldable pub make_clerk : ℕ → Clerk
make_clerk n = record { servers = n; last_leader = negsuc 0 }

-- What a call gives: whether it went through, and what stands in the reply then.
pub record Outcome (R : Type 0) : Type 0 where
  pub reached : Bool
  pub reply : R

-- The next call: to a server of the `for` over the servers, or to the last leader.
pub data Place : Type 0 where
  trying : ℕ → Place
  asking : Place

-- The head of the outer loop.
abbrev pub enter : Clerk → Place
enter ck = if ltb_ℤ ck.last_leader (pos 0) then trying 0 else asking

-- The head of the `for` over the servers.
abbrev pub next_server : Clerk → ℕ → Place
next_server ck i = if ltb (i + 1) ck.servers then trying (i + 1) else enter ck

abbrev pub is_ok : Err → Bool
is_ok Err.ok = true
is_ok _ = false

abbrev pub is_no_key : Err → Bool
is_no_key Err.no_key = true
is_no_key _ = false

-- One round of a loop leads to the next call or to the end.
pub data Round (S R : Type 0) : Type 0 where
  again : S → Place → Round S R
  done : S → R → Round S R

abbrev pub no_key_text : Bytes
no_key_text = b'N' ∷ b'o' ∷ b' ' ∷ b'k' ∷ b'e' ∷ b'y' ∷ []

abbrev pub set_leader : Clerk → ℤ → Clerk
set_leader ck i = record ck { last_leader = i }

-- What `Get` does with the outcome of a call.
unfoldable pub get_round : Clerk → Place → Outcome GetReply → Round Clerk Bytes
get_round ck (trying i) c =
    if is_no_key c.reply.err
    then done ck no_key_text
    else if not c.reached || c.reply.wrong_leader
    then again ck (next_server ck i)
    else if is_ok c.reply.err
    then done (set_leader ck (pos i)) c.reply.value
    else again (set_leader ck (pos i)) (next_server (set_leader ck (pos i)) i)
get_round ck asking c =
    if is_no_key c.reply.err
    then done ck no_key_text
    else if not c.reached || c.reply.wrong_leader
    then again (set_leader ck (negsuc 0)) (trying 0)
    else if is_ok c.reply.err
    then done ck c.reply.value
    else again ck asking

unfoldable pub get_loop : Clerk → Place → List (Outcome GetReply) → Option (Clerk × Bytes)
get_loop ck at [] = none
get_loop ck at (c ∷ cs) = elim (get_round ck at c) [
  | again ck at ↦ get_loop ck at cs
  | done ck v ↦ some (ck, v)
]

-- `Get`. A clerk without servers goes round for ever.
unfoldable pub get : Clerk → List (Outcome GetReply) → Option (Clerk × Bytes)
get ck cs = if ltb 0 ck.servers then get_loop ck (enter ck) cs else none

-- A clerk in `PutAppend`, with the `Idx` of its arguments. `Tries` is written and not read.
pub record Putting : Type 0 where
  pub clerk : Clerk
  pub idx : ℤ

-- What `PutAppend` does with a reply of the leader; `none` is its return.
unfoldable pub acknowledge : ℤ → PutAppendReply → Option ℤ
acknowledge idx reply =
    if is_ok reply.err
    then if ltb_ℤ (pos 0) idx then none else some (if ltb_ℤ idx reply.idx then reply.idx else idx)
    else if ltb_ℤ (pos 0) idx && is_no_key reply.err
    then some (pos 0)
    else some idx

abbrev pub continue : Clerk → Option ℤ → Round Putting Unit
continue ck none = done (record { clerk = ck; idx = pos 0 }) tt
continue ck (some idx) = again (record { clerk = ck; idx = idx }) (enter ck)

abbrev pub retry : Putting → Clerk → Round Putting Unit
retry p ck = again (record p { clerk = ck }) (enter ck)

unfoldable pub put_round : Putting → Place → Outcome PutAppendReply → Round Putting Unit
unfolding acknowledge
put_round p (trying i) c =
    if not c.reached || c.reply.wrong_leader
    then again p (next_server p.clerk i)
    else continue (set_leader p.clerk (pos i)) (acknowledge p.idx c.reply)
put_round p asking c =
    if not c.reached || c.reply.wrong_leader
    then retry p (if c.reply.wrong_leader then set_leader p.clerk (negsuc 0) else p.clerk)
    else continue p.clerk (acknowledge p.idx c.reply)

unfoldable pub put_loop : Putting → Place → List (Outcome PutAppendReply) → Option Clerk
put_loop p at [] = none
put_loop p at (c ∷ cs) = elim (put_round p at c) [
  | again p at ↦ put_loop p at cs
  | done p u ↦ some p.clerk
]

-- The arguments of the first call of `PutAppend`; `none` where the op is no put and no append.
unfoldable pub put_append_args : (context_id op key value : Bytes) → Option PutAppendArgs
put_append_args context_id op key value =
    if eq_bytes op put_op || eq_bytes op append_op
    then some (record {
      op = record { context_id = context_id; cmd = put_append_cmd op key value };
      idx = pos 0;
    })
    else none

-- `PutAppend`, with the op, the key and the value of its arguments.
unfoldable pub put_append :
    Clerk → (context_id op key value : Bytes) → List (Outcome PutAppendReply) → Option Clerk
unfolding put_append_args
put_append ck context_id op key value cs = elim (put_append_args context_id op key value) [
  | none ↦ some ck
  | some args ↦
      if ltb 0 ck.servers
      then put_loop (record { clerk = ck; idx = args.idx }) (enter ck) cs
      else none
]
