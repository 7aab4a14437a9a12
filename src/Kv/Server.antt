-- ===== src/Kv/Server.antt =====
-- The struct `RaftKV` of kvraft/server.go: the goroutine that reads `applyCh`, `Get` and
-- `PutAppend`. A call that waits on a channel is split where it waits.
pub mod Refines
pub mod Answers
pub mod Replay
pub mod Session
use my_raft.Base.{
  ℤ, pos, eqb_ℤ, if◌then◌else◌, Bool, true, false, not, ◌&&◌, Option, none, some, List, [], ◌∷◌,
  ◌++◌, Bytes, ◌>>=◌,
}
use my_raft.Base.Assoc.{Key, bytes_key, int_key, lookup, insert, eq_bytes}
use my_raft.Raft.Data.{ApplyMsg, Command, null, object, other, StateReply, AgreeReply}
use my_raft.Kv.Command.{
  append_op, put_op, get_op, key_value_separator, parse_cmd, split_put_append_cmd,
}

pub record Op : Type 0 where
  pub context_id : Bytes
  pub cmd : Bytes

pub data Err : Type 0 where
  none_yet ok no_key : Err

pub record PutAppendArgs : Type 0 where
  pub op : Op
  pub idx : ℤ

pub record PutAppendReply : Type 0 where
  pub wrong_leader : Bool
  pub err : Err
  pub idx : ℤ

pub record GetReply : Type 0 where
  pub wrong_leader : Bool
  pub err : Err
  pub value : Bytes

-- What goes through a channel of `ops`.
pub record Answer : Type 0 where
  pub val : Bytes
  pub is_ok : Bool

-- What goes to `errCh`, with the index of the message.
pub data Complaint : Type 0 where
  already no_object : ℤ → Complaint

-- A channel of `ops` holds one answer at most.
pub record Kv : Type 0 where
  pub log : List (ℤ × Bytes)
  pub db : List (Bytes × Bytes)
  pub ops : List (ℤ × Option Answer)
  pub context : List (Bytes × ℤ)
  pub complaints : List Complaint  -- newest first

-- `StartKVServer`, but for its goroutines.
unfoldable pub start_kv_server : Kv
start_kv_server = record { log = []; db = []; ops = []; context = []; complaints = [] }

-- A channel is made where there is none.
unfoldable pub ensure : List (ℤ × Option Answer) → ℤ → List (ℤ × Option Answer)
ensure ops i = elim (lookup i ops) [ none ↦ insert i none ops | some slot ↦ ops ]

-- A send that does not wait: it is dropped where the channel is full or missing.
unfoldable pub offer : List (ℤ × Option Answer) → ℤ → Answer → List (ℤ × Option Answer)
offer ops i a = elim (lookup i ops) [
  | none ↦ ops
  | some slot ↦ elim slot [ none ↦ insert i (some a) ops | some b ↦ ops ]
]

abbrev pub answer : Kv → ℤ → Answer → Kv
answer kv i a = record kv { ops = offer (ensure kv.ops i) i a }

unfoldable pub append_value : List (Bytes × Bytes) → Bytes → Bytes → List (Bytes × Bytes)
append_value db k v = elim (lookup k db) [
  | none ↦ insert k v db
  | some old ↦ insert k (old ++ v) db
]

abbrev pub get_answer : List (Bytes × Bytes) → Bytes → Bytes → Answer
get_answer db cmd key = elim (lookup key db) [
  | none ↦ record { val = []; is_ok = false }
  | some v ↦ record { val = cmd ++ (key_value_separator ++ v); is_ok = true }
]

-- The `switch` on the op.
unfoldable pub execute : Kv → ℤ → Bytes → Bytes × Bytes → Kv
unfolding ensure offer append_value
execute kv i cmd (op, val) =
    let (k, v) = split_put_append_cmd val in
    if eq_bytes op put_op
    then answer (record kv { db = insert k v kv.db }) i (record { val = cmd; is_ok = true })
    else if eq_bytes op append_op
    then answer (record kv { db = append_value kv.db k v }) i (record { val = cmd; is_ok = true })
    else if eq_bytes op get_op
    then answer kv i (get_answer kv.db cmd val)
    else kv

-- A message whose index is new.
unfoldable pub apply_new : Kv → ℤ → Bytes → Bytes → Kv
apply_new kv i cmd context_id =
    execute (record kv { log = insert i cmd kv.log; context = insert context_id i kv.context }) i
      cmd (parse_cmd cmd)

-- A message whose index is in the log.
unfoldable pub apply_old : Kv → ℤ → Bytes → Kv
unfolding offer
apply_old kv i old = record kv {
  complaints = already i ∷ kv.complaints;
  ops = offer kv.ops i (record { val = old; is_ok = true });
}

-- One message from `applyCh`; `none` is the panic of a type assertion.
unfoldable pub apply : Kv → ApplyMsg → Option Kv
unfolding apply_old
apply kv msg = elim msg.command [
  | object cmd context_id ↦ elim (lookup msg.index kv.log) [
    | some old ↦ some (apply_old kv msg.index old)
    | none ↦ do cmd ← cmd; context_id ← context_id; some (apply_new kv msg.index cmd context_id)
  ]
  | null ↦ some (record kv { complaints = no_object msg.index ∷ kv.complaints })
  | other text ↦ some (record kv { complaints = no_object msg.index ∷ kv.complaints })
]

unfoldable pub apply_msgs : Kv → List ApplyMsg → Option Kv
apply_msgs kv [] = some kv
apply_msgs kv (m ∷ ms) = do kv ← apply kv m; apply_msgs kv ms

-- A handler has replied, or waits on the channel of an index.
pub data Handling (R : Type 0) : Type 0 where
  replied : R → Handling R
  waits : ℤ → Handling R

abbrev wrong_leader_get : Bool → GetReply
wrong_leader_get b = record { wrong_leader = b; err = Err.none_yet; value = [] }

-- `Get` up to its wait. The calls of `Raft.ReturnState` and `Raft.Agree` gave these replies, `none`
-- where a call failed.
unfoldable pub begin_get : Kv → Op → Option StateReply → Option AgreeReply → Kv × Handling GetReply
unfolding ensure
begin_get kv op none agreed = (kv, replied (wrong_leader_get true))
begin_get kv op (some state) agreed =
    if not state.is_leader then (kv, replied (wrong_leader_get true)) else elim agreed [
      | none ↦ (kv, replied (wrong_leader_get false))
      | some reply ↦ (
        record kv {
          context = insert op.context_id reply.index kv.context;
          ops = ensure kv.ops reply.index;
        },
        waits reply.index,
      )
    ]

-- The answer is taken from the channel and put back; `none` while there is none.
abbrev pub slot_answer : Option (Option Answer) → Option Answer
slot_answer none = none
slot_answer (some slot) = slot

abbrev pub received : Kv → ℤ → Option Answer
received kv i = slot_answer (lookup i kv.ops)

-- The rest of `Get`.
unfoldable pub end_get : Kv → Op → ℤ → Option GetReply
end_get kv op i = do
  re ← received kv i
  let (key, val) = split_put_append_cmd re.val
  some (
      if eq_bytes key op.cmd
      then record { wrong_leader = false; err = Err.ok; value = val }
      else record { wrong_leader = false; err = Err.no_key; value = [] })

abbrev pub put_reply : Bool → Err → ℤ → PutAppendReply
put_reply b e i = record { wrong_leader = b; err = e; idx = i }

-- The first call of a client, with index 0. The `idx` that is replied is the one that the map gave
-- and not the one that `Agree` gave: that is bound to another variable of the same name.
unfoldable pub register : Kv → PutAppendArgs → Option AgreeReply → Kv × Handling PutAppendReply
register kv args agreed = elim (lookup args.op.context_id kv.context) [
  | some i ↦ (kv, replied (put_reply false Err.ok i))
  | none ↦ elim agreed [
    | none ↦ (kv, replied (put_reply false Err.none_yet (pos 0)))
    | some reply ↦ (
      record kv { context = insert args.op.context_id reply.index kv.context },
      replied (put_reply false Err.ok (pos 0)),
    )
  ]
]

-- `PutAppend` up to its wait.
unfoldable pub begin_put_append :
    Kv → PutAppendArgs → Option StateReply → Option AgreeReply → Kv × Handling PutAppendReply
unfolding ensure register
begin_put_append kv args none agreed = (kv, replied (put_reply true Err.none_yet (pos 0)))
begin_put_append kv args (some state) agreed =
    if not state.is_leader
    then (kv, replied (put_reply true Err.none_yet (pos 0)))
    else if eqb_ℤ args.idx (pos 0)
    then register kv args agreed
    else (record kv { ops = ensure kv.ops args.idx }, waits args.idx)

-- The rest of `PutAppend`.
unfoldable pub end_put_append : Kv → PutAppendArgs → Option PutAppendReply
end_put_append kv args = do
  re ← received kv args.idx
  some (
      if re.is_ok && eq_bytes re.val args.op.cmd
      then put_reply false Err.ok (pos 0)
      else put_reply false Err.no_key (pos 0))
