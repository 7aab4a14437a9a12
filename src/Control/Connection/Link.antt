-- ===== src/Control/Connection/Link.antt =====
-- The two ends of a websocket (controller/data/wsconnection.go) in RPC mode: calls at the left end are
-- answered by the handler of the right end, with the steps of the four goroutines in any order.
pub mod Flight
pub mod Tracks
pub mod Moves
pub mod Returns
pub mod Answers
use my_raft.Base.{
  ℕ, Option, none, some, List, [], ◌∷◌, ◌++◌, Bytes, ◌>>=◌, get_elem?, set, Bool, true, false,
}
use my_raft.Control.Connection.{
  Frame, WsConnection, write_and_receive, ws_read, ws_write, get_method_arg_type,
}

-- A call of `WriteAndReceive`: its arguments, and the value of its reply before.
pub record Call : Type 0 where
  pub args : Bytes
  pub value : Bytes

-- What the call returns with.
abbrev pub answer_of : (Bytes → Option Bytes) → Call → Bytes
answer_of handler c = elim (handler c.args) [ none ↦ c.value | some r ↦ r ]

-- `to_right` and `to_left` are frames on their way; `waiting` has, for each channel of the left end, the
-- call that waits on it; `finished` are the calls that have returned, with their replies.
pub record Link : Type 0 where
  pub left : WsConnection
  pub right : WsConnection
  pub to_right : List Frame
  pub to_left : List Frame
  pub waiting : List (Option Call)
  pub finished : List (Call × Bytes)

pub data Event : Type 0 where
  calls : Bytes → Bytes → Event
  left_writes right_writes left_reads right_reads : Event
  returns : ℕ → Event

abbrev pub slot_of : Option (Option Call) → Option Call
slot_of none = none
slot_of (some c) = c

abbrev pub waiter : Link → ℕ → Option Call
waiter k i = slot_of (get_elem? k.waiting i)

-- One event; nothing happens where it cannot, and `none` is a panic.
unfoldable pub link_step :
    (left_handler right_handler : Bytes → Option Bytes) → Link → Event → Option Link
link_step g h k (calls args value) = do
  (w, i) ← write_and_receive k.left args value
  elim i [
    | none ↦ some (record k { left = w })
    | some i ↦ some (record k {
      left = w;
      waiting = set k.waiting i (some (record { args = args; value = value }));
    })
  ]
link_step g h k left_writes = elim (ws_write k.left) [
  | none ↦ some k
  | some (f, w) ↦ some (record k { left = w; to_right = k.to_right ++ (f ∷ []) })
]
link_step g h k right_writes = elim (ws_write k.right) [
  | none ↦ some k
  | some (f, w) ↦ some (record k { right = w; to_left = k.to_left ++ (f ∷ []) })
]
link_step g h k right_reads = elim k.to_right [
  | [] ↦ some k
  | f ∷ fs ↦ do w ← ws_read k.right (some h) f; some (record k { right = w; to_right = fs })
]
link_step g h k left_reads = elim k.to_left [
  | [] ↦ some k
  | f ∷ fs ↦ do w ← ws_read k.left (some g) f; some (record k { left = w; to_left = fs })
]
link_step g h k (returns i) = elim (waiter k i) [
  | none ↦ some k
  | some c ↦ elim (get_elem? k.left.replies i) [
    | none ↦ some k
    | some slot ↦ elim slot [
      | [] ↦ some k
      | f ∷ fs ↦ some (record k {
        left = record k.left { replies = set k.left.replies i fs };
        waiting = set k.waiting i none;
        finished = (c, f.reply) ∷ k.finished;
      })
    ]
  ]
]

unfoldable pub link_steps :
    (left_handler right_handler : Bytes → Option Bytes) → Link → List Event → Option Link
link_steps g h k [] = some k
link_steps g h k (e ∷ es) = do k ← link_step g h k e; link_steps g h k es
