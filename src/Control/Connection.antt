-- ===== src/Control/Connection.antt =====
-- The calls over a websocket: `WSConnection` of controller/data/wsconnection.go, with the atomic numbers
-- of common/data/atomic_data.go.
pub mod Replies
pub mod Link
use my_raft.Base.{
  ℕ, ◌+◌, ◌%◌, ◌^◌, leb, ltb, if◌then◌else◌, Bool, true, false, Option, none, some, List, [], ◌∷◌,
  ◌++◌, length, Bytes, ◌>>=◌, get_elem?, set, replicate, zero, suc, ◌⊎◌, inl, inr,
}

-- `AtU64`, by its value.
abbrev pub add_u64 : ℕ → ℕ → ℕ
add_u64 a b = (a + b) % 2 ^ 64

abbrev pub connections : ℕ
connections = 256

abbrev pub write_logs : ℕ
write_logs = 128

pub data MsgType : Type 0 where
  need_reply not_reply reply : MsgType

-- An `internalConnection`; the arguments and the reply are JSON texts.
pub record Frame : Type 0 where
  pub msg_type : MsgType
  pub idx : ℕ
  pub args : Bytes
  pub reply : Bytes

-- What reflection shows of a type: a pointer, or another type by its name.
pub data GoType : Type 0 where
  ptr : GoType → GoType
  named : Bytes → GoType

-- What reflection shows of a handler: nil, no function, or a function with its parameters.
pub data Method : Type 0 where
  no_value other_value : Method
  func : List GoType → Method

pub data MethodError : Type 0 where
  no_method not_a_method : MethodError
  parameter_count : ℕ → MethodError

abbrev pub pointee : GoType → GoType
pointee (ptr t) = t
pointee (named n) = named n

-- `getMethodArgType`
unfoldable pub get_method_arg_type : Method → MethodError ⊎ (GoType × GoType)
get_method_arg_type no_value = inl no_method
get_method_arg_type other_value = inl not_a_method
get_method_arg_type (func (a ∷ b ∷ [])) = inr (pointee a, pointee b)
get_method_arg_type (func (p ∷ a ∷ b ∷ [])) = inr (pointee a, pointee b)
get_method_arg_type (func ps) = inl (parameter_count (length ps))

-- `replies` says, for each of the running connections, which replies were sent to its channel. `closed`
-- says that the channels are closed; `readers` and `writers` count the goroutines.
pub record WsConnection : Type 0 where
  pub grpc_mode : Bool
  pub auto_reply : Option Bytes
  pub race_tester : ℕ
  pub readers : ℕ
  pub writers : ℕ
  pub read_handler : Method
  pub types : Option (GoType × GoType)  -- incomingType and outgoingType
  pub capture : List GoType  -- actualParameterValues, by their types
  pub running : ℕ
  pub closed : Bool
  pub write_chnl : List Frame
  pub replies : List (List Frame)

unfoldable pub new_ws_connection : Method → WsConnection
new_ws_connection handler = record {
  grpc_mode = false;
  auto_reply = none;
  race_tester = 0;
  readers = 0;
  writers = 0;
  read_handler = handler;
  types = none;
  capture = [];
  running = 0;
  closed = false;
  write_chnl = [];
  replies = replicate connections [];
}

-- `DialNewWSConnection`, where the dial succeeds or not.
unfoldable pub dial_new_ws_connection : Bool → Method → Option WsConnection
dial_new_ws_connection true handler = some (new_ws_connection handler)
dial_new_ws_connection false handler = none

unfoldable pub set_auto_reply : Bytes → WsConnection → WsConnection
set_auto_reply value w = record w { auto_reply = some value }

unfoldable pub stop_auto_reply : WsConnection → WsConnection
stop_auto_reply w = record w { auto_reply = none }

-- `none` is the end of the process: a third goroutine is fatal.
abbrev count_goroutine : WsConnection → Option WsConnection
count_goroutine w =
    if ltb 2 (w.race_tester + 1) then none else some (record w { race_tester = w.race_tester + 1 })

unfoldable pub start_reader : WsConnection → Option WsConnection
start_reader w = do w ← count_goroutine w; some (record w { readers = w.readers + 1 })

unfoldable pub start_writer : WsConnection → Option WsConnection
start_writer w = do w ← count_goroutine w; some (record w { writers = w.writers + 1 })

abbrev rpc_ready : Method → List GoType → GoType × GoType → WsConnection → WsConnection
rpc_ready handler capture types w = record w {
  types = some types;
  capture = capture;
  grpc_mode = true;
  read_handler = handler;
}

-- `StartRPCMode`, which logs the error and leaves the connection where the handler does not fit.
unfoldable pub start_rpc_mode : Method → List GoType → WsConnection → Option WsConnection
unfolding get_method_arg_type start_reader start_writer
start_rpc_mode handler capture w = elim (get_method_arg_type handler) [
  | inl error ↦ some w
  | inr types ↦ do w ← start_reader (rpc_ready handler capture types w); start_writer w
]

-- A send that is dropped where the buffer is full.
abbrev pub write_frame : {A : Type 0} → A → List A → List A
write_frame f chnl = if ltb (length chnl) write_logs then chnl ++ (f ∷ []) else chnl

-- `Write`; `none` is the panic of a send on a closed channel, here and in what follows.
unfoldable pub write : WsConnection → Frame → Option WsConnection
write w f = if w.closed then none else some (record w { write_chnl = write_frame f w.write_chnl })

abbrev pub next_running : ℕ → ℕ
next_running r = if leb connections (add_u64 r 1) then 0 else add_u64 r 1

abbrev pub request : WsConnection → Bytes → Bytes → Frame
request w arg value = record {
  msg_type = MsgType.need_reply;
  idx = next_running w.running;
  args = arg;
  reply = value;
}

abbrev pub started : WsConnection → Bytes → Bytes → WsConnection
started w arg value = record w {
  running = next_running w.running;
  write_chnl = write_frame (request w arg value) w.write_chnl;
}

-- `WriteAndReceive` up to its wait on the channel of the index; no index where the mode is off.
unfoldable pub write_and_receive : WsConnection → Bytes → Bytes → Option (WsConnection × Option ℕ)
write_and_receive w arg value =
    if w.grpc_mode
    then (if w.closed then none else some (started w arg value, some (next_running w.running)))
    else some (w, none)

-- `WriteMust`, which waits while the buffer is full: `none`, too.
unfoldable pub write_must : WsConnection → Bytes → Option WsConnection
write_must w arg =
    if w.closed
    then none
    else if ltb (length w.write_chnl) write_logs
    then some (record w {
      running = add_u64 w.running 1;
      write_chnl =
          w.write_chnl
          ++ (record { msg_type = MsgType.need_reply; idx = w.running; args = arg; reply = [] }
              ∷ []);
    })
    else none

abbrev pub deliver_reply : WsConnection → Frame → Option WsConnection
deliver_reply w f = do
  slot ← get_elem? w.replies f.idx
  some (record w { replies = set w.replies f.idx (slot ++ (f ∷ [])) })

-- The frame that answers; where the arguments are not decoded, the reply stays as it came.
abbrev pub answered : (Bytes → Option Bytes) → Frame → Frame
answered handler f = elim (handler f.args) [
  | none ↦ record f { msg_type = MsgType.reply }
  | some r ↦ record f { msg_type = MsgType.reply; reply = r }
]

-- A frame that `wsReader` has read from a connection that is open. `handler` is the method with the
-- decoding and the encoding, `none` for a nil function; it gives `none` where the arguments are not decoded.
-- `none` is the panic on an index without a channel.
unfoldable pub ws_read : WsConnection → Option (Bytes → Option Bytes) → Frame → Option WsConnection
ws_read w none f = deliver_reply w f
ws_read w (some handler) f = elim f.msg_type [
  | need_reply ↦ some (record w { write_chnl = w.write_chnl ++ (answered handler f ∷ []) })
  | not_reply ↦ deliver_reply w f
  | reply ↦ deliver_reply w f
]

-- `wsWriter` takes a frame.
unfoldable pub ws_write : WsConnection → Option (Frame × WsConnection)
ws_write w = elim w.write_chnl [ [] ↦ none | f ∷ fs ↦ some (f, record w { write_chnl = fs }) ]

-- The channels from i on that a call waits on.
unfoldable pub released : (ℕ → Bool) → ℕ → ℕ → List ℕ
released waits i zero = []
released waits i (suc n) =
    if waits i then i ∷ released waits (suc i) n else released waits (suc i) n

-- `Close`, with the calls that get an empty struct; closing twice is a panic.
unfoldable pub close : WsConnection → (ℕ → Bool) → Option (WsConnection × List ℕ)
unfolding released
close w waits =
    if w.closed
    then none
    else some (record w { closed = true; running = 0 }, released waits 0 connections)

-- The indices of calls that follow one another.
unfoldable pub next_times : ℕ → ℕ → ℕ
next_times zero r = r
next_times (suc k) r = next_running (next_times k r)
