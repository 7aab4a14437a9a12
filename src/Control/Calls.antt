-- ===== src/Control/Calls.antt =====
-- The HTTP calls of controller/common/common.go: `QuickCall` and `Call`.
use my_raft.Base.{Bool, false, Option, none, some, Bytes, if◌then◌else◌}
use my_raft.Control.Urls.{Url, Bound, bound_url}

-- What the code uses of JSON and HTTP, for arguments `A` and replies `R`: the encoding; whether a request can
-- be made for the URL; the body of the answer; and the decoding into a reply, which an error may leave
-- half done.
pub record Http (A R : Type 0) : Type 0 where
  pub marshal : A → Option Bytes
  pub new_request : Url → Bool
  pub respond : Url → Bytes → Option Bytes
  pub unmarshal : Bytes → R → R × Bool

abbrev read_body : {A R : Type 0} → Http A R → R → Option Bytes → Bool × R
read_body h reply none = (false, reply)
read_body h reply (some body) = let (reply, fine) = h.unmarshal body reply in (fine, reply)

-- `none` is the panic where no request can be made: its header is set before the error is looked at.
unfoldable pub quick_call : {A R : Type 0} → Http A R → Url → A → R → Option (Bool × R)
quick_call h url args reply = elim (h.marshal args) [
  | none ↦ some (false, reply)
  | some b ↦ if h.new_request url then some (read_body h reply (h.respond url b)) else none
]

unfoldable pub call_method : {A R : Type 0} → Http A R → Bytes → A → R → Bound → Option (Bool × R)
unfolding quick_call
call_method h name args reply bound = quick_call h (bound_url name bound) args reply
