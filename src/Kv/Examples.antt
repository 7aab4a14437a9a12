-- ===== src/Kv/Examples.antt =====
-- The theorems on kvraft/ and raftclient/ at concrete commands, servers and calls.
mod Sessions
mod Logs
use my_raft.Base.{
  ap, pos_part, ℤ, pos, negsuc, if◌then◌else◌, ◌≡◌, inl, refl, true, false, some, none, List, [],
  ◌∷◌, ◌++◌, ◌>>=◌, Bytes, arith, replicate,
}
use my_raft.Base.Assoc.{int_key, bytes_key, lookup, eq_bytes}
use my_raft.Raft.Data.{ApplyMsg, Command, StateReply, AgreeReply}
use my_raft.Kv.Command.{put_op, get_cmd, put_append_cmd, key_value_separator, parse_cmd}
use my_raft.Kv.Command.RoundTrip.{IsPlain, parse_cmd-put_append_cmd}
use my_raft.Kv.Server.{
  Kv, Complaint, Err, PutAppendReply, PutAppendArgs, start_kv_server, apply, apply_old, offer,
  apply_msgs, end_get, end_put_append, put_reply, begin_put_append, ensure, replied, waits,
}
use my_raft.Kv.Server.Refines.{
  Delivery, put, append_to, get, cmd_of, message, messages, deliver_all, Store, Implements,
  start_kv_server-Implements, apply_msgs-Implements,
}
use my_raft.Kv.Server.Session.{registered, put_append-registers}
use my_raft.Kv.Server.Replay.{SameData, apply_msgs-again}
use my_raft.Kv.Server.Answers.{AvoidsAll, reply_of, end_get-apply, end_put_append-apply}
use my_raft.Kv.Clerk.{
  Clerk, Outcome, trying, asking, Putting, get_round, put_round, get_loop, put_loop, put_append,
  put_append_args, acknowledge, set_leader,
}
use my_raft.Kv.Clerk.Range.{RoundIsPlaced, is_self, is_clerk, rounds-IsPlaced}
use my_raft.Kv.Server.{GetReply}
use my_raft.Base.{false}
use my_raft.Kv.Clerk.Confirmed.{IsConfirmed, put_append-IsConfirmed}

abbrev pub k1 : Bytes
k1 = b'k' ∷ []

abbrev pub v1 : Bytes
v1 = b'v' ∷ []

pub k1-IsPlain : IsPlain k1
k1-IsPlain = ((refl, tt), (refl, tt))

pub v1-IsPlain : IsPlain v1
v1-IsPlain = ((refl, tt), (refl, tt))

-- A put, the same index once more, and an append.
abbrev deliveries : List Delivery
deliveries =
    record { index = pos 1; context_id = []; request = put k1 v1 }
    ∷ record { index = pos 1; context_id = []; request = get k1 }
    ∷ record { index = pos 2; context_id = k1; request = append_to k1 v1 }
    ∷ []

abbrev empty_store : Store
empty_store = record { taken = λ i. false; value = λ k. none }

apply_msgs-Implements_example :
    (kv : Kv) × (apply_msgs start_kv_server (messages deliveries) ≡ some kv)
    × Implements kv (deliver_all empty_store deliveries)
apply_msgs-Implements_example =
    apply_msgs-Implements start_kv_server empty_store deliveries start_kv_server-Implements
      ((k1-IsPlain, v1-IsPlain), (k1-IsPlain, ((k1-IsPlain, v1-IsPlain), tt)))

-- A server that has applied a put of the key.
abbrev loaded : Kv
loaded = record {
  log = (pos 1, []) ∷ [];
  db = (k1, v1) ∷ [];
  ops = [];
  context = [];
  complaints = [];
}

abbrev noise : List ApplyMsg
noise =
    record { index = pos 1; command = Command.object (some k1) (some k1) }
    ∷ record { index = pos 7; command = Command.null }
    ∷ []

abbrev after_noise : Kv
after_noise = record loaded {
  complaints = Complaint.no_object (pos 7) ∷ Complaint.already (pos 1) ∷ [];
}

noise_run : apply_msgs loaded noise ≡ some after_noise
unfolding apply_msgs apply apply_old offer lookup
noise_run = refl

apply_msgs-again_example :
    (kv : Kv) × (apply_msgs after_noise noise ≡ some kv) × SameData after_noise kv
apply_msgs-again_example = apply_msgs-again loaded after_noise noise noise_run

lookup_2 : lookup (pos 2) loaded.log ≡ none
unfolding lookup
lookup_2 = refl

ops_2 : lookup (pos 2) loaded.ops ≡ none
unfolding lookup
ops_2 = refl

abbrev clerk : Clerk
clerk = record { servers = 2; last_leader = pos 1 }

-- Calls that do not go through and leave their replies empty.
abbrev lost_get : Outcome GetReply
lost_get = record {
  reached = false;
  reply = record { wrong_leader = false; err = Err.none_yet; value = [] };
}

abbrev lost_put : Outcome PutAppendReply
lost_put = record {
  reached = false;
  reply = record { wrong_leader = false; err = Err.none_yet; idx = pos 0 };
}

abbrev accepts : ℤ → Outcome PutAppendReply
accepts i = record {
  reached = true;
  reply = record { wrong_leader = false; err = Err.ok; idx = i };
}

-- A call that is lost, one that gives the index 4, and one that confirms it.
abbrev calls : List (Outcome PutAppendReply)
calls = lost_put ∷ accepts (pos 4) ∷ accepts (pos 0) ∷ []

put_run : put_append clerk [] put_op k1 v1 calls ≡ some clerk
unfolding put_append put_append_args put_loop put_round acknowledge
put_run = refl

put_append-IsConfirmed_example : IsConfirmed calls
put_append-IsConfirmed_example =
    put_append-IsConfirmed clerk clerk [] put_op k1 v1 calls refl put_run

abbrev putting : Putting
putting = record { clerk = clerk; idx = pos 0 }

rounds-IsPlaced_example :
    RoundIsPlaced 2 is_self (get_round clerk asking lost_get)
    × RoundIsPlaced 2 is_clerk (put_round putting asking lost_put)
rounds-IsPlaced_example =
    rounds-IsPlaced putting asking lost_get lost_put (omega arith, omega arith)
