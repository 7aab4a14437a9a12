-- ===== src/Kv/Examples/Sessions.antt =====
-- A write and a read of a clerk at one of two servers (raftclient/, kvraft/).
use my_raft.Base.{pos, true, ◌≡◌, ◌≢◌, refl, ap, pos_part, inl, some, none, List, [], ◌∷◌, arith}
use my_raft.Base.Assoc.{bytes_key, lookup}
use my_raft.Raft.Data.{StateReply}
use my_raft.Kv.Server.{Kv, start_kv_server}
use my_raft.Kv.Server.Refines.{Delivery, append_to, effect}
use my_raft.Kv.Server.Answers.{AvoidsAll}
use my_raft.Kv.Clerk.{Clerk, asking, no_key_text, Outcome}
use my_raft.Kv.Clerk.{Putting, put_loop}
use my_raft.Kv.Server.{Err, GetReply, PutAppendReply}
use my_raft.Kv.Command.RoundTrip.{IsPlain}
use my_raft.Kv.Calls.Lost.{get_asks, put_asks, get_asks-put_asks}
use my_raft.Base.{Bytes, List, get_elem?, false}
use my_raft.Kv.Calls.{put_calls, get_calls}
use my_raft.Kv.Calls.Written.{IsWrite, first_args, write_turns}
use my_raft.Kv.Calls.Read.{
  IsFree, get_op, read_turn, get_calls-put_calls, get_calls-put_calls_absent,
}
use my_raft.Kv.Examples.{k1, v1, k1-IsPlain, v1-IsPlain}

abbrev leading : StateReply
leading = record { term = pos 1; is_leader = true }

abbrev first_write : Delivery
first_write = record { index = pos 1; context_id = k1; request = append_to k1 v1 }

first_write-IsWrite : IsWrite start_kv_server first_write
unfolding start_kv_server lookup
first_write-IsWrite = record {
  plain = (k1-IsPlain, v1-IsPlain);
  stored = tt;
  new_context = refl;
  new_index = refl;
  waiting = inl refl;
  positive = omega arith;
}

two-IsFree : IsFree start_kv_server (pos 2)
unfolding start_kv_server lookup
two-IsFree = record { new_index = refl; waiting = inl refl }

other_index : pos 1 ≢ pos 2
other_index e = let p : 1 ≡ 2 = ap pos_part e in absurd (omega (arith, p))

abbrev clerk : Clerk
clerk = record { servers = 2; last_leader = pos 1 }

v1-Avoids : AvoidsAll b'<' (effect first_write.request (λ k. lookup k start_kv_server.db) k1)
unfolding start_kv_server lookup
v1-Avoids = (refl, tt)

get_calls-put_calls_example :
    (kvs' kvs'' : List Kv) × (put_calls
        (write_turns first_write leading leading leading (pos 1) true none none)
        (first_args first_write)
        (record { clerk = clerk; idx = pos 0 })
        asking
        (start_kv_server ∷ start_kv_server ∷ [])
      ≡ some (clerk, kvs'))
    × (get_calls
          (read_turn (pos 2) v1 k1 leading (pos 1) true ∷ [])
          (get_op v1 k1)
          clerk
          asking
          kvs'
        ≡ some (clerk, v1, kvs''))
unfolding start_kv_server lookup
get_calls-put_calls_example =
    get_calls-put_calls start_kv_server first_write first_write-IsWrite (pos 2) v1 k1 other_index
      two-IsFree k1-IsPlain v1-Avoids leading leading leading leading (pos 1) (pos 1) true true none
      none 2 1 (start_kv_server ∷ start_kv_server ∷ []) v1 refl refl refl refl refl refl

-- A key that nobody has written.
abbrev k2 : Bytes
k2 = b'q' ∷ []

k2-IsPlain : IsPlain k2
k2-IsPlain = ((refl, tt), (refl, tt))

k2-Avoids : AvoidsAll b'<' (effect first_write.request (λ k. lookup k start_kv_server.db) k2)
unfolding start_kv_server lookup
k2-Avoids = tt

get_calls-put_calls_absent_example :
    (kvs' kvs'' : List Kv) × (put_calls
        (write_turns first_write leading leading leading (pos 1) true none none)
        (first_args first_write)
        (record { clerk = clerk; idx = pos 0 })
        asking
        (start_kv_server ∷ start_kv_server ∷ [])
      ≡ some (clerk, kvs'))
    × (get_calls
          (read_turn (pos 2) v1 k2 leading (pos 1) true ∷ [])
          (get_op v1 k2)
          clerk
          asking
          kvs'
        ≡ some (clerk, no_key_text, kvs''))
unfolding start_kv_server lookup
get_calls-put_calls_absent_example =
    get_calls-put_calls_absent start_kv_server first_write first_write-IsWrite (pos 2) v1 k2
      other_index two-IsFree k2-IsPlain k2-Avoids leading leading leading leading (pos 1) (pos 1)
      true true none none 2 1 (start_kv_server ∷ start_kv_server ∷ []) refl refl refl refl refl refl

-- A call that does not go through and leaves its reply empty.
abbrev lost_get : Outcome GetReply
lost_get = record {
  reached = false;
  reply = record { wrong_leader = false; err = Err.none_yet; value = [] };
}

abbrev lost_put : Outcome PutAppendReply
lost_put = record {
  reached = false;
  reply = record { wrong_leader = false; err = Err.none_yet; idx = pos 0 };
}

abbrev lost_gets : List (Outcome GetReply)
lost_gets = lost_get ∷ lost_get ∷ lost_get ∷ []

abbrev lost_puts : List (Outcome PutAppendReply)
lost_puts = lost_put ∷ lost_put ∷ []

abbrev putting : Putting
putting = record { clerk = clerk; idx = pos 0 }

get_asks-put_asks_example :
    (get_elem? (get_asks clerk asking lost_gets) 1 ≡ some (some 0))
    × (get_elem? (put_asks putting asking lost_puts) 1 ≡ some (some 1))
    × (put_loop putting asking lost_puts ≡ none)
get_asks-put_asks_example =
    get_asks-put_asks 2 1 (pos 0) 0 1 lost_gets lost_puts
      (refl, refl, (refl, refl, (refl, refl, tt))) (refl, refl, (refl, refl, tt)) (omega arith)
      (omega arith) (omega arith)
