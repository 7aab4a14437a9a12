-- ===== src/Kv/Calls/Written.antt =====
-- A write of a clerk of raftclient/client/client.go that a server of kvraft/server.go takes.
use my_raft.Base.{
  ℕ, ℤ, pos, ltb_ℤ, ◌<ℤ◌, true, false, ◌≡◌, ◌≢◌, Option, none, some, List, [], ◌∷◌, Bytes, refl,
  sym, subst, Bool, length-set, ap, ◌∙◌, inr, get_elem?, set, get_elem?-set, get_elem?-lt, arith,
  ◌>>=◌,
}
use my_raft.Base.Assoc.{bytes_key, int_key, lookup, beq_refl}
use my_raft.Raft.Data.{StateReply, AgreeReply}
use my_raft.Kv.Server.{
  Kv, Err, PutAppendArgs, PutAppendReply, replied, waits, put_reply, begin_put_append,
  end_put_append, apply, apply_new, apply_msgs, ensure,
}
use my_raft.Kv.Server.Refines.{
  cmd_of, IsPlainRequest, Delivery, message, effect, apply-new, execute-HasEffect,
}
use my_raft.Kv.Server.Answers.{IsWaiting, IsStored, lookup-ensure, end_put_append-apply}
use my_raft.Kv.Server.Session.{registered, put_append-registers}
use my_raft.Kv.Clerk.{
  Clerk, Outcome, Round, again, done, Place, asking, Putting, put_round, acknowledge,
}
use my_raft.Kv.Calls.{Turn, serve_put, called, put_calls}

-- A write of a client that the Raft server takes at an index.
pub record IsWrite (kv : Kv) (d : Delivery) : Type 0 where
  pub plain : IsPlainRequest d.request
  pub stored : IsStored d.request
  pub new_context : lookup d.context_id kv.context ≡ none
  pub new_index : lookup d.index kv.log ≡ none
  pub waiting : IsWaiting (lookup d.index kv.ops)
  pub positive : pos 0 <ℤ d.index

abbrev pub first_args : Delivery → PutAppendArgs
first_args d = record {
  op = record { context_id = d.context_id; cmd = cmd_of d.request };
  idx = pos 0;
}

-- `Agree` takes the command.
abbrev taken_turn : Delivery → StateReply → ℤ → Bool → Turn
taken_turn d s term lead = record {
  state = some s;
  agreed = some (record { term = term; index = d.index; is_leader = lead });
  msgs = [];
}

-- The three calls of a write: `Agree` takes the command, the index is told, the command is applied.
abbrev pub write_turns :
    Delivery → (s1 s2 s3 : StateReply) → ℤ → Bool → (a2 a3 : Option AgreeReply) → List Turn
write_turns d s1 s2 s3 term lead a2 a3 =
    taken_turn d s1 term lead
    ∷ record { state = some s2; agreed = a2; msgs = [] }
    ∷ record { state = some s3; agreed = a3; msgs = message d ∷ [] }
    ∷ []

abbrev ok_said : ℤ → Outcome PutAppendReply
ok_said i = record { reached = true; reply = put_reply false Err.ok i }

-- One call of the loop.
module _ (args : PutAppendArgs) (l : ℕ) (t : Turn) (ts : List Turn) (p : Putting) (at : Place)
    (kvs : List Kv) (kv kv' : Kv) (reply : PutAppendReply) where
  abbrev follow : Round Putting Unit → Option (Clerk × List Kv)
  follow r = elim r [
    | again q to ↦ put_calls ts args q to (set kvs l kv')
    | done q u ↦ some (q.clerk, set kvs l kv')
  ]

  call_follow :
      called p.clerk at ≡ some l
      → get_elem? kvs l ≡ some kv
      → serve_put kv (record args { idx = p.idx }) t ≡ some (kv', reply)
      → put_calls (t ∷ ts) args p at kvs
        ≡ follow (put_round p at (record { reached = true; reply = reply }))
  unfolding put_calls
  call_follow c g h = rw (c, g, h) refl

  put_calls-again :
      (q : Putting) (to : Place)
      → called p.clerk at ≡ some l
      → get_elem? kvs l ≡ some kv
      → serve_put kv (record args { idx = p.idx }) t ≡ some (kv', reply)
      → put_round p at (record { reached = true; reply = reply }) ≡ again q to
      → put_calls (t ∷ ts) args p at kvs ≡ put_calls ts args q to (set kvs l kv')
  unfolding put_calls
  put_calls-again q to c g h r = call_follow c g h ∙ ap follow r

  put_calls-done :
      (q : Putting)
      → called p.clerk at ≡ some l
      → get_elem? kvs l ≡ some kv
      → serve_put kv (record args { idx = p.idx }) t ≡ some (kv', reply)
      → put_round p at (record { reached = true; reply = reply }) ≡ done q tt
      → put_calls (t ∷ ts) args p at kvs ≡ some (q.clerk, set kvs l kv')
  unfolding put_calls
  put_calls-done q c g h r = call_follow c g h ∙ ap follow r

module _ (kv : Kv) (d : Delivery) (w : IsWrite kv d) where
  -- The server once the index is known, and once it waits.
  abbrev known : Kv
  known = registered kv (first_args d) d.index

  abbrev waiting : Kv
  waiting = record known { ops = ensure known.ops d.index }

  abbrev pub written : Kv
  written = apply_new waiting d.index (cmd_of d.request) d.context_id

  abbrev last_args : PutAppendArgs
  last_args = record (first_args d) { idx = d.index }

  applied : apply waiting (message d) ≡ some written
  applied = apply-new waiting d w.new_index

  answered : end_put_append written last_args ≡ some (put_reply false Err.ok (pos 0))
  answered =
      ap (λ o. o >>= λ (k : Kv). end_put_append k last_args) (sym applied)
      ∙ end_put_append-apply waiting d last_args w.plain w.stored w.new_index
          (inr (lookup-ensure kv.ops d.index w.waiting)) refl
      ∙ rw (beq_refl (cmd_of d.request)) refl

  pub lookup-written : (j : Bytes) → lookup j written.db ≡ effect d.request (λ k. lookup k kv.db) j
  unfolding apply_new
  lookup-written j = (execute-HasEffect _ d.index d.request w.plain).0 j

  module _ (s1 s2 s3 : StateReply) (term : ℤ) (lead : Bool) (a2 a3 : Option AgreeReply)
      (leads1 : s1.is_leader ≡ true) (leads2 : s2.is_leader ≡ true)
      (leads3 : s3.is_leader ≡ true) where
    abbrev turn1 : Turn
    turn1 = taken_turn d s1 term lead

    abbrev turn2 : Turn
    turn2 = record { state = some s2; agreed = a2; msgs = [] }

    abbrev turn3 : Turn
    turn3 = record { state = some s3; agreed = a3; msgs = message d ∷ [] }

    not_first : d.index ≢ pos 0
    not_first e =
        let p : pos 0 <ℤ pos 0 = subst (λ i. pos 0 <ℤ i) e w.positive in absurd (omega (arith, p))

    begun :
        (begin_put_append kv (first_args d) turn1.state turn1.agreed
          ≡ (known, replied (put_reply false Err.ok (pos 0))))
        × (begin_put_append known (first_args d) turn2.state a2
            ≡ (known, replied (put_reply false Err.ok d.index)))
        × (begin_put_append known last_args turn3.state a3 ≡ (waiting, waits d.index))
    begun =
        let more =
          put_append-registers kv (first_args d) s1 s2
            (record { term = term; index = d.index; is_leader = lead }) a2 in
        let (e1, e2, _) = more a3 leads1 leads2 refl w.new_context not_first in
        (
          e1,
          e2,
          (put_append-registers kv (first_args d) s1 s3
              (record { term = term; index = d.index; is_leader = lead }) a2 a3 leads1 leads3 refl
              w.new_context not_first).2,
        )

    serve1 : serve_put kv (first_args d) turn1 ≡ some (known, put_reply false Err.ok (pos 0))
    unfolding serve_put apply_msgs
    serve1 = rw begun.0 refl

    serve2 : serve_put known (first_args d) turn2 ≡ some (known, put_reply false Err.ok d.index)
    unfolding serve_put apply_msgs
    serve2 = rw begun.1 refl

    serve3 : serve_put known last_args turn3 ≡ some (written, put_reply false Err.ok (pos 0))
    unfolding serve_put apply_msgs
    serve3 = rw (begun.2, applied, answered) refl

    module _ (n l : ℕ) (kvs : List Kv) (at_l : get_elem? kvs l ≡ some kv) where
      abbrev clerk : Clerk
      clerk = record { servers = n; last_leader = pos l }

      abbrev putting : ℤ → Putting
      putting i = record { clerk = clerk; idx = i }

      last : ltb_ℤ (pos l) (pos 0) ≡ false
      last = ground arith

      first_round :
          put_round (putting (pos 0)) asking (ok_said (pos 0)) ≡ again (putting (pos 0)) asking
      unfolding put_round acknowledge
      first_round = rw last refl

      round2 : put_round (putting (pos 0)) asking (ok_said d.index) ≡ again (putting d.index) asking
      unfolding put_round acknowledge
      round2 =
          let more : ltb_ℤ (pos 0) d.index ≡ true = (let p = w.positive in ground arith) in
          rw (more, last) refl

      round3 : put_round (putting d.index) asking (ok_said (pos 0)) ≡ done (putting (pos 0)) tt
      unfolding put_round acknowledge
      round3 =
          let more : ltb_ℤ (pos 0) d.index ≡ true = (let p = w.positive in ground arith) in
          rw more refl

      pub put_calls-written :
          (kvs' : List Kv) × (put_calls
              (turn1 ∷ turn2 ∷ turn3 ∷ [])
              (first_args d)
              (putting (pos 0))
              asking
              kvs
            ≡ some (clerk, kvs'))
          × (get_elem? kvs' l ≡ some written)
      unfolding called
      put_calls-written =
          let lt = get_elem?-lt kvs l kv at_l in
          let kvs1 = set kvs l known in
          let kvs2 = set kvs1 l known in
          let size1 = length-set kvs l known in
          let size2 = length-set kvs1 l known in
          let at1 = get_elem?-set kvs l known lt in
          let at2 = get_elem?-set kvs1 l known (omega (arith, size1)) in
          (
            set kvs2 l written,
            put_calls-again (first_args d) l turn1 (turn2 ∷ turn3 ∷ []) (putting (pos 0)) asking kvs
                  kv known _ (putting (pos 0)) asking refl at_l serve1 first_round
                ∙ put_calls-again (first_args d) l turn2 (turn3 ∷ []) (putting (pos 0)) asking kvs1
                    known known _ (putting d.index) asking refl at1 serve2 round2
                ∙ put_calls-done (first_args d) l turn3 [] (putting d.index) asking kvs2 known
                    written _ (putting (pos 0)) refl at2 serve3 round3,
            get_elem?-set kvs2 l written (omega (arith, size1, size2)),
          )
