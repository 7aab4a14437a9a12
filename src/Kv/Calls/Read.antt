-- ===== src/Kv/Calls/Read.antt =====
-- A read of a clerk of raftclient/client/client.go after its write, at a server of kvraft/server.go.
use my_raft.Base.{
  ℕ, ℤ, pos, eqb_ℤ, eqb_ℤ_iff, true, false, ◌≡◌, ◌≢◌, Option, none, some, List, [], ◌∷◌, Bytes,
  refl, sym, subst, ap, ◌∙◌, inl, inr, Bool, Option-cases, get_elem?, set, arith, ◌>>=◌,
}
use my_raft.Base.Assoc.{bytes_key, int_key, lookup, insert, lookup-insert}
use my_raft.Raft.Data.{StateReply, AgreeReply}
use my_raft.Kv.Command.{get_cmd}
use my_raft.Kv.Command.RoundTrip.{IsPlain}
use my_raft.Kv.Server.{
  Kv, Op, Answer, begin_get, end_get, apply, apply_new, apply_msgs, ensure, offer,
}
use my_raft.Kv.Server.Refines.{get, cmd_of, Delivery, message, effect, apply-new, execute-HasEffect}
use my_raft.Kv.Server.Answers.{
  IsWaiting, AvoidsAll, reply_of, lookup-ensure, execute-answer, end_get-apply,
}
use my_raft.Kv.Clerk.{Clerk, Round, again, done, asking, get_round, no_key_text}
use my_raft.Kv.Calls.{Turn, serve_get, called, get_calls, put_calls}
use my_raft.Kv.Calls.Written.{
  IsWrite, first_args, write_turns, written, lookup-written, put_calls-written,
}

-- What `Get` of the clerk returns for what the map holds.
abbrev pub clerk_text : Option Bytes → Bytes
clerk_text none = no_key_text
clerk_text (some v) = v

abbrev pub get_op : (context_id key : Bytes) → Op
get_op context_id key = record { context_id = context_id; cmd = get_cmd key }

-- `Agree` takes the get at the index i, and it is applied there.
abbrev pub read_turn : ℤ → (context_id key : Bytes) → StateReply → ℤ → Bool → Turn
read_turn i context_id key s term lead = record {
  state = some s;
  agreed = some (record { term = term; index = i; is_leader = lead });
  msgs = message (record { index = i; context_id = context_id; request = get key }) ∷ [];
}

-- The index is new at the server, and its channel holds no answer.
pub record IsFree (kv : Kv) (i : ℤ) : Type 0 where
  pub new_index : lookup i kv.log ≡ none
  pub waiting : IsWaiting (lookup i kv.ops)

module _ (kv : Kv) (i : ℤ) (context_id key : Bytes) (free : IsFree kv i) (p : IsPlain key)
    (a : AvoidsAll b'<' (lookup key kv.db)) (s : StateReply) (leads : s.is_leader ≡ true) (term : ℤ)
    (lead : Bool) where
  abbrev op : Op
  op = get_op context_id key

  abbrev read : Delivery
  read = record { index = i; context_id = context_id; request = get key }

  abbrev turn : Turn
  turn = read_turn i context_id key s term lead

  abbrev waiting : Kv
  waiting = record kv { context = insert context_id i kv.context; ops = ensure kv.ops i }

  abbrev served : Kv
  served = apply_new waiting i (get_cmd key) context_id

  applied : apply waiting (message read) ≡ some served
  applied = apply-new waiting read free.new_index

  answered : end_get served op i ≡ some (reply_of (lookup key kv.db))
  answered =
      ap (λ o. o >>= λ (k : Kv). end_get k op i) (sym applied)
      ∙ end_get-apply waiting i context_id key p a free.new_index
          (inr (lookup-ensure kv.ops i free.waiting))

  serve : serve_get kv op turn ≡ some (served, reply_of (lookup key kv.db))
  unfolding serve_get apply_msgs begin_get
  serve = rw (leads, applied, answered) refl

  module _ (n l : ℕ) (kvs : List Kv) (at_l : get_elem? kvs l ≡ some kv) where
    abbrev clerk : Clerk
    clerk = record { servers = n; last_leader = pos l }

    round_of :
        (o : Option Bytes)
        → get_round clerk asking (record { reached = true; reply = reply_of o })
          ≡ done clerk (clerk_text o)
    unfolding get_round
    round_of none = refl
    round_of (some v) = refl

    abbrev follow : Round Clerk Bytes → Option (Clerk × Bytes × List Kv)
    follow r = elim r [ again ck to ↦ none | done ck v ↦ some (ck, v, set kvs l served) ]

    pub get_calls-read :
        (kvs' : List Kv) × (get_calls (turn ∷ []) op clerk asking kvs
          ≡ some (clerk, clerk_text (lookup key kv.db), kvs'))
    unfolding get_calls called
    get_calls-read =
        (set kvs l served, rw (at_l, serve) refl ∙ ap follow (round_of (lookup key kv.db)))

lookup-insert_other :
    {V : Type 0} (i j : ℤ) (v : V) (m : List (ℤ × V)) → i ≢ j → lookup j (insert i v m) ≡ lookup j m
lookup-insert_other i j v m ne =
    let other : eqb_ℤ i j ≡ false = ground (arith, eqb_ℤ_iff i j) in
    rw (lookup-insert i j v m, other) refl

lookup-ensure_other :
    (ops : List (ℤ × Option Answer)) (i j : ℤ) → i ≢ j → lookup j (ensure ops i) ≡ lookup j ops
unfolding ensure
lookup-ensure_other ops i j ne = elim (Option-cases (lookup i ops)) [
  | inl e ↦ rw (ensure, e) (lookup-insert_other i j none ops ne)
  | inr (slot, e) ↦ rw (ensure, e) refl
]

lookup-offer_other :
    (ops : List (ℤ × Option Answer)) (i j : ℤ) (a : Answer)
    → i ≢ j
    → lookup j (offer ops i a) ≡ lookup j ops
unfolding offer
lookup-offer_other ops i j a ne = elim (Option-cases (lookup i ops)) [
  | inl e ↦ rw (offer, e) refl
  | inr (slot, e) ↦
      rw (offer, e)
        (elim slot
          as (λ x.
            lookup j (elim x [ none ↦ insert i (some a) ops | some b ↦ ops ]) ≡ lookup j ops) [
              | none ↦ lookup-insert_other i j (some a) ops ne
              | some b ↦ refl
            ])
]

written-IsFree :
    (kv : Kv) (d : Delivery) (w : IsWrite kv d) (j : ℤ)
    → d.index ≢ j
    → IsFree kv j
    → IsFree (written kv d w) j
unfolding apply_new
written-IsFree kv d w j ne f = record {
  new_index =
      ap (lookup j) (execute-HasEffect _ d.index d.request w.plain).1
      ∙ lookup-insert_other d.index j (cmd_of d.request) kv.log ne
      ∙ f.new_index;
  waiting =
      let ops1 = ensure kv.ops d.index in
      let ops2 = ensure ops1 d.index in
      let same =
        ap (lookup j) (execute-answer _ d.index d.request w.plain)
        ∙ lookup-offer_other ops2 d.index j _ ne
        ∙ lookup-ensure_other ops1 d.index j ne
        ∙ lookup-ensure_other kv.ops d.index j ne in
      subst IsWaiting (sym same) f.waiting;
}

module _ (kv : Kv) (d : Delivery) (w : IsWrite kv d) (j : ℤ) (context_id key : Bytes)
    (ne : d.index ≢ j) (free : IsFree kv j) (p : IsPlain key)
    (a : AvoidsAll b'<' (effect d.request (λ k. lookup k kv.db) key)) where
  -- The run of both calls.
  get_calls-after :
      (s1 s2 s3 s4 : StateReply) (term term' : ℤ) (lead lead' : Bool) (a2 a3 : Option AgreeReply)
      (n l : ℕ) (kvs : List Kv)
      → s1.is_leader ≡ true
      → s2.is_leader ≡ true
      → s3.is_leader ≡ true
      → s4.is_leader ≡ true
      → get_elem? kvs l ≡ some kv
      → let ck : Clerk = record { servers = n; last_leader = pos l } in
        (kvs' kvs'' : List Kv) × (put_calls
            (write_turns d s1 s2 s3 term lead a2 a3)
            (first_args d)
            (record { clerk = ck; idx = pos 0 })
            asking
            kvs
          ≡ some (ck, kvs'))
        × (get_calls
              (read_turn j context_id key s4 term' lead' ∷ [])
              (get_op context_id key)
              ck
              asking
              kvs'
            ≡ some (ck, clerk_text (effect d.request (λ k. lookup k kv.db) key), kvs''))
  get_calls-after s1 s2 s3 s4 term term' lead lead' a2 a3 n l kvs leads1 leads2 leads3 leads4 at =
      let (kvs', e, at') =
        put_calls-written kv d w s1 s2 s3 term lead a2 a3 leads1 leads2 leads3 n l kvs at in
      let found = lookup-written kv d w key in
      let a' = subst (AvoidsAll b'<') (sym found) a in
      let ck : Clerk = record { servers = n; last_leader = pos l } in
      let (kvs'', e') =
        get_calls-read (written kv d w) j context_id key (written-IsFree kv d w j ne free) p a' s4
          leads4 term' lead' n l kvs' at' in
      (kvs', kvs'', e, e' ∙ ap (λ o. some (ck, clerk_text o, kvs'')) found)

  -- A clerk that has a last leader makes a put or an append: that server's Raft server leads, and agrees
  -- on the command at a positive index that is new to the server; the second call is answered as well,
  -- and while the third waits, the command is applied. Then the clerk makes a get: the Raft server leads
  -- and agrees on it at another new index, where it is applied while the call waits. Nothing else is
  -- applied meanwhile, the keys and values have no separator, the context of the write is new and the
  -- channels of both indices hold no answer. Then both loops return, with the same last leader, and if the
  -- write leaves a value at the key of the get in the server's map, `Get` returns that value.
  pub get_calls-put_calls :
      (s1 s2 s3 s4 : StateReply) (term term' : ℤ) (lead lead' : Bool) (a2 a3 : Option AgreeReply)
      (n l : ℕ) (kvs : List Kv) (v : Bytes)
      → s1.is_leader ≡ true
      → s2.is_leader ≡ true
      → s3.is_leader ≡ true
      → s4.is_leader ≡ true
      → get_elem? kvs l ≡ some kv
      → effect d.request (λ k. lookup k kv.db) key ≡ some v
      → let ck : Clerk = record { servers = n; last_leader = pos l } in
        (kvs' kvs'' : List Kv) × (put_calls
            (write_turns d s1 s2 s3 term lead a2 a3)
            (first_args d)
            (record { clerk = ck; idx = pos 0 })
            asking
            kvs
          ≡ some (ck, kvs'))
        × (get_calls
              (read_turn j context_id key s4 term' lead' ∷ [])
              (get_op context_id key)
              ck
              asking
              kvs'
            ≡ some (ck, v, kvs''))
  get_calls-put_calls s1 s2 s3 s4 term term' lead lead' a2 a3 n l kvs v leads1 leads2 leads3 leads4
        at holds =
      let ck : Clerk = record { servers = n; last_leader = pos l } in
      let (kvs', kvs'', e, e') =
        get_calls-after s1 s2 s3 s4 term term' lead lead' a2 a3 n l kvs leads1 leads2 leads3 leads4
          at in
      (kvs', kvs'', e, e' ∙ ap (λ o. some (ck, clerk_text o, kvs'')) holds)

  -- A clerk that has a last leader makes a put or an append and then a get, under these conditions: that
  -- server's Raft server leads, and agrees on the two commands at two positions that are new to the server,
  -- the first positive; each is applied while its last call waits, and nothing else; the keys and values have
  -- no separator, the context of the write is new and the channels of both indices hold no answer. Then
  -- both loops return, and if the write leaves nothing at the key of the get, `Get` returns the text
  -- `No key`. The comment on `Get` promises an empty text there: this is where the code differs from it.
  pub get_calls-put_calls_absent :
      (s1 s2 s3 s4 : StateReply) (term term' : ℤ) (lead lead' : Bool) (a2 a3 : Option AgreeReply)
      (n l : ℕ) (kvs : List Kv)
      → s1.is_leader ≡ true
      → s2.is_leader ≡ true
      → s3.is_leader ≡ true
      → s4.is_leader ≡ true
      → get_elem? kvs l ≡ some kv
      → effect d.request (λ k. lookup k kv.db) key ≡ none
      → let ck : Clerk = record { servers = n; last_leader = pos l } in
        (kvs' kvs'' : List Kv) × (put_calls
            (write_turns d s1 s2 s3 term lead a2 a3)
            (first_args d)
            (record { clerk = ck; idx = pos 0 })
            asking
            kvs
          ≡ some (ck, kvs'))
        × (get_calls
              (read_turn j context_id key s4 term' lead' ∷ [])
              (get_op context_id key)
              ck
              asking
              kvs'
            ≡ some (ck, no_key_text, kvs''))
  get_calls-put_calls_absent s1 s2 s3 s4 term term' lead lead' a2 a3 n l kvs leads1 leads2 leads3
        leads4 at holds =
      let ck : Clerk = record { servers = n; last_leader = pos l } in
      let (kvs', kvs'', e, e') =
        get_calls-after s1 s2 s3 s4 term term' lead lead' a2 a3 n l kvs leads1 leads2 leads3 leads4
          at in
      (kvs', kvs'', e, e' ∙ ap (λ o. some (ck, clerk_text o, kvs'')) holds)
