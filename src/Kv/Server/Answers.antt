-- ===== src/Kv/Server/Answers.antt =====
-- What `Get` and `PutAppend` of kvraft/server.go reply once their index was applied.
use my_raft.Base.{
  ℤ, pos, if◌then◌else◌, Bool, true, false, ◌&&◌, Option, inl, inr, none, some, List, ◌++◌, Bytes,
  ◌≡◌, ◌⊎◌, refl, ap, ◌∙◌, ℕ, [], ◌>>=◌,
}
use my_raft.Base.Assoc.{bytes_key, int_key, lookup, eq_bytes, lookup-insert_self, beq_refl}
use my_raft.Base.Split.{split_from, Avoids}
use my_raft.Kv.Command.{
  append_op, put_op, get_cmd, parse_cmd, split_put_append_cmd, key_value_separator,
}
use my_raft.Kv.Command.RoundTrip.{
  IsPlain, parse_cmd-get_cmd, parse_cmd-put_append_cmd, split_put_append_cmd-plain,
}
use my_raft.Kv.Server.{
  Kv, Err, Answer, PutAppendArgs, GetReply, apply, apply_new, execute, ensure, offer, get_answer,
  slot_answer, received, end_get, end_put_append, put_reply,
}
use my_raft.Kv.Server.Refines.{
  Request, put, append_to, get, cmd_of, IsPlainRequest, Delivery, message, apply-new,
}

-- The channel of the index is missing or empty.
abbrev pub IsWaiting : Option (Option Answer) → Type 0
IsWaiting o = (o ≡ none) ⊎ (o ≡ some none)

pub lookup-ensure :
    (ops : List (ℤ × Option Answer)) (i : ℤ)
    → IsWaiting (lookup i ops)
    → lookup i (ensure ops i) ≡ some none
unfolding ensure
lookup-ensure ops i (inl e) = rw (ensure, e) (lookup-insert_self i none ops)
lookup-ensure ops i (inr e) = rw (ensure, e) e

lookup-offer :
    (ops : List (ℤ × Option Answer)) (i : ℤ) (a : Answer)
    → lookup i ops ≡ some none
    → lookup i (offer ops i a) ≡ some (some a)
unfolding offer
lookup-offer ops i a e = rw (offer, e) (lookup-insert_self i (some a) ops)

-- A reply of `Get` for what the map holds.
abbrev pub reply_of : Option Bytes → GetReply
reply_of none = record { wrong_leader = false; err = Err.no_key; value = [] }
reply_of (some v) = record { wrong_leader = false; err = Err.ok; value = v }

abbrev pub AvoidsAll : ℕ → Option Bytes → Type 0
AvoidsAll b none = Unit
AvoidsAll b (some v) = Avoids b v

-- What is sent to the channel of an index when the request is applied there.
abbrev pub answer_of : Kv → Request → Answer
answer_of kv (get k) = get_answer kv.db (get_cmd k) k
answer_of kv r = record { val = cmd_of r; is_ok = true }

pub execute-answer :
    (kv : Kv) (i : ℤ) (r : Request)
    → IsPlainRequest r
    → (execute kv i (cmd_of r) (parse_cmd (cmd_of r))).ops
      ≡ offer (ensure kv.ops i) i (answer_of kv r)
unfolding execute
execute-answer kv i (put k v) (pk, pv) =
    rw (parse_cmd-put_append_cmd put_op k v (refl, (refl, (refl, tt))) pk pv.0) refl
execute-answer kv i (append_to k v) (pk, pv) =
    rw
      (parse_cmd-put_append_cmd append_op k v (refl, (refl, (refl, (refl, (refl, (refl, tt)))))) pk
        pv.0)
      refl
execute-answer kv i (get k) pk = rw (parse_cmd-get_cmd k pk.0) refl

module _ (kv : Kv) (d : Delivery) where
  received-apply :
      IsPlainRequest d.request
      → lookup d.index kv.log ≡ none
      → IsWaiting (lookup d.index kv.ops)
      → received (apply_new kv d.index (cmd_of d.request) d.context_id) d.index
        ≡ some (answer_of kv d.request)
  unfolding apply_new
  received-apply p e w =
      ap (λ ops. slot_answer (lookup d.index ops)) (execute-answer _ d.index d.request p)
      ∙ ap slot_answer
          (lookup-offer _ d.index (answer_of kv d.request) (lookup-ensure kv.ops d.index w))

get_cmd-Avoids : (key : Bytes) → Avoids b'<' key → Avoids b'<' (get_cmd key)
unfolding get_cmd
get_cmd-Avoids key p = (refl, (refl, (refl, (refl, (refl, (refl, p))))))

-- The answer to a get is read as the key and its value.
abbrev read_answer : Bytes → Answer → GetReply
read_answer key a =
    let (k, val) = split_put_append_cmd a.val in
    if eq_bytes k (get_cmd key)
    then record { wrong_leader = false; err = Err.ok; value = val }
    else record { wrong_leader = false; err = Err.no_key; value = [] }

read_answer-none :
    (key : Bytes) → read_answer key (record { val = []; is_ok = false }) ≡ reply_of none
unfolding get_cmd split_put_append_cmd split_from
read_answer-none key = refl

read_answer-some :
    (key v : Bytes)
    → IsPlain key
    → Avoids b'<' v
    → read_answer key (record { val = get_cmd key ++ (key_value_separator ++ v); is_ok = true })
      ≡ reply_of (some v)
read_answer-some key v p a =
    rw
      (
        split_put_append_cmd-plain (get_cmd key) v (get_cmd-Avoids key p.1) a,
        beq_refl (get_cmd key),
      )
      refl

read_answer-get :
    (db : List (Bytes × Bytes)) (key : Bytes)
    → IsPlain key
    → AvoidsAll b'<' (lookup key db)
    → read_answer key (get_answer db (get_cmd key) key) ≡ reply_of (lookup key db)
read_answer-get db key p = cases (lookup key db)
  where
    cases :
        (o : Option Bytes)
        → AvoidsAll b'<' o
        → read_answer key (elim o [
          | none ↦ record { val = []; is_ok = false }
          | some v ↦ record { val = get_cmd key ++ (key_value_separator ++ v); is_ok = true }
        ])
          ≡ reply_of o
    cases none v = read_answer-none key
    cases (some w) v = read_answer-some key w p v

end_get-read :
    (kv : Kv) (context_id key : Bytes) (i : ℤ) (a : Answer)
    → received kv i ≡ some a
    → end_get kv (record { context_id = context_id; cmd = get_cmd key }) i
      ≡ some (read_answer key a)
unfolding end_get
end_get-read kv context_id key i a e = rw e refl

-- A get without separators is applied at an index that is new and whose channel holds no answer;
-- the stored value has no separator. Then the handler that waits on that index replies the value
-- of the key in the map, and that there is no key where the map has none.
pub end_get-apply :
    (kv : Kv) (i : ℤ) (context_id key : Bytes)
    → IsPlain key
    → AvoidsAll b'<' (lookup key kv.db)
    → lookup i kv.log ≡ none
    → IsWaiting (lookup i kv.ops)
    → (do
      kv' ← apply kv (message (record { index = i; context_id = context_id; request = get key }))
      end_get kv' (record { context_id = context_id; cmd = get_cmd key }) i)
      ≡ some (reply_of (lookup key kv.db))
end_get-apply kv i context_id key p v e w =
    let d : Delivery = record { index = i; context_id = context_id; request = get key } in
    rw (apply-new kv d e) (
      end_get-read _ context_id key i _ (received-apply kv d p e w)
      ∙ ap some (read_answer-get kv.db key p v))

abbrev pub IsStored : Request → Type 0
IsStored (put k v) = Unit
IsStored (append_to k v) = Unit
IsStored (get k) = ⊥

-- A put or an append without separators is applied at an index that is new and whose channel holds
-- no answer. Then a handler that waits on that index with a command replies success if the command is
-- the one that was applied, and else that there is no key.
pub end_put_append-apply :
    (kv : Kv) (d : Delivery) (args : PutAppendArgs)
    → IsPlainRequest d.request
    → IsStored d.request
    → lookup d.index kv.log ≡ none
    → IsWaiting (lookup d.index kv.ops)
    → args.idx ≡ d.index
    → (do kv' ← apply kv (message d); end_put_append kv' args)
      ≡ some (
          put_reply false
            (if eq_bytes (cmd_of d.request) args.op.cmd then Err.ok else Err.no_key)
            (pos 0))
unfolding end_put_append
end_put_append-apply kv d args p s e w j =
    rw (apply-new kv d e, j, received-apply kv d p e w) (checked d.request s)
  where
    cases :
        (b : Bool)
        → some (if b then put_reply false Err.ok (pos 0) else put_reply false Err.no_key (pos 0))
          ≡ some (put_reply false (if b then Err.ok else Err.no_key) (pos 0))
    cases true = refl
    cases false = refl

    checked :
        (r : Request)
        → IsStored r
        → some (
            if (answer_of kv r).is_ok && eq_bytes (answer_of kv r).val args.op.cmd
            then put_reply false Err.ok (pos 0)
            else put_reply false Err.no_key (pos 0))
          ≡ some (
              put_reply false
                (if eq_bytes (cmd_of r) args.op.cmd then Err.ok else Err.no_key)
                (pos 0))
    checked (put k v) t = cases _
    checked (append_to k v) t = cases _
    checked (get k) t = elim t [ ]
