-- ===== src/Kv/Clerk/Confirmed.antt =====
-- What has happened when `PutAppend` of raftclient/client/client.go returns.
use my_raft.Base.{
  ℤ, pos, ltb_ℤ, ltb, ◌<ℤ◌, ◌≤ℤ◌, if◌then◌else◌, Bool, Bool-cases, true, false, not, ◌&&◌, ◌||◌,
  inl, inr, none, some, List, [], ◌∷◌, Bytes, arith, ◌≡◌, refl, sym, ◌∙◌,
}
use mathlib.Core.Option.{none-ne-some}
use my_raft.Base.Assoc.{eq_bytes}
use my_raft.Kv.Command.{put_op, append_op}
use my_raft.Kv.Server.{PutAppendReply}
use my_raft.Kv.Clerk.{
  Clerk, Outcome, Place, trying, asking, enter, Round, again, done, put_append, put_append_args,
  Putting, acknowledge, continue, put_round, put_loop, is_no_key, is_ok,
}

-- A call of the list has the property, in view of the calls after it.
pub data Later {R : Type 0} (P : R → List R → Type 0) : List R → Type 0 where
  here : {c : R} {cs : List R} → P c cs → Later P (c ∷ cs)
  there : {c : R} {cs : List R} → Later P cs → Later P (c ∷ cs)

-- The leader has replied that it is well.
pub record IsAccepted (c : Outcome PutAppendReply) : Type 0 where
  pub reached : c.reached ≡ true
  pub leader : c.reply.wrong_leader ≡ false
  pub ok : is_ok c.reply.err ≡ true

-- Such a reply, and one before it that gave a positive index.
abbrev pub IsConfirmed : List (Outcome PutAppendReply) → Type 0
IsConfirmed cs =
    Later
      (λ c rest.
        IsAccepted c
        × (pos 0 <ℤ c.reply.idx)
        × Later
            (λ (d : Outcome PutAppendReply) (after : List (Outcome PutAppendReply)). IsAccepted d)
            rest)
      cs

-- What a loop with this index needs yet.
abbrev Needs : ℤ → List (Outcome PutAppendReply) → Type 0
Needs idx cs =
    ((idx ≤ℤ pos 0) → IsConfirmed cs)
    × ((pos 0 <ℤ idx)
        → Later
            (λ (d : Outcome PutAppendReply) (after : List (Outcome PutAppendReply)). IsAccepted d)
            cs)

-- The branches of a round: the index stays, the loop ends, the index is taken from the reply, or it is
-- set back.
data PutView (p : Putting) (c : Outcome PutAppendReply) : Round Putting Unit → Type 0 where
  stays : (q : Putting) (at : Place) → q.idx ≡ p.idx → PutView p c (again q at)
  ends : (q : Putting) → IsAccepted c → pos 0 <ℤ p.idx → PutView p c (done q tt)
  takes :
      (q : Putting) (at : Place)
      → IsAccepted c
      → p.idx ≤ℤ pos 0
      → q.idx ≡ c.reply.idx
      → PutView p c (again q at)
  resets : (q : Putting) (at : Place) → pos 0 <ℤ p.idx → q.idx ≡ pos 0 → PutView p c (again q at)

Acknowledged :
    (p : Putting) (c : Outcome PutAppendReply) (ck : Clerk)
    → c.reached ≡ true
    → c.reply.wrong_leader ≡ false
    → PutView p c (continue ck (acknowledge p.idx c.reply))
unfolding acknowledge
Acknowledged p c ck r w = elim (Bool-cases (is_ok c.reply.err)) [
  | inl ok ↦ elim (Bool-cases (ltb_ℤ (pos 0) p.idx)) [
    | inl b ↦ rw (ok, b) (ends _ (record { reached = r; leader = w; ok = ok }) (ground arith))
    | inr b ↦ elim (Bool-cases (ltb_ℤ p.idx c.reply.idx)) [
      | inl d ↦
          rw (ok, b, d)
            (takes _ _ (record { reached = r; leader = w; ok = ok }) (ground arith) refl)
      | inr d ↦ rw (ok, b, d) (stays _ _ refl)
    ]
  ]
  | inr ok ↦ elim (Bool-cases (ltb_ℤ (pos 0) p.idx && is_no_key c.reply.err)) [
    | inl b ↦ rw (ok, b) (resets _ _ (ground arith) refl)
    | inr b ↦ rw (ok, b) (stays _ _ refl)
  ]
]

put_round-View :
    (p : Putting) (at : Place) (c : Outcome PutAppendReply) → PutView p c (put_round p at c)
unfolding put_round
put_round-View p (trying i) c = elim (Bool-cases (not c.reached || c.reply.wrong_leader)) [
  | inl b ↦ rw b (stays p _ refl)
  | inr b ↦ rw b (Acknowledged p c _ (ground arith) (ground arith))
]
put_round-View p asking c = elim (Bool-cases (not c.reached || c.reply.wrong_leader)) [
  | inl b ↦ rw b (stays _ _ refl)
  | inr b ↦ rw b (Acknowledged p c _ (ground arith) (ground arith))
]

IsConfirmed-IsAccepted :
    {cs : List (Outcome PutAppendReply)}
    → IsConfirmed cs
    → Later
        (λ (d : Outcome PutAppendReply) (after : List (Outcome PutAppendReply)). IsAccepted d)
        cs
IsConfirmed-IsAccepted (here (a, i, l)) = here a
IsConfirmed-IsAccepted (there l) = there (IsConfirmed-IsAccepted l)

PutView-Needs :
    (p q : Putting) (at : Place) (c : Outcome PutAppendReply) (cs : List (Outcome PutAppendReply))
    → PutView p c (again q at)
    → Needs q.idx cs
    → Needs p.idx (c ∷ cs)
PutView-Needs p q at c cs (stays _ _ e) n = (λ l. there (n.0 (rw e l)), λ l. there (n.1 (rw e l)))
PutView-Needs p q at c cs (takes _ _ a l e) n = (
  λ m. elim (Bool-cases (ltb_ℤ (pos 0) q.idx)) [
    | inl b ↦ here (a, rw (sym e) (ground arith), n.1 (ground arith))
    | inr b ↦ there (n.0 (ground arith))
  ],
  λ g. absurd (omega arith),
)
PutView-Needs p q at c cs (resets _ _ g e) n =
    (λ l. absurd (omega arith), λ l. there (IsConfirmed-IsAccepted (n.0 (rw e (omega arith)))))

put_loop-Needs :
    (p : Putting) (at : Place) (cs : List (Outcome PutAppendReply)) (ck' : Clerk)
    → put_loop p at cs ≡ some ck'
    → Needs p.idx cs
unfolding put_loop
put_loop-Needs p at [] ck' e = absurd (none-ne-some _ e)
put_loop-Needs p at (c ∷ cs) ck' e =
    go (put_round p at c) (put_round-View p at c) e (λ q to f. put_loop-Needs q to cs ck' f)
  where
    go :
        (r : Round Putting Unit)
        → PutView p c r
        → (elim r [ again p at ↦ put_loop p at cs | done p u ↦ some p.clerk ]) ≡ some ck'
        → ((q : Putting) (to : Place) → put_loop q to cs ≡ some ck' → Needs q.idx cs)
        → Needs p.idx (c ∷ cs)
    go (again q to) v e ih = PutView-Needs p q to c cs v (ih q to e)
    go (done q u) (ends _ a g) e ih = (λ l. absurd (omega arith), λ m. here a)

put_append-run :
    (ck : Clerk) (context_id op key value : Bytes) (cs : List (Outcome PutAppendReply))
    → (eq_bytes op put_op || eq_bytes op append_op) ≡ true
    → put_append ck context_id op key value cs ≡ (
        if ltb 0 ck.servers
        then put_loop (record { clerk = ck; idx = pos 0 }) (enter ck) cs
        else none)
unfolding put_append put_append_args
put_append-run ck context_id op key value cs o = rw (put_append, put_append_args, o) refl

-- When `PutAppend` returns for a put or an append, a leader has accepted a call and given a positive
-- index, and after that a leader has accepted a further call.
pub put_append-IsConfirmed :
    (ck ck' : Clerk) (context_id op key value : Bytes) (cs : List (Outcome PutAppendReply))
    → (eq_bytes op put_op || eq_bytes op append_op) ≡ true
    → put_append ck context_id op key value cs ≡ some ck'
    → IsConfirmed cs
put_append-IsConfirmed ck ck' context_id op key value cs o e =
    go (ltb 0 ck.servers) (sym (put_append-run ck context_id op key value cs o) ∙ e)
  where
    go :
        (b : Bool)
        → (if b then put_loop (record { clerk = ck; idx = pos 0 }) (enter ck) cs else none)
          ≡ some ck'
        → IsConfirmed cs
    go true f =
        (put_loop-Needs (record { clerk = ck; idx = pos 0 }) (enter ck) cs ck' f).0 (omega arith)
    go false f = absurd (none-ne-some _ f)
