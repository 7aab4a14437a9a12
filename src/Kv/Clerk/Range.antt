-- ===== src/Kv/Clerk/Range.antt =====
-- The indices into `ck.servers` of raftclient/client/client.go.
use my_raft.Base.{
  ℕ, ◌<◌, ℤ, pos, negsuc, ◌<ℤ◌, ◌≤ℤ◌, Bool, Bool-cases, inl, inr, ltb_ℤ, ltb, ◌+◌, if◌then◌else◌,
  refl, not, ◌||◌, true, false, Option, none, some, arith, ◌≡◌,
}
use my_raft.Kv.Server.{GetReply, PutAppendReply}
use my_raft.Kv.Clerk.{
  Clerk, Outcome, Place, trying, asking, enter, next_server, Round, again, done, set_leader,
  get_round, Putting, acknowledge, continue, retry, put_round, is_no_key, is_ok,
}

abbrev pub InRange : Clerk → Type 0
InRange ck = ck.last_leader <ℤ pos ck.servers

-- The server that the next call goes to exists.
abbrev pub IsPlaced : Clerk → Place → Type 0
IsPlaced ck (trying i) = (i < ck.servers) × (InRange ck)
IsPlaced ck asking = (pos 0 ≤ℤ ck.last_leader) × InRange ck

abbrev pub RoundIsPlaced : {S R : Type 0} → ℕ → (S → Clerk) → Round S R → Type 0
RoundIsPlaced n f (again s at) = IsPlaced (f s) at × ((f s).servers ≡ n)
RoundIsPlaced n f (done s r) = InRange (f s) × ((f s).servers ≡ n)

enter-IsPlaced : (ck : Clerk) → 0 < ck.servers → InRange ck → IsPlaced ck (enter ck)
enter-IsPlaced ck n r = elim (Bool-cases (ltb_ℤ ck.last_leader (pos 0))) [
  | inl e ↦ rw e (n, r)
  | inr e ↦ rw e (ground arith, r)
]

next_server-IsPlaced :
    (ck : Clerk) (i : ℕ) → i < ck.servers → InRange ck → IsPlaced ck (next_server ck i)
next_server-IsPlaced ck i n r = elim (Bool-cases (ltb (i + 1) ck.servers)) [
  | inl e ↦ rw e (ground arith, r)
  | inr e ↦ rw e (enter-IsPlaced ck (omega arith) r)
]

if-RoundIsPlaced :
    {S R : Type 0} (n : ℕ) (f : S → Clerk) (b : Bool) (x y : Round S R)
    → RoundIsPlaced n f x
    → RoundIsPlaced n f y
    → RoundIsPlaced n f (if b then x else y)
if-RoundIsPlaced n f true x y p q = p
if-RoundIsPlaced n f false x y p q = q

abbrev pub is_self : Clerk → Clerk
is_self ck = ck

get_round-IsPlaced :
    (ck : Clerk) (at : Place) (c : Outcome GetReply)
    → IsPlaced ck at
    → RoundIsPlaced ck.servers is_self (get_round ck at c)
unfolding get_round
get_round-IsPlaced ck (trying i) c (n, r) =
    if-RoundIsPlaced _ is_self (is_no_key c.reply.err) _ _ (r, refl)
      (if-RoundIsPlaced _ is_self (not c.reached || c.reply.wrong_leader) _ _
        (next_server-IsPlaced ck i n r, refl)
        (if-RoundIsPlaced _ is_self (is_ok c.reply.err) _ _ (omega arith, refl)
          (next_server-IsPlaced (set_leader ck (pos i)) i n (omega arith), refl)))
get_round-IsPlaced ck asking c (n, r) =
    if-RoundIsPlaced _ is_self (is_no_key c.reply.err) _ _ (r, refl)
      (if-RoundIsPlaced _ is_self (not c.reached || c.reply.wrong_leader) _ _
        ((omega arith, omega arith), refl)
        (if-RoundIsPlaced _ is_self (is_ok c.reply.err) _ _ (r, refl) ((n, r), refl)))

abbrev pub is_clerk : Putting → Clerk
is_clerk p = p.clerk

continue-IsPlaced :
    (ck : Clerk) (o : Option ℤ)
    → 0 < ck.servers
    → InRange ck
    → RoundIsPlaced ck.servers is_clerk (continue ck o)
continue-IsPlaced ck none n r = (r, refl)
continue-IsPlaced ck (some idx) n r = (enter-IsPlaced ck n r, refl)

put_round-IsPlaced :
    (p : Putting) (at : Place) (c : Outcome PutAppendReply)
    → IsPlaced p.clerk at
    → RoundIsPlaced p.clerk.servers is_clerk (put_round p at c)
unfolding put_round
put_round-IsPlaced p (trying i) c (n, r) =
    if-RoundIsPlaced _ is_clerk (not c.reached || c.reply.wrong_leader) _ _
      (next_server-IsPlaced p.clerk i n r, refl)
      (continue-IsPlaced (set_leader p.clerk (pos i)) (acknowledge p.idx c.reply) (omega arith)
        (omega arith))
put_round-IsPlaced p asking c (n, r) =
    if-RoundIsPlaced _ is_clerk (not c.reached || c.reply.wrong_leader) _ _
      (retry-IsPlaced c.reply.wrong_leader)
      (continue-IsPlaced p.clerk (acknowledge p.idx c.reply) (omega arith) r)
  where
    retry-IsPlaced :
        (b : Bool)
        → RoundIsPlaced p.clerk.servers is_clerk
            (retry p (if b then set_leader p.clerk (negsuc 0) else p.clerk))
    retry-IsPlaced true = ((omega arith, omega arith), refl)
    retry-IsPlaced false = (enter-IsPlaced p.clerk (omega arith) r, refl)

-- Whatever the calls give, each next call of `Get` and of `PutAppend` goes to a server that exists
-- if this one does: the index that the loop comes to, or that of the last leader, is in the range.
pub rounds-IsPlaced :
    (p : Putting) (at : Place) (c : Outcome GetReply) (d : Outcome PutAppendReply)
    → IsPlaced p.clerk at
    → RoundIsPlaced p.clerk.servers is_self (get_round p.clerk at c)
      × RoundIsPlaced p.clerk.servers is_clerk (put_round p at d)
rounds-IsPlaced p at c d w = (get_round-IsPlaced p.clerk at c w, put_round-IsPlaced p at d w)
