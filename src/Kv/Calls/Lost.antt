-- ===== src/Kv/Calls/Lost.antt =====
-- Which servers a clerk of raftclient/client/client.go asks while none can be reached.
use my_raft.Base.{
  ℕ, zero, suc, ◌+◌, ◌<◌, ℤ, pos, negsuc, ltb, ltb_ℤ, true, false, Option, none, some, List, [],
  ◌∷◌, length, get_elem?, ◌≡◌, refl, ap, ◌∙◌, arith,
}
use my_raft.Kv.Server.{GetReply, PutAppendReply}
use my_raft.Kv.Clerk.{
  Clerk, Outcome, Place, trying, asking, again, done, set_leader, get_round, Putting, put_round,
  put_loop, is_no_key,
}
use my_raft.Kv.Calls.{called}

-- The servers that the loop of `Get` asks, call by call.
unfoldable pub get_asks : Clerk → Place → List (Outcome GetReply) → List (Option ℕ)
get_asks ck at [] = []
get_asks ck at (c ∷ cs) =
    called ck at ∷ elim (get_round ck at c) [ again ck to ↦ get_asks ck to cs | done ck v ↦ [] ]

-- Those that the loop of `PutAppend` asks.
unfoldable pub put_asks : Putting → Place → List (Outcome PutAppendReply) → List (Option ℕ)
put_asks p at [] = []
put_asks p at (c ∷ cs) =
    called p.clerk at ∷ elim (put_round p at c) [ again q to ↦ put_asks q to cs | done q u ↦ [] ]

-- No call goes through; a reply says neither that there is no such key nor that its server does not lead.
abbrev pub AllLostGets : List (Outcome GetReply) → Type 0
AllLostGets [] = Unit
AllLostGets (c ∷ cs) = (c.reached ≡ false) × (is_no_key c.reply.err ≡ false) × AllLostGets cs

abbrev pub AllLostPuts : List (Outcome PutAppendReply) → Type 0
AllLostPuts [] = Unit
AllLostPuts (c ∷ cs) = (c.reached ≡ false) × (c.reply.wrong_leader ≡ false) × AllLostPuts cs

abbrev leaderless : Clerk → Clerk
leaderless ck = set_leader ck (negsuc 0)

module _ (n : ℕ) where
  abbrev lone : Clerk
  lone = record { servers = n; last_leader = negsuc 0 }

  -- From server i on, all further servers are asked in turn.
  trying-asks :
      (i k : ℕ) (cs : List (Outcome GetReply))
      → AllLostGets cs
      → i + k < n
      → k < length cs
      → get_elem? (get_asks lone (trying i) cs) k ≡ some (some (i + k))
  unfolding get_asks get_round called
  trying-asks i k [] lost lt enough = absurd (omega arith)
  trying-asks i zero (c ∷ cs) lost lt enough = ap (λ (x : ℕ). some (some x)) (omega arith)
  trying-asks i (suc k) (c ∷ cs) (off, known, lost) lt enough =
      let more : ltb (i + 1) n ≡ true = ground arith in
      rw (known, off, more)
        (trying-asks (i + 1) k cs lost (omega (arith, lt)) (omega (arith, enough))
          ∙ ap (λ (x : ℕ). some (some x)) (omega arith))

module _ (n l : ℕ) (idx : ℤ) where
  abbrev led : Clerk
  led = record { servers = n; last_leader = pos l }

  abbrev putting : Putting
  putting = record { clerk = led; idx = idx }

  get-asks :
      (k : ℕ) (cs : List (Outcome GetReply))
      → AllLostGets cs
      → k < n
      → suc k < length cs
      → get_elem? (get_asks led asking cs) (suc k) ≡ some (some k)
  unfolding get_asks get_round
  get-asks k [] lost lt enough = absurd (omega arith)
  get-asks k (c ∷ cs) (off, known, lost) lt enough =
      rw (known, off)
        (trying-asks n 0 k cs lost (omega (arith, lt)) (omega (arith, enough))
          ∙ ap (λ (x : ℕ). some (some x)) (omega arith))

  lost-round :
      (c : Outcome PutAppendReply)
      → c.reached ≡ false
      → c.reply.wrong_leader ≡ false
      → put_round putting asking c ≡ again putting asking
  unfolding put_round
  lost-round c off leads =
      let led_now : ltb_ℤ (pos l) (pos 0) ≡ false = ground arith in
      rw (put_round, off, leads, led_now) refl

  put-asks :
      (k : ℕ) (ds : List (Outcome PutAppendReply))
      → AllLostPuts ds
      → k < length ds
      → (get_elem? (put_asks putting asking ds) k ≡ some (some l))
        × (put_loop putting asking ds ≡ none)
  unfolding put_asks put_loop called
  put-asks k [] lost lt = absurd (omega arith)
  put-asks zero (c ∷ []) (off, leads, lost) lt =
      rw (put_asks, put_loop, lost-round c off leads) (refl, refl)
  put-asks zero (c ∷ d ∷ ds) (off, leads, lost) lt =
      rw (put_asks, put_loop, lost-round c off leads)
        (refl, (put-asks zero (d ∷ ds) lost (omega arith)).1)
  put-asks (suc k) (c ∷ ds) (off, leads, lost) lt =
      rw (put_asks, put_loop, lost-round c off leads) (put-asks k ds lost (omega (arith, lt)))

  -- A clerk has a last leader, and no call goes through, with replies that say neither that there is no
  -- such key nor that the server asked does not lead. Then `Get`, after its call to the last leader, asks
  -- every server in turn: its call after the next k is to server k; but every call of `PutAppend` is to the
  -- last leader, and it has not returned after them.
  pub get_asks-put_asks :
      (k j : ℕ) (cs : List (Outcome GetReply)) (ds : List (Outcome PutAppendReply))
      → AllLostGets cs
      → AllLostPuts ds
      → k < n
      → suc k < length cs
      → j < length ds
      → (get_elem? (get_asks led asking cs) (suc k) ≡ some (some k))
        × (get_elem? (put_asks putting asking ds) j ≡ some (some l))
        × (put_loop putting asking ds ≡ none)
  get_asks-put_asks k j cs ds gets puts lt enough within =
      let (asked, runs) = put-asks j ds puts within in (get-asks k cs gets lt enough, asked, runs)
