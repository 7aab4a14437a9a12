-- ===== src/Raft/Exchange/Everyone.antt =====
-- Heartbeats from a leader of raft/raft.go to all its peers, in any order.
use my_raft.Base.{
  ℕ, ◌≤◌, ◌<◌, ◌==◌, ==_iff, ℕ_discrete, true, false, ◌≡◌, ◌≢◌, inl, inr, refl, sym, subst, ◌∙◌,
  some, List, [], ◌∷◌, length, length-set, set, get_elem?, get_elem?-lt, get_elem?-set,
  get_elem?-set_other, if◌then◌else◌, arith,
}
use my_raft.Raft.State.{Raft}
use my_raft.Raft.Exchange.{Delivery, all_rounds}
use my_raft.Raft.Exchange.Linked.{IsSender, IsFollower, Holds}
use my_raft.Raft.Exchange.Tally.{Tallied, Tallied-trans}
use my_raft.Raft.Exchange.Reply.{SameLead, Others, SameLead-IsFollower, SameLead-IsSender}
use my_raft.Raft.Exchange.Round.{Turns, round-Turns, SameLead-refl}
use my_raft.Raft.Exchange.Catches.{answers, HasCaught, Near, Near-Turns, Near-done, SameLead-trans}

-- What becomes of the calls to one peer.
abbrev pub to : ℕ → List (ℕ × Delivery) → List Delivery
to j [] = []
to j ((i, d) ∷ ds) = if i == j then d ∷ to j ds else to j ds

-- The calls go to servers of the list, and none to the leader.
abbrev pub Aimed : ℕ → ℕ → List (ℕ × Delivery) → Type 0
Aimed me n [] = Unit
Aimed me n ((i, d) ∷ ds) = (i < n) × (i ≢ me) × Aimed me n ds

-- The leader and one peer on the way; k replies more come back.
pub record Stands (Brief Start : Type 0) (rf : Raft) (peers : List Raft) (j k : ℕ) : Type 0 where
  pub n : ℕ
  pub a : ℕ
  pub peer : Raft
  pub at : get_elem? peers j ≡ some peer
  pub sender : IsSender rf j n
  pub follower : IsFollower rf peer a
  pub short : Brief → length peer.logs ≤ length rf.logs
  pub near : Start → Near rf peer j n k

Near-SameLead :
    (rf rf' peer : Raft) (j n k : ℕ)
    → SameLead rf rf'
    → get_elem? rf'.match_index j ≡ get_elem? rf.match_index j
    → Near rf peer j n k
    → Near rf' peer j n k
unfolding Near
Near-SameLead rf rf' peer j n k same m near =
    let logs_of : Holds rf.logs peer.logs → Holds rf'.logs peer.logs = λ h. rw same.logs h in
    elim near [
      | inl h ↦ inl (logs_of h.0, rw (same.logs, m) h.1)
      | inr rest ↦ elim rest [ inl h ↦ inr (inl (logs_of h.0, h.1)) | inr h ↦ inr (inr h) ]
    ]

module _ (Brief Start : Type 0) (i : ℕ) (d : Delivery) (ds : List (ℕ × Delivery)) (rf : Raft)
    (peers : List Raft) (rf' peer' : Raft) where
  Stands-self :
      (s : Stands Brief Start rf peers i (answers (to i ((i, d) ∷ ds))))
      → Turns d rf s.peer i s.n s.a rf' peer'
      → Stands Brief Start rf' (set peers i peer') i (answers (to i ds))
  Stands-self s t =
      let here : (i == i) ≡ true = ground arith in
      record {
        n = t.n';
        a = t.b;
        peer = peer';
        at = get_elem?-set peers i peer' (get_elem?-lt peers i s.peer s.at);
        sender = t.sender;
        follower = t.follower;
        short = λ brief. rw t.same.logs (t.short (s.short brief));
        near = λ start.
            Near-Turns d (to i ds) rf s.peer i s.n s.a rf' peer' t s.sender
              (rw here at (s.near start));
      }

  Stands-other :
      (j : ℕ)
      → i ≢ j
      → SameLead rf rf'
      → Others rf rf' i
      → Stands Brief Start rf peers j (answers (to j ((i, d) ∷ ds)))
      → Stands Brief Start rf' (set peers i peer') j (answers (to j ds))
  Stands-other j ne same others s =
      let there : (i == j) ≡ false = ground (arith, ==_iff i j) in
      let (next, matches) = others j ne in
      let (m, at_m) = s.sender.matched in
      record {
        n = s.n;
        a = s.a;
        peer = s.peer;
        at = get_elem?-set_other peers i j peer' ne ∙ s.at;
        sender =
            SameLead-IsSender rf rf' j s.n s.n m same s.sender s.sender.low (next ∙ s.sender.next)
              (matches ∙ at_m);
        follower = SameLead-IsFollower rf rf' s.peer s.a same s.follower;
        short = λ brief. rw same.logs (s.short brief);
        near = λ start.
            Near-SameLead rf rf' s.peer j s.n (answers (to j ds)) same matches
              (rw there at (s.near start));
      }

module _ (capacity me : ℕ) (Brief : Type 0) (Start : ℕ → Type 0) where
  abbrev pub AllStand : List (ℕ × Delivery) → Raft → List Raft → Type 0
  AllStand ds rf peers =
      (j : ℕ) → j < length peers → j ≢ me → Stands Brief (Start j) rf peers j (answers (to j ds))

  pub all_rounds-Run :
      (ds : List (ℕ × Delivery)) (rf : Raft) (peers : List Raft)
      → Aimed me (length peers) ds
      → AllStand ds rf peers
      → (rf' : Raft) × (peers' : List Raft) × (all_rounds ds capacity rf peers ≡ some (rf', peers'))
        × SameLead rf rf'
        × ((j : ℕ)
            → j < length peers
            → j ≢ me
            → (peer : Raft) × (get_elem? peers' j ≡ some peer) × (Start j → HasCaught rf' peer j))
        × (Brief → Tallied rf rf')
  unfolding all_rounds
  all_rounds-Run [] rf peers aimed all = (
    rf,
    peers,
    refl,
    SameLead-refl rf,
    λ j lt ne.
        let s = all j lt ne in
        (s.peer, s.at, λ start. Near-done rf s.peer j s.n (s.near start) s.sender.low),
    λ brief. refl,
  )
  all_rounds-Run ((i, d) ∷ ds) rf peers (lt, ne, aimed) all =
      let s = all i lt ne in
      let (rf1, peer1, e, t) = round-Turns capacity i s.n s.a rf s.peer s.sender s.follower d in
      let size = length-set peers i peer1 in
      let next : AllStand ds rf1 (set peers i peer1) = λ j lt' ne'. elim (ℕ_discrete i j) [
        | yes same ↦
            subst (λ x. Stands Brief (Start x) rf1 (set peers i peer1) x (answers (to x ds))) same
              (Stands-self Brief (Start i) i d ds rf peers rf1 peer1 s t)
        | no other ↦
            Stands-other Brief (Start j) i d ds rf peers rf1 peer1 j other t.same t.others
              (all j (omega (arith, lt', size)) ne')
      ] in
      let (rf2, peers2, e2, kept, done, tally) =
        all_rounds-Run ds rf1 (set peers i peer1) (subst (λ x. Aimed me x ds) (sym size) aimed)
          next in
      (
        rf2,
        peers2,
        rw (s.at, e) e2,
        SameLead-trans rf rf1 rf2 t.same kept,
        λ j lt' ne'. done j (omega (arith, lt', size)) ne',
        λ brief.
            Tallied-trans rf rf1 rf2 t.same.logs (t.tallied (t.short (s.short brief)))
              (tally brief),
      )
