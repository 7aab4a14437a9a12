-- ===== src/Raft/Exchange/Catches.antt =====
-- Heartbeats in a row from the leader of raft/raft.go to a peer, some of them lost: the peer gets all
-- the leader's log.
use my_raft.Base.{ℕ, suc, ◌≤◌, ◌<◌, ◌≡◌, ◌⊎◌, inl, inr, refl, ◌∙◌, some, List, [], ◌∷◌, arith}
use my_raft.Raft.Data.{RaftLog}
use my_raft.Raft.State.{Raft}
use my_raft.Raft.Exchange.{Delivery, lost, unanswered, answered, rounds}
use my_raft.Raft.Exchange.Linked.{IsSender, IsFollower, Holds, HasMatched}
use my_raft.Raft.Exchange.Reply.{SameLead}
use my_raft.Raft.Exchange.Round.{Silent, caught, nearer, waits, Turns, round-Turns}

-- How many replies come back.
abbrev pub answers : List Delivery → ℕ
answers [] = 0
answers (lost ∷ ds) = answers ds
answers (unanswered ∷ ds) = answers ds
answers (answered ∷ ds) = suc (answers ds)

-- The peer holds the log of the leader, who knows it.
abbrev pub HasCaught : Raft → Raft → ℕ → Type 0
HasCaught rf peer server = Holds rf.logs peer.logs × HasMatched rf server

-- k replies more are enough for that.
unfoldable pub Near : Raft → Raft → ℕ → ℕ → ℕ → Type 0
Near rf peer server n k = HasCaught rf peer server ⊎ (Holds rf.logs peer.logs × 0 < k) ⊎ (n ≤ k)

pub SameLead-trans : (rf rf' rf'' : Raft) → SameLead rf rf' → SameLead rf' rf'' → SameLead rf rf''
SameLead-trans rf rf' rf'' k k' = record {
  logs = k'.logs ∙ k.logs;
  term = k'.term ∙ k.term;
  leads = k'.leads ∙ k.leads;
  commit = k'.commit ∙ k.commit;
  applied = k'.applied ∙ k.applied;
  peers = k'.peers ∙ k.peers;
  hands = k'.hands ∙ k.hands;
}

-- A leader and a peer that are so still, with a log of the leader that is the same.
pub record Linked (rf rf' peer' : Raft) (server a : ℕ) : Type 0 where
  pub next : ℕ
  pub b : ℕ
  pub same : SameLead rf rf'
  pub sender : IsSender rf' server next
  pub follower : IsFollower rf' peer' b
  pub no_less : a ≤ b

answers_le : (d : Delivery) (ds : List Delivery) → answers (d ∷ ds) ≤ suc (answers ds)
answers_le lost ds = omega arith
answers_le unanswered ds = omega arith
answers_le answered ds = omega arith

answers-Silent : (d : Delivery) (ds : List Delivery) → Silent d → answers (d ∷ ds) ≡ answers ds
answers-Silent lost ds q = refl
answers-Silent unanswered ds q = refl
answers-Silent answered ds q = absurd q

pub Near-Turns :
    (d : Delivery) (ds : List Delivery) (rf peer : Raft) (server n a : ℕ) (rf' peer' : Raft)
    → (t : Turns d rf peer server n a rf' peer') → IsSender rf server n
    → Near rf peer server n (answers (d ∷ ds))
    → Near rf' peer' server t.n' (answers ds)
unfolding Near
Near-Turns d ds rf peer server n a rf' peer' t s near =
    let logs_of : (l : List RaftLog) → Holds rf.logs l → Holds rf'.logs l =
      λ l h. rw t.same.logs h in
    elim t.progress [
      | caught all m ↦ inl (logs_of peer'.logs all, m)
      | nearer other lt ↦ elim near [
        | inl h ↦ absurd (other h.0)
        | inr rest ↦ elim rest [
          | inl h ↦ absurd (other h.0)
          | inr le ↦ inr (inr (omega (arith, answers_le d ds)))
        ]
      ]
      | waits quiet e hold m ↦ elim near [
        | inl h ↦ inl (logs_of peer'.logs (hold h.0), m h.1)
        | inr rest ↦ elim rest [
          | inl h ↦
              inr
                (inl (logs_of peer'.logs (hold h.0), omega (arith, h.1, answers-Silent d ds quiet)))
          | inr le ↦ inr (inr (omega (arith, answers-Silent d ds quiet)))
        ]
      ]
    ]

-- No more replies come back.
pub Near-done :
    (rf peer : Raft) (server n : ℕ) → Near rf peer server n 0 → 0 < n → HasCaught rf peer server
unfolding Near
Near-done rf peer server n near low = elim near [
  | inl h ↦ h
  | inr rest ↦ elim rest [ inl h ↦ absurd (omega (arith, h.1)) | inr h ↦ absurd (omega arith) ]
]

module _ (capacity server : ℕ) where
  abbrev Run : List Delivery → Raft → Raft → ℕ → ℕ → Type 0
  Run ds rf peer n a =
      (rf' peer' : Raft) × (rounds ds capacity rf server peer ≡ some (rf', peer'))
      × Linked rf rf' peer' server a
      × (Near rf peer server n (answers ds) → HasCaught rf' peer' server)

  rounds-Run :
      (ds : List Delivery) (rf peer : Raft) (n a : ℕ)
      → IsSender rf server n
      → IsFollower rf peer a
      → Run ds rf peer n a
  unfolding rounds Near
  rounds-Run [] rf peer n a s f = (
    rf,
    peer,
    refl,
    record {
      next = n;
      b = a;
      same = record {
        logs = refl;
        term = refl;
        leads = refl;
        commit = refl;
        applied = refl;
        peers = refl;
        hands = refl;
      };
      sender = s;
      follower = f;
      no_less = omega arith;
    },
    λ near. Near-done rf peer server n near s.low,
  )
  rounds-Run (d ∷ ds) rf peer n a s f =
      let (rf', peer', e, t) = round-Turns capacity server n a rf peer s f d in
      let (rf'', peer'', e', k, then_caught) =
        rounds-Run ds rf' peer' t.n' t.b t.sender t.follower in
      (
        rf'',
        peer'',
        rw e e',
        record {
          next = k.next;
          b = k.b;
          same = SameLead-trans rf rf' rf'' t.same k.same;
          sender = k.sender;
          follower = k.follower;
          no_less = omega (arith, t.no_less, k.no_less);
        },
        λ near. then_caught (Near-Turns d ds rf peer server n a rf' peer' t s near),
      )

module _ (capacity server n a : ℕ) (rf peer : Raft) (s : IsSender rf server n)
    (f : IsFollower rf peer a) (ds : List Delivery) where
  -- Between a leader with a well-formed log that begins with an entry of an older term, for a peer
  -- with a positive next index and a match index, and that peer, whose log is well formed, matches the
  -- leader's and begins with an entry of the same term, whose commit index is the index that it has applied
  -- and whose term is not newer, heartbeats in any number return, whichever of the calls are lost or
  -- not answered; all this holds again, the leader's log and term are as they were and it still leads,
  -- and the peer's commit index is no lower.
  pub rounds-Linked :
      (rf' peer' : Raft) × (rounds ds capacity rf server peer ≡ some (rf', peer'))
      × Linked rf rf' peer' server a
  rounds-Linked =
      let (rf', peer', e, k, _) = rounds-Run capacity server ds rf peer n a s f in
      (rf', peer', e, k)

  -- Between such a leader and such a peer, once at least as many heartbeats are answered as the next
  -- index of the peer says, whichever others are lost, the leader's log is as it was, the peer's log has at
  -- every position of it an entry of the same term, and the match index is that of the leader's last
  -- entry or higher.
  pub rounds-HasCaught :
      n ≤ answers ds
      → (rf' peer' : Raft) × (rounds ds capacity rf server peer ≡ some (rf', peer'))
        × (rf'.logs ≡ rf.logs)
        × HasCaught rf' peer' server
  unfolding Near
  rounds-HasCaught enough =
      let (rf', peer', e, k, catches) = rounds-Run capacity server ds rf peer n a s f in
      (rf', peer', e, k.same.logs, catches (inr (inr enough)))
