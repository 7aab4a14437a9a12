-- ===== src/Raft/Loop/Quiet.antt =====
-- When the loop of raft/raft.go begins no election.
use my_raft.Base.{
  ℕ, suc, ◌+◌, ◌≤◌, ◌<◌, if◌then◌else◌, Bool, Bool-cases, true, false, Option, none, some, ◌≡◌, ◌⊎◌,
  inl, inr, arith,
}
use my_raft.Raft.Data.{AppendEntriesArgs, AppendEntriesReply, RequestVoteArgs, RequestVoteReply}
use my_raft.Raft.State.{Raft}
use my_raft.Raft.Vote.{request_vote}
use my_raft.Raft.Append.{heart_beat}
use my_raft.Raft.Election.{Campaign, begin_election}
use my_raft.Raft.Loop.{Loop, signals, turn, default_election_timeout}
use my_raft.Raft.Loop.Signals.{heart_beat-signals, request_vote-signals}

-- What happens to the server outside of the loop: a call of a peer, or what sends no signal. The Boolean
-- says whether it is a call.
pub data Happens (rf : Raft) : Bool → Raft → Type 0 where
  beats :
      {rf' : Raft} {reply : AppendEntriesReply} (args : AppendEntriesArgs)
      → heart_beat rf args ≡ some (rf', reply)
      → Happens rf true rf'
  asks :
      {rf' : Raft} {reply : RequestVoteReply} (args : RequestVoteArgs)
      → request_vote rf args ≡ some (rf', reply)
      → Happens rf true rf'
  others : (rf' : Raft) → signals rf'.effects ≡ signals rf.effects → Happens rf false rf'

-- A run of the loop from a state and a time on, in which less than 330 ms go by without a call of a
-- peer, with the times of the last call and of the last event.
pub data Run (start : ℕ) (l : Loop) : (call now : ℕ) → Loop → Type 0 where
  begins : Run start l start start l
  turns :
      {call now : ℕ} {k k' : Loop} {c : Option Campaign} (t : ℕ) (int31n : ℕ → ℕ)
      → Run start l call now k
      → now ≤ t
      → t < call + 330
      → turn t (default_election_timeout int31n) k ≡ some (k', c)
      → Run start l call t k'
  happens :
      {call now : ℕ} {k : Loop} {rf' : Raft} {called : Bool} (t : ℕ)
      → Run start l call now k
      → now ≤ t
      → t < call + 330
      → Happens k.rf called rf'
      → Run start l (if called then t else call) t (record k { rf = rf' })

-- A signal waits, or the timer does not fire within 330 ms of the last call.
record IsCalm (call now : ℕ) (l : Loop) : Type 0 where
  past : call ≤ now
  read : l.seen ≤ signals l.rf.effects
  rearmed : (l.seen < signals l.rf.effects) ⊎ (call + 330 ≤ l.deadline)

Happens-signals :
    {rf rf' : Raft} {called : Bool}
    → Happens rf called rf'
    → signals rf'.effects ≡ (if called then suc (signals rf.effects) else signals rf.effects)
Happens-signals {rf} {rf'} (beats {reply} args h) = heart_beat-signals rf rf' args reply h
Happens-signals {rf} {rf'} (asks {reply} args h) = request_vote-signals rf rf' args reply h
Happens-signals (others rf' e) = e

module _ (call now t : ℕ) (int31n : ℕ → ℕ) (l l' : Loop) (c : Option Campaign)
    (calm : IsCalm call now l) (le : now ≤ t) (lt : t < call + 330)
    (h : turn t (default_election_timeout int31n) l ≡ some (l', c)) where
  turn-IsCalm : IsCalm call t l'
  unfolding turn begin_election
  turn-IsCalm = record {
    past = omega (arith, calm.past, le);
    read = ground (arith, calm.past, calm.read, calm.rearmed);
    rearmed = ground (arith, calm.past, calm.rearmed);
  }

  turn-none : c ≡ none
  unfolding turn begin_election
  turn-none = ground (arith, calm.past, calm.rearmed)

  turn-same : l'.rf ≡ l.rf
  unfolding turn begin_election
  turn-same = ground (arith, calm.past, calm.rearmed)

Run-IsCalm :
    {start : ℕ} {l : Loop} {call now : ℕ} {k : Loop}
    → l.seen ≤ signals l.rf.effects
    → (l.seen < signals l.rf.effects) ⊎ (start + 330 ≤ l.deadline)
    → Run start l call now k
    → IsCalm call now k
Run-IsCalm seen h begins = record { past = omega arith; read = seen; rearmed = h }
Run-IsCalm seen h (turns {call} {now} {k} {k'} {c} t int31n r le lt e) =
    turn-IsCalm call now t int31n k k' c (Run-IsCalm seen h r) le lt e
Run-IsCalm seen h (happens {call} {now} {k} {called} t r le lt e) =
    let calm = Run-IsCalm seen h r in
    let sent = Happens-signals e in
    elim (Bool-cases called) [
      | inl b ↦ record {
        past = ground (arith, calm.past, b);
        read = ground (arith, calm.read, sent, b);
        rearmed = ground (arith, calm.read, calm.rearmed, sent, b);
      }
      | inr b ↦ record {
        past = ground (arith, calm.past, b);
        read = ground (arith, calm.read, sent, b);
        rearmed = ground (arith, calm.read, calm.rearmed, sent, b);
      }
    ]

-- From a state in which a signal waits or the election timer has 330 ms to go: while less than 330 ms go
-- by between one call of HeartBeat or RequestVote and the next, no turn of the loop begins an election
-- or changes the server, whenever the loop runs and whatever the timeouts it draws.
pub Run-quiet :
    (start call now t : ℕ) (l k k' : Loop) (int31n : ℕ → ℕ) (c : Option Campaign)
    → l.seen ≤ signals l.rf.effects
    → (l.seen < signals l.rf.effects) ⊎ (start + 330 ≤ l.deadline)
    → Run start l call now k
    → now ≤ t
    → t < call + 330
    → turn t (default_election_timeout int31n) k ≡ some (k', c)
    → (c ≡ none) × (k'.rf ≡ k.rf)
Run-quiet start call now t l k k' int31n c seen h r le lt e =
    let calm = Run-IsCalm seen h r in
    (
      turn-none call now t int31n k k' c calm le lt e,
      turn-same call now t int31n k k' c calm le lt e,
    )
