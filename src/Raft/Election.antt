-- ===== src/Raft/Election.antt =====
-- The election of raft/raft.go: the goroutine under "raft loops" and the two that it starts.
use my_raft.Base.{
  ℕ, suc, ◌+◌, ◌/◌, ◌==◌, ℤ, pos, add32, int32, ltb_ℤ, if◌then◌else◌, Bool, true, false, Option,
  some, List, [], ◌∷◌, ◌++◌, length, last, replicate, ◌>>=◌,
}
use my_raft.Raft.Data.{RaftLog, AppendEntriesArgs, RequestVoteArgs, RequestVoteReply}
use my_raft.Raft.State.{Raft, Effect, emit}

-- What an election captures when the timer fires.
pub record Campaign : Type 0 where
  pub term : ℤ
  pub last_log : RaftLog
  pub commit_idx : ℤ

abbrev pub vote_args : Raft → Campaign → RequestVoteArgs
vote_args rf c = record { term = c.term; id = pos rf.me; log = c.last_log }

-- The election timer fires. The caller has seen that the server is no leader.
unfoldable pub begin_election : Raft → Option (Raft × Campaign)
begin_election rf = do
  let term = add32 rf.current_term (pos 1)
  last_log ← last rf.logs
  some (
    record rf { current_term = term; voted_for = pos rf.me },
    record { term = term; last_log = last_log; commit_idx = rf.commit_idx },
  )

-- The goroutine that counts the votes: it counts on, has won, or has quit.
pub data Session : Type 0 where
  counting : ℕ → Session
  won quit : Session

unfoldable pub count_vote : ℕ → Session → Bool → Session
count_vote peers (counting votes) true =
    if (votes + 1) == (peers / 2) then won else counting (votes + 1)
count_vote peers (counting votes) false = quit
count_vote peers won vote = won
count_vote peers quit vote = quit

unfoldable pub count_votes : ℕ → Session → List Bool → Session
unfolding count_vote
count_votes peers s [] = s
count_votes peers s (v ∷ vs) = count_votes peers (count_vote peers s v) vs

-- A send on `rf.rdyChnl[i]` for every peer but the server itself; `i` counts the queues.
unfoldable pub broadcast :
    ℕ → AppendEntriesArgs → ℕ → List (List AppendEntriesArgs) → List (List AppendEntriesArgs)
broadcast me args i [] = []
broadcast me args i (q ∷ qs) =
    (if i == me then q else q ++ args ∷ []) ∷ broadcast me args (suc i) qs

-- The votes have reached half of the peers.
unfoldable pub become_leader : Raft → Campaign → Raft
unfolding broadcast
become_leader rf c = record (emit (Effect.timer_reset true) rf) {
  is_leader = true;
  rdy_chnl =
      broadcast rf.me
        (record {
          term = c.term;
          leader_id = pos rf.me;
          prev_log = c.last_log;
          entries = [];
          leader_commit_idx = c.commit_idx;
        })
        0 rf.rdy_chnl;
  next_index = replicate rf.peers (int32 (length rf.logs));
  match_index = replicate rf.peers (pos 0);
}

-- What the goroutine of one peer does with a reply, and the vote that it passes to the count.
unfoldable pub receive_vote : Raft → RequestVoteReply → Raft × Bool
receive_vote rf reply =
    if reply.voted
    then (rf, reply.voted)
    else if ltb_ℤ rf.current_term reply.term
    then (
      record (emit (Effect.timer_reset false) rf) { current_term = reply.term; is_leader = false },
      reply.voted,
    )
    else (rf, reply.voted)
