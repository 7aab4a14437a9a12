-- ===== src/Raft/Vote/Grants.antt =====
-- When `RequestVote` of raft/raft.go grants a vote, and what it leaves behind.
use my_raft.Base.{
  ℤ, negsuc, ◌≤ℤ◌, ◌<ℤ◌, eqb_ℤ_iff, ltb_ℤ, if◌then◌else◌, ◌≡◌, ◌≢◌, ◌↔◌, ◌⊎◌, true, false, some,
  none, last, arith,
}
use my_raft.Raft.Data.{RaftLog, RequestVoteArgs, RequestVoteReply}
use my_raft.Raft.State.{Raft, persist}
use my_raft.Raft.Vote.{request_vote, up_to_date}

-- Raft's rule, stated apart from the code: the last entry of the candidate is as recent.
abbrev pub AsRecent : RaftLog → RaftLog → Type 0
AsRecent mine candidate =
    (mine.term <ℤ candidate.term) ⊎ ((mine.term ≡ candidate.term) × (mine.index ≤ℤ candidate.index))

-- The term is new to the server, or it is the server's own and no vote was cast in it.
abbrev pub IsFree : Raft → ℤ → Type 0
IsFree rf term = (rf.current_term <ℤ term) ⊎ ((rf.current_term ≡ term) × (rf.voted_for ≡ negsuc 0))

module _ (rf : Raft) (args : RequestVoteArgs) (mine : RaftLog) (e : last rf.logs ≡ some mine) where
  -- Where the log has a last entry, a call of `RequestVote` returns.
  pub request_vote-total : request_vote rf args ≢ none
  unfolding request_vote
  request_vote-total = ground arith

  module _ (rf' : Raft) (reply : RequestVoteReply)
      (r : request_vote rf args ≡ some (rf', reply)) where
    -- A call on a server whose log has a last entry grants the vote exactly when the term is new, or is
    -- the server's own without a vote cast in it, and the candidate's last entry is as recent.
    pub request_vote-grants : (reply.voted ≡ true) ↔ (IsFree rf args.term × AsRecent mine args.log)
    unfolding request_vote up_to_date persist
    request_vote-grants = ground (
      arith,
      eqb_ℤ_iff rf.current_term args.term,
      eqb_ℤ_iff rf.voted_for (negsuc 0),
      eqb_ℤ_iff mine.term args.log.term,
    )

    -- Where a call on a server whose log has a last entry does not grant the vote, the server stays
    -- what it was, leader or not, with its old `VotedFor` and its log; a term that is not older is
    -- taken over all the same.
    pub request_vote-refused :
        reply.voted ≡ false
        → (rf'.is_leader ≡ rf.is_leader)
          × (rf'.voted_for ≡ rf.voted_for)
          × (rf'.logs ≡ rf.logs)
          × (rf'.current_term
              ≡ (if ltb_ℤ args.term rf.current_term then rf.current_term else args.term))
    unfolding request_vote persist
    request_vote-refused denied = ground arith
