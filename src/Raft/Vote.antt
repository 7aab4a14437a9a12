-- ===== src/Raft/Vote.antt =====
-- `RequestVote` of raft/raft.go.
pub mod Grants
use my_raft.Base.{
  ℤ, pos, negsuc, ltb_ℤ, leb_ℤ, eqb_ℤ, if◌then◌else◌, Bool, true, false, ◌&&◌, ◌||◌, Option, some,
  [], last, ◌>>=◌,
}
use my_raft.Raft.Data.{RaftLog, RequestVoteArgs, RequestVoteReply, RpcArgs, MetricKind}
use my_raft.Raft.State.{Raft, Effect, emit, persist}

-- The candidate's last entry is at least as recent as the server's own.
unfoldable pub up_to_date : RaftLog → RaftLog → Bool
up_to_date mine candidate =
    ltb_ℤ mine.term candidate.term
    || (eqb_ℤ mine.term candidate.term && leb_ℤ mine.index candidate.index)

abbrev vote_metrics : Raft → RpcArgs
vote_metrics rf = record {
  idx = pos rf.me;
  rpc_from_idx = pos 0;
  logs = [];
  kind = MetricKind.election;
  voted_for = rf.voted_for;
  leader_idx = pos 0;
}

-- The server follows the candidate.
grant_vote : Raft → ℤ → Raft
grant_vote rf id =
    let rf = emit (Effect.timer_reset false) (record rf { voted_for = id; is_leader = false }) in
    emit (Effect.metrics (vote_metrics rf)) rf

-- `persist` runs at each return; `none` is a panic.
unfoldable pub request_vote : Raft → RequestVoteArgs → Option (Raft × RequestVoteReply)
unfolding grant_vote
request_vote rf args =
    let current = rf.current_term in
    let rf = emit Effect.rpc_signal rf in
    if ltb_ℤ args.term current
    then some (persist rf, record { term = current; voted = false })
    else (let rf = record rf { current_term = args.term } in
        if ltb_ℤ current args.term || (eqb_ℤ current args.term && eqb_ℤ rf.voted_for (negsuc 0))
        then (do
          mine ← last rf.logs
          if up_to_date mine args.log
              then some (persist (grant_vote rf args.id), record { term = args.term; voted = true })
              else some (persist rf, record { term = args.term; voted = false }))
        else some (persist rf, record { term = args.term; voted = false }))
