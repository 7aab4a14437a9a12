-- ===== src/Raft/Examples/Runs.antt =====
-- The theorems on elections, `Start` and the commit index of raft/raft.go at concrete runs.
use my_raft.Base.{
  ℕ, ◌+◌, ◌<◌, ◌≤◌, pos, ◌≡◌, ◌≢◌, refl, true, some, [], ◌∷◌, get_elem?, ap, pos_part, int32, ◌*◌,
  add32, arith, mem,
}
use my_raft.Raft.Data.{Command}
use my_raft.Raft.State.{Raft, persist}
use my_raft.Raft.Append.{apply_all, applied}
use my_raft.Raft.Append.Finish.{IsSettled}
use my_raft.Raft.Election.{Campaign, begin_election, count_vote}
use my_raft.Raft.Server.{ServerStep, has_ballot}
use my_raft.Raft.Server.Voting.{VotesOnce, VotesOnce-empty, ServerStep-VotesOnce}
use my_raft.Raft.Ticker.{ticker_on}
use my_raft.Raft.Server.Ticking.{TicksAsLeader, ServerStep-TicksAsLeader}
use my_raft.Raft.Vote.{request_vote, up_to_date}
use my_raft.Raft.Server.Saving.{SavesLog, IsSaved, ServerStep-SavesLog}
use my_raft.Raft.Cluster.{
  Cluster, ClusterReach, begins, steps, serves, counts, HasWon, begin, update, update_tally,
  tally_vote,
}
use my_raft.Raft.Cluster.Safety.{election_safety}
use my_raft.Raft.Leader.{start}
use my_raft.Raft.Leader.Jobs.{IsQueued}
use my_raft.Raft.Leader.Accepted.{poll_times, start-accepts}
use my_raft.Raft.Commit.Settles.{Commits, Awaits, update_commits-Commits}
use my_raft.Raft.Commit.{Tracker, update_commits, update_commit, report, reports}
use my_raft.Raft.Commit.Majority.{committed, update_commit-majority}
use my_raft.Base.{min}
use my_raft.Raft.Data.{AppendEntriesArgs}
use my_raft.Raft.Leader.{prepare}
use my_raft.Raft.Leader.Requests.{IsQueuedRequest, prepare-IsRequest}
use my_raft.Raft.Append.Outcome.{IsRequest}
use my_raft.Raft.Examples.{
  entry, server, leader, vote_request, voter, granted, server-IsLog, votes_run,
}

abbrev campaign : Campaign
campaign = record { term = pos 2; last_log = entry 1 1; commit_idx = pos 0 }

-- Server 0 after its election timer has fired.
abbrev candidate : Raft
candidate = record (server 0) { current_term = pos 2; voted_for = pos 0 }

campaign_run : begin_election (server 0) ≡ some (candidate, campaign)
unfolding begin_election add32
campaign_run = refl

campaign_step : ServerStep (server 0) [] candidate ((pos 2, pos 0) ∷ [])
campaign_step = ServerStep.campaigns {c = campaign} refl (omega arith) (omega arith) campaign_run

vote_step : ServerStep (server 1) [] voter ((pos 2, pos 0) ∷ [])
vote_step = ServerStep.votes {reply = granted} vote_request 0 refl votes_run

ServerStep-VotesOnce_example : VotesOnce voter ((pos 2, pos 0) ∷ [])
ServerStep-VotesOnce_example = ServerStep-VotesOnce vote_step (VotesOnce-empty (server 1))

server-TicksAsLeader : TicksAsLeader (server 1)
unfolding ticker_on
server-TicksAsLeader = refl

ServerStep-TicksAsLeader_example : TicksAsLeader voter
ServerStep-TicksAsLeader_example = ServerStep-TicksAsLeader vote_step server-TicksAsLeader

-- The server 1 after it has called `persist`, and what it is after the same vote.
abbrev saved_server : Raft
saved_server = record (server 1) {
  saved = some (record {
    term = (server 1).current_term;
    voted_for = (server 1).voted_for;
    logs = (server 1).logs;
  });
}

saved_run : request_vote saved_server vote_request ≡ some (voter, granted)
unfolding request_vote up_to_date persist
saved_run = refl

abbrev saved_step : ServerStep saved_server [] voter ((pos 2, pos 0) ∷ [])
saved_step = ServerStep.votes {reply = granted} vote_request 0 refl saved_run

ServerStep-SavesLog_example : SavesLog voter × IsSaved voter
ServerStep-SavesLog_example = ServerStep-SavesLog saved_step tt refl

-- The candidate's own ballot, that of server 1, and the count of it.
abbrev campaigned : Cluster
campaigned = record (begin server) {
  server = update server 0 candidate;
  ballots = update (λ _. []) 0 ((pos 2, pos 0) ∷ []);
}

abbrev voted : Cluster
voted = record campaigned {
  server = update campaigned.server 1 voter;
  ballots = update campaigned.ballots 1 ((pos 2, pos 0) ∷ []);
}

abbrev counted : Cluster
counted = record voted {
  tally = update_tally voted.tally 0 (pos 2) (tally_vote 3 (voted.tally 0 (pos 2)) 1 true);
}

counted-ClusterReach : ClusterReach 3 server counted
unfolding has_ballot mem
counted-ClusterReach =
    steps
      (steps (steps begins (serves 0 (omega arith) campaign_step))
        (serves 1 (omega arith) vote_step))
      (counts 0 1 (pos 2) true (omega arith) (omega arith) (omega arith) refl refl (λ v. refl))

counted-HasWon : HasWon counted 0 (pos 2)
unfolding count_vote
counted-HasWon = refl

election_safety_example : ◌≡◌ {A = ℕ} 0 0
election_safety_example =
    election_safety 3 server counted 0 0 (pos 2) counted-ClusterReach counted-HasWon counted-HasWon

leader-IsQueued : IsQueued leader
leader-IsQueued = record { log = server-IsLog; jobs = tt; idx = refl; room = omega arith }

-- A leader with a job in its channel.
abbrev busy : Raft
busy = record leader { jobs_chnl = entry 2 1 ∷ []; logidx = pos 2 }

busy-IsQueued : IsQueued busy
busy-IsQueued = record { log = server-IsLog; jobs = (refl, tt); idx = refl; room = omega arith }

abbrev set_x : Command
set_x = Command.object (some (b'x' ∷ [])) (some [])

start-accepts_example :
    ((start busy set_x).1 ≡ (pos 3, pos 1, true))
    × (rf : Raft) × (poll_times 2 (start busy set_x).0 ≡ some rf)
    × (get_elem? rf.logs 3 ≡ some (record { index = pos 3; term = pos 1; cmd = set_x }))
start-accepts_example = start-accepts busy set_x refl busy-IsQueued (omega arith)

leader-IsSettled : IsSettled leader 0
leader-IsSettled = record { applied_to = refl; committed_to = refl }

commit_run : update_commit leader [] (pos 1) ≡ some (committed leader 0 1, (pos 1, 1) ∷ [])
unfolding update_commit report reports int32 add32 apply_all persist applied
commit_run = refl

-- A report of an index beyond the log, one of a good one, and one more of it.
update_commits-Commits_example :
    (rf' : Raft) × (t' : Tracker) × (b : ℕ) × (update_commits leader [] (pos 9 ∷ pos 1 ∷ pos 1 ∷ [])
      ≡ some (rf', t'))
    × Commits leader 0 rf' b
    × ((k : ℕ) → k < 2 → Awaits leader [] 0 k (pos 9 ∷ pos 1 ∷ pos 1 ∷ []) → k ≤ b)
update_commits-Commits_example =
    update_commits-Commits (pos 9 ∷ pos 1 ∷ pos 1 ∷ []) leader [] 0 server-IsLog leader-IsSettled

moved : (committed leader 0 1).commit_idx ≢ leader.commit_idx
unfolding persist
moved e = omega (arith, ap pos_part e)

update_commit-majority_example :
    (committed leader 0 1 ≡ committed leader 0 1)
    × (3 < 2 * (reports ((pos 1, 1) ∷ []) (pos 1) + 1))
update_commit-majority_example =
    update_commit-majority leader [] 0 1 server-IsLog leader-IsSettled (committed leader 0 1)
      ((pos 1, 1) ∷ []) commit_run moved

-- A leader whose peers have one entry less than it.
abbrev ahead : Raft
ahead = record leader { next_index = pos 1 ∷ pos 1 ∷ pos 1 ∷ [] }

abbrev queued_request : AppendEntriesArgs
queued_request = record {
  term = pos 1;
  leader_id = pos 0;
  prev_log = entry 1 1;
  entries = [];
  leader_commit_idx = pos 0;
}

queued_request-IsQueuedRequest : IsQueuedRequest ahead queued_request 1
queued_request-IsQueuedRequest = record {
  request = record { at_prev = refl; consecutive = tt; fits = omega arith };
  in_log = omega arith;
}

prepare-IsRequest_example :
    (rf : Raft) × (out : AppendEntriesArgs) × (prepare 4 ahead 1 queued_request ≡ some (rf, out))
    × IsRequest out (min 0 1)
prepare-IsRequest_example =
    prepare-IsRequest 4 ahead 1 queued_request 1 1 server-IsLog queued_request-IsQueuedRequest refl
      (omega arith)
