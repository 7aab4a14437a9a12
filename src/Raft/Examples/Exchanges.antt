-- ===== src/Raft/Examples/Exchanges.antt =====
-- The theorems on heartbeats in a row (raft/raft.go) at a leader and a peer whose logs conflict.
use my_raft.Base.{
  ℕ, map, ℤ, ◌≢◌, ◌<◌, ◌≤◌, length, true, ◌≤ℤ◌, get_elem?, get_elem?-lt, true, false, zero, suc,
  pos, ◌≡◌, refl, arith, some, List, [], ◌∷◌,
}
use my_raft.Raft.Data.{RaftLog, Command}
use my_raft.Raft.State.{Raft, zero_log}
use my_raft.Raft.Log.{IsLog}
use my_raft.Raft.Exchange.{Delivery, lost, unanswered, answered, rounds, all_rounds}
use my_raft.Raft.Leader.{start}
use my_raft.Raft.Leader.Jobs.{IsQueued}
use my_raft.Raft.Leader.Accepted.{poll_times}
use my_raft.Raft.Exchange.Replicates.{NoneFrom, start-replicates}
use my_raft.Raft.Exchange.Linked.{IsSender, IsFollower, Matching}
use my_raft.Raft.Exchange.Catches.{answers, Linked, HasCaught, rounds-Linked}
use my_raft.Raft.Election.{Campaign, become_leader}
use my_raft.Raft.Exchange.Everyone.{to, Aimed}
use my_raft.Raft.Exchange.Elected.{all_rounds-become_leader}
use mathlib.Core.Option.{some-injective}
use my_raft.Raft.Append.{apply_msg}
use my_raft.Raft.Append.Finish.{IsSettled}
use my_raft.Raft.Commit.{Tracker, reports, update_commits}
use my_raft.Raft.Commit.Settles.{handed}
use my_raft.Raft.Exchange.Commits.{update_commits-all_rounds}
use my_raft.Raft.Examples.{entry, server}

abbrev pub new_log : List RaftLog
new_log = zero_log ∷ entry 1 1 ∷ entry 2 3 ∷ []

abbrev old_log : List RaftLog
old_log = zero_log ∷ entry 1 1 ∷ entry 2 2 ∷ []

abbrev new_leader : Raft
new_leader = record (server 0) {
  is_leader = true;
  current_term = pos 3;
  logidx = pos 2;
  logs = new_log;
  next_index = pos 3 ∷ pos 3 ∷ pos 3 ∷ [];
}

abbrev old_peer : Raft
old_peer = record (server 1) { current_term = pos 2; logidx = pos 2; logs = old_log }

abbrev calls : List Delivery
calls = answered ∷ lost ∷ unanswered ∷ answered ∷ answered ∷ []

pub new_log-IsLog : IsLog new_log
new_log-IsLog = record {
  some_entry = omega arith;
  fits = omega arith;
  consecutive = (refl, (refl, (refl, tt)));
}

old_log-IsLog : IsLog old_log
old_log-IsLog = record {
  some_entry = omega arith;
  fits = omega arith;
  consecutive = (refl, (refl, (refl, tt)));
}

new_leader-IsSender : IsSender new_leader 1 3
new_leader-IsSender = record {
  leads = refl;
  log = new_log-IsLog;
  next = refl;
  low = omega arith;
  matched = (pos 0, refl);
  old = (zero_log, refl, omega arith);
}

logs-Matching : Matching new_log old_log
logs-Matching zero zero e d e' d' le at_e at_d same at_e' at_d' = cc
logs-Matching zero (suc j) e d e' d' le at_e at_d same at_e' at_d' = absurd (omega arith)
logs-Matching (suc zero) zero e d e' d' le at_e at_d same at_e' at_d' = cc
logs-Matching (suc zero) (suc zero) e d e' d' le at_e at_d same at_e' at_d' = cc
logs-Matching (suc zero) (suc (suc j)) e d e' d' le at_e at_d same at_e' at_d' =
    absurd (omega arith)
logs-Matching (suc (suc zero)) j e d e' d' le at_e at_d same at_e' at_d' = ground arith
logs-Matching (suc (suc (suc i))) j e d e' d' le at_e at_d same at_e' at_d' = cc

old_peer-IsFollower : IsFollower new_leader old_peer 0
old_peer-IsFollower = record {
  log = old_log-IsLog;
  settled = record { applied_to = refl; committed_to = refl };
  matching = logs-Matching;
  begins = λ e d at_e at_d. cc;
  terms = omega arith;
}

rounds-Linked_example :
    (rf' peer' : Raft) × (rounds calls 3 new_leader 1 old_peer ≡ some (rf', peer'))
    × Linked new_leader rf' peer' 1 0
rounds-Linked_example =
    rounds-Linked 3 1 3 0 new_leader old_peer new_leader-IsSender old_peer-IsFollower calls

-- The server before its election.
abbrev pub winner : Raft
winner = record new_leader { is_leader = false; next_index = pos 0 ∷ pos 0 ∷ pos 0 ∷ [] }

winner-IsFollower : IsFollower winner old_peer 0
winner-IsFollower = record {
  log = old_log-IsLog;
  settled = record { applied_to = refl; committed_to = refl };
  matching = logs-Matching;
  begins = λ e d at_e at_d. cc;
  terms = omega arith;
}

abbrev pub campaign : Campaign
campaign = record { term = pos 3; last_log = entry 2 3; commit_idx = pos 0 }

-- A server that has only the first entry.
abbrev new_peer : Raft
new_peer = record (server 2) { logs = zero_log ∷ [] }

first-IsLog : IsLog (zero_log ∷ [])
first-IsLog = record { some_entry = omega arith; fits = omega arith; consecutive = (refl, tt) }

first-Matching : Matching new_log (zero_log ∷ [])
first-Matching zero zero e d e' d' le at_e at_d same at_e' at_d' = cc
first-Matching zero (suc j) e d e' d' le at_e at_d same at_e' at_d' = absurd (omega arith)
first-Matching (suc i) j e d e' d' le at_e at_d same at_e' at_d' = cc

new_peer-IsFollower : IsFollower winner new_peer 0
new_peer-IsFollower = record {
  log = first-IsLog;
  settled = record { applied_to = refl; committed_to = refl };
  matching = first-Matching;
  begins = λ e d at_e at_d. cc;
  terms = omega arith;
}

abbrev pub servers : List Raft
servers = winner ∷ old_peer ∷ new_peer ∷ []

pub all_follow :
    (j : ℕ)
    → j < length servers
    → j ≢ 0
    → (peer : Raft) × (get_elem? servers j ≡ some peer) × (a : ℕ) × IsFollower winner peer a
all_follow zero lt ne = absurd (ne refl)
all_follow (suc zero) lt ne = (old_peer, refl, 0, winner-IsFollower)
all_follow (suc (suc zero)) lt ne = (new_peer, refl, 0, new_peer-IsFollower)
all_follow (suc (suc (suc j))) lt ne = absurd (omega arith)

-- The one peer answers three times, the other once.
abbrev pub mixed : List (ℕ × Delivery)
mixed =
    (2, lost) ∷ (1, answered) ∷ (2, answered) ∷ (1, unanswered) ∷ (1, answered) ∷ (1, answered) ∷ []

pub mixed-Aimed : Aimed 0 3 mixed
mixed-Aimed = ground arith

all_rounds-become_leader_example :
    (rf' : Raft) × (peers' : List Raft) × (all_rounds mixed 3
        (become_leader winner campaign)
        servers
      ≡ some (rf', peers'))
    × (rf'.logs ≡ new_log)
    × ((j : ℕ)
        → j < 3
        → j ≢ 0
        → (peer : Raft) × (get_elem? peers' j ≡ some peer)
          × (3 ≤ answers (to j mixed) → HasCaught rf' peer j))
all_rounds-become_leader_example =
    all_rounds-become_leader 3 0 winner servers campaign new_log-IsLog zero_log refl (omega arith)
      (omega arith) all_follow mixed mixed-Aimed

-- A write at the leader, which has nothing in its channel.
abbrev write : Command
write = Command.object (some (b'c' ∷ [])) (some (b'w' ∷ []))

new_leader-IsQueued : IsQueued new_leader
new_leader-IsQueued = record { log = new_log-IsLog; jobs = tt; idx = refl; room = omega arith }

none_behind : NoneFrom (pos 3) 3 old_log
none_behind i d le g = let lt = get_elem?-lt old_log i d g in absurd (omega arith)

start-replicates_example :
    ((start new_leader write).1 ≡ (pos 3, pos 3, true))
    × (rf1 rf2 peer' : Raft) × (poll_times 1 (start new_leader write).0 ≡ some rf1)
    × (rounds calls 3 rf1 1 old_peer ≡ some (rf2, peer'))
    × (get_elem? rf2.logs 3 ≡ some (record { index = pos 3; term = pos 3; cmd = write }))
    × ((d : RaftLog) × (get_elem? peer'.logs 3 ≡ some d) × (d.term ≡ pos 3))
    × (m : ℤ) × (get_elem? rf2.match_index 1 ≡ some m)
    × (pos 3 ≤ℤ m)
start-replicates_example =
    start-replicates 3 1 3 0 new_leader old_peer write new_leader-IsSender old_peer-IsFollower
      new_leader-IsQueued (omega arith) (λ i d g. cc) none_behind calls (omega arith)

pub winner-IsSettled : IsSettled winner 0
winner-IsSettled = record { applied_to = refl; committed_to = refl }

pub all_short :
    (j : ℕ) (peer : Raft) → j ≢ 0 → get_elem? servers j ≡ some peer → length peer.logs ≤ 3
all_short zero peer ne at = absurd (ne refl)
all_short (suc zero) peer ne at =
    let e : old_peer ≡ peer = some-injective _ _ at in rw (← e) (omega arith)
all_short (suc (suc zero)) peer ne at =
    let e : new_peer ≡ peer = some-injective _ _ at in rw (← e) (omega arith)
all_short (suc (suc (suc j))) peer ne at = cc

update_commits-all_rounds_example :
    (rf' rf'' : Raft) × (peers' : List Raft) × (t' : Tracker) × (all_rounds mixed 3
        (become_leader winner campaign)
        servers
      ≡ some (rf', peers'))
    × (update_commits rf' [] rf'.commit_idx_chnl ≡ some (rf'', t'))
    × (rf''.logs ≡ new_log)
    × (rf''.commit_idx ≡ pos 2)
    × (handed rf''.effects ≡ map apply_msg (entry 1 1 ∷ entry 2 3 ∷ []))
unfolding reports
update_commits-all_rounds_example =
    update_commits-all_rounds 3 0 0 winner servers campaign [] new_log-IsLog winner-IsSettled
      (omega arith) zero_log refl (omega arith) (omega arith) all_follow all_short mixed mixed-Aimed
      (omega arith) refl (omega arith)
