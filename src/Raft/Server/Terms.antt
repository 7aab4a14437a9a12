-- ===== src/Raft/Server/Terms.antt =====
-- How the steps of raft/raft.go change the term and the vote of a server.
use my_raft.Base.{ℕ, ℤ, ◌≤ℤ◌, ◌≡◌, some, List, arith}
use my_raft.Raft.Data.{RaftLog, AppendEntriesArgs, AppendEntriesReply, RequestVoteReply, Command}
use my_raft.Raft.State.{Raft, persist}
use my_raft.Raft.Append.{heart_beat, append_entries, finish, follow_commit, apply_all_lem}
use my_raft.Raft.Election.{Campaign, become_leader, receive_vote}
use my_raft.Raft.Leader.{start, heart_beat_tick, poll_jobs, batch, prepare, receive_append}
use my_raft.Raft.Commit.{Tracker, update_commit}

-- The term does not fall, and the vote stays.
pub record KeepsVote (rf rf' : Raft) : Type 0 where
  pub term : rf.current_term ≤ℤ rf'.current_term
  pub vote : rf'.voted_for ≡ rf.voted_for
  pub me : rf'.me ≡ rf.me

finish-KeepsVote :
    (rf rf' : Raft) (args : AppendEntriesArgs) (t : ℤ) (logs : List RaftLog)
    (reply : AppendEntriesReply)
    → finish rf args t logs ≡ some (rf', reply)
    → KeepsVote rf rf'
unfolding finish follow_commit persist
finish-KeepsVote rf rf' args t logs reply h = grind (arith, apply_all_lem)

append_entries-KeepsVote :
    (rf rf' : Raft) (args : AppendEntriesArgs) (t : ℤ) (e : RaftLog) (reply : AppendEntriesReply)
    → append_entries rf args t e ≡ some (rf', reply)
    → KeepsVote rf rf'
unfolding append_entries persist
append_entries-KeepsVote rf rf' args t e reply h = grind (arith, finish-KeepsVote)

pub heart_beat-KeepsVote :
    (rf rf' : Raft) (args : AppendEntriesArgs) (reply : AppendEntriesReply)
    → heart_beat rf args ≡ some (rf', reply)
    → KeepsVote rf rf'
unfolding heart_beat persist
heart_beat-KeepsVote rf rf' args reply h = grind (arith, append_entries-KeepsVote)

pub receive_vote-KeepsVote :
    (rf : Raft) (reply : RequestVoteReply) → KeepsVote rf (receive_vote rf reply).0
unfolding receive_vote
receive_vote-KeepsVote rf reply = ground arith

pub start-KeepsVote : (rf : Raft) (command : Command) → KeepsVote rf (start rf command).0
unfolding start
start-KeepsVote rf command = ground arith

pub become_leader-KeepsVote : (rf : Raft) (c : Campaign) → KeepsVote rf (become_leader rf c)
unfolding become_leader
become_leader-KeepsVote rf c = ground arith

pub heart_beat_tick-KeepsVote : (rf rf' : Raft) → heart_beat_tick rf ≡ some rf' → KeepsVote rf rf'
unfolding heart_beat_tick
heart_beat_tick-KeepsVote rf rf' h = ground arith

pub poll_jobs-KeepsVote : (rf rf' : Raft) → poll_jobs rf ≡ some rf' → KeepsVote rf rf'
unfolding poll_jobs batch persist
poll_jobs-KeepsVote rf rf' h = ground arith

pub prepare-KeepsVote :
    (capacity : ℕ) (rf rf' : Raft) (server : ℕ) (args out : AppendEntriesArgs)
    → prepare capacity rf server args ≡ some (rf', out)
    → KeepsVote rf rf'
unfolding prepare
prepare-KeepsVote capacity rf rf' server args out h = ground arith

pub receive_append-KeepsVote :
    (rf rf' : Raft) (server : ℕ) (args : AppendEntriesArgs) (reply : AppendEntriesReply)
    → receive_append rf server args reply ≡ some rf'
    → KeepsVote rf rf'
unfolding receive_append
receive_append-KeepsVote rf rf' server args reply h = ground arith

pub update_commit-KeepsVote :
    (rf rf' : Raft) (tracker tracker' : Tracker) (new_idx : ℤ)
    → update_commit rf tracker new_idx ≡ some (rf', tracker')
    → KeepsVote rf rf'
unfolding update_commit persist
update_commit-KeepsVote rf rf' tracker tracker' new_idx h = grind (arith, apply_all_lem)
