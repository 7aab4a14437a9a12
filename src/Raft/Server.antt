-- ===== src/Raft/Server.antt =====
-- One server as a state machine: the steps that the handlers and goroutines of raft/raft.go take,
-- each as a whole, with the ballots that the server has cast. A ballot is a term and a candidate.
pub mod Terms
pub mod Voting
pub mod Ticking
pub mod Saving
use my_raft.Base.{
  ℕ, ℤ, pos, negsuc, ◌^◌, ◌-◌, ◌≤ℤ◌, ◌<ℤ◌, max_int32, eqb_ℤ, if◌then◌else◌, ◌≡◌, Bool, true, false,
  ◌&&◌, ◌||◌, some, List, [], ◌∷◌,
}
use my_raft.Raft.Data.{
  AppendEntriesArgs, AppendEntriesReply, RequestVoteArgs, RequestVoteReply, Command,
}
use my_raft.Raft.State.{Raft}
use my_raft.Raft.Vote.{request_vote}
use my_raft.Raft.Append.{heart_beat}
use my_raft.Raft.Election.{Campaign, begin_election, become_leader, receive_vote}
use my_raft.Raft.Leader.{start, heart_beat_tick, poll_jobs, prepare, receive_append}
use my_raft.Raft.Commit.{Tracker, update_commit}

abbrev pub Ballots : Type 0
Ballots = List (ℤ × ℤ)

unfoldable pub has_ballot : Ballots → ℤ → ℤ → Bool
has_ballot [] t c = false
has_ballot ((u, d) ∷ bs) t c = (eqb_ℤ u t && eqb_ℤ d c) || has_ballot bs t c

abbrev pub cast_if : Bool → ℤ → ℤ → Ballots → Ballots
cast_if voted t c bs = if voted then (t, c) ∷ bs else bs

-- Candidates are numbers of servers. An election does not start at the last `int32`.
pub data ServerStep (rf : Raft) (bs : Ballots) : Raft → Ballots → Type 0 where
  votes :
      {rf' : Raft} {reply : RequestVoteReply} (args : RequestVoteArgs) (c : ℕ)
      → args.id ≡ pos c
      → request_vote rf args ≡ some (rf', reply)
      → ServerStep rf bs rf' (cast_if reply.voted args.term args.id bs)
  follows :
      {rf' : Raft} {reply : AppendEntriesReply} (args : AppendEntriesArgs)
      → heart_beat rf args ≡ some (rf', reply)
      → ServerStep rf bs rf' bs
  campaigns :
      {rf' : Raft} {c : Campaign}
      → rf.is_leader ≡ false
      → negsuc (2 ^ 31 - 1) ≤ℤ rf.current_term
      → rf.current_term <ℤ max_int32
      → begin_election rf ≡ some (rf', c)
      → ServerStep rf bs rf' ((c.term, pos rf.me) ∷ bs)
  hears_vote : (reply : RequestVoteReply) → ServerStep rf bs (receive_vote rf reply).0 bs
  wins : (c : Campaign) → ServerStep rf bs (become_leader rf c) bs
  starts : (command : Command) → ServerStep rf bs (start rf command).0 bs
  ticks : {rf' : Raft} → heart_beat_tick rf ≡ some rf' → ServerStep rf bs rf' bs
  polls : {rf' : Raft} → poll_jobs rf ≡ some rf' → ServerStep rf bs rf' bs
  sends :
      {rf' : Raft} {out : AppendEntriesArgs} (capacity server : ℕ) (args : AppendEntriesArgs)
      → prepare capacity rf server args ≡ some (rf', out)
      → ServerStep rf bs rf' bs
  hears_append :
      {rf' : Raft} (server : ℕ) (args : AppendEntriesArgs) (reply : AppendEntriesReply)
      → receive_append rf server args reply ≡ some rf'
      → ServerStep rf bs rf' bs
  commits :
      {rf' : Raft} {tracker' : Tracker} (tracker : Tracker) (new_idx : ℤ)
      → update_commit rf tracker new_idx ≡ some (rf', tracker')
      → ServerStep rf bs rf' bs
