-- ===== src/Raft/Loop/Signals.antt =====
-- The signals that `HeartBeat` and `RequestVote` of raft/raft.go send to the election loop.
use my_raft.Base.{ℤ, suc, ◌≡◌, refl, some, List, [], ◌∷◌, arith}
use my_raft.Raft.Data.{
  RaftLog, AppendEntriesArgs, AppendEntriesReply, RequestVoteArgs, RequestVoteReply,
}
use my_raft.Raft.State.{Raft, Effect, persist}
use my_raft.Raft.Vote.{request_vote}
use my_raft.Raft.Append.{
  heart_beat, append_entries, finish, follow_commit, apply_all_lem, applied, apply_msg,
}
use my_raft.Raft.Loop.{signals}

signals-applied : (vs : List RaftLog) (es : List Effect) → signals (applied vs es) ≡ signals es
unfolding signals applied
signals-applied [] es = refl
signals-applied (v ∷ vs) es = signals-applied vs (Effect.apply (apply_msg v) ∷ es)

finish-signals :
    (rf rf' : Raft) (args : AppendEntriesArgs) (t : ℤ) (logs : List RaftLog)
    (reply : AppendEntriesReply)
    → finish rf args t logs ≡ some (rf', reply)
    → signals rf'.effects ≡ signals rf.effects
unfolding finish follow_commit persist signals
finish-signals rf rf' args t logs reply h = grind (arith, apply_all_lem, signals-applied)

append_entries-signals :
    (rf rf' : Raft) (args : AppendEntriesArgs) (t : ℤ) (e : RaftLog) (reply : AppendEntriesReply)
    → append_entries rf args t e ≡ some (rf', reply)
    → signals rf'.effects ≡ signals rf.effects
unfolding append_entries persist
append_entries-signals rf rf' args t e reply h = grind (arith, finish-signals)

pub heart_beat-signals :
    (rf rf' : Raft) (args : AppendEntriesArgs) (reply : AppendEntriesReply)
    → heart_beat rf args ≡ some (rf', reply)
    → signals rf'.effects ≡ suc (signals rf.effects)
unfolding heart_beat persist signals
heart_beat-signals rf rf' args reply h = grind (arith, append_entries-signals)

pub request_vote-signals :
    (rf rf' : Raft) (args : RequestVoteArgs) (reply : RequestVoteReply)
    → request_vote rf args ≡ some (rf', reply)
    → signals rf'.effects ≡ suc (signals rf.effects)
unfolding request_vote persist signals
request_vote-signals rf rf' args reply h = ground arith
