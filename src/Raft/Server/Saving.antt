-- ===== src/Raft/Server/Saving.antt =====
-- What a server of raft/raft.go has handed to its persister.
use my_raft.Base.{ℕ, ℤ, ◌≡◌, refl, sym, ap, ◌∙◌, Option, none, some, List, [], ◌∷◌, arith}
use my_raft.Raft.Data.{
  RaftLog, AppendEntriesArgs, AppendEntriesReply, RequestVoteArgs, RequestVoteReply, Command,
}
use my_raft.Raft.State.{Raft, Saved, persist, zero_log}
use my_raft.Raft.Vote.{request_vote}
use my_raft.Raft.Append.{heart_beat, append_entries, finish, follow_commit, apply_all_lem}
use my_raft.Raft.Election.{Campaign, begin_election, become_leader, receive_vote}
use my_raft.Raft.Leader.{start, heart_beat_tick, poll_jobs, batch, prepare, receive_append}
use my_raft.Raft.Commit.{Tracker, update_commit}
use my_raft.Raft.Server.{
  Ballots, ServerStep, votes, follows, campaigns, hears_vote, wins, starts, ticks, polls, sends,
  hears_append, commits,
}

-- The log that was saved last; `Make` begins with the zero entry where nothing was.
abbrev pub saved_log : Option Saved → List RaftLog
saved_log none = zero_log ∷ []
saved_log (some s) = s.logs

abbrev pub SavesLog : Raft → Type 0
SavesLog rf = saved_log rf.saved ≡ rf.logs

-- All three values are saved.
abbrev pub IsSaved : Raft → Type 0
IsSaved rf =
    rf.saved ≡ some (record { term = rf.current_term; voted_for = rf.voted_for; logs = rf.logs })

IsSaved-SavesLog : (rf : Raft) → IsSaved rf → SavesLog rf
IsSaved-SavesLog rf s = ap saved_log s

-- A step that leaves the log and what is saved alone.
record KeepsSaved (rf rf' : Raft) : Type 0 where
  saved : rf'.saved ≡ rf.saved
  logs : rf'.logs ≡ rf.logs

KeepsSaved-SavesLog : {rf rf' : Raft} → KeepsSaved rf rf' → SavesLog rf → SavesLog rf'
KeepsSaved-SavesLog k s = ap saved_log k.saved ∙ s ∙ sym k.logs

finish-IsSaved :
    (rf rf' : Raft) (args : AppendEntriesArgs) (t : ℤ) (logs : List RaftLog)
    (reply : AppendEntriesReply)
    → finish rf args t logs ≡ some (rf', reply)
    → IsSaved rf'
unfolding finish follow_commit persist
finish-IsSaved rf rf' args t logs reply h = grind (arith, apply_all_lem)

append_entries-IsSaved :
    (rf rf' : Raft) (args : AppendEntriesArgs) (t : ℤ) (e : RaftLog) (reply : AppendEntriesReply)
    → append_entries rf args t e ≡ some (rf', reply)
    → IsSaved rf'
unfolding append_entries persist
append_entries-IsSaved rf rf' args t e reply h = grind (arith, finish-IsSaved)

heart_beat-IsSaved :
    (rf rf' : Raft) (args : AppendEntriesArgs) (reply : AppendEntriesReply)
    → heart_beat rf args ≡ some (rf', reply)
    → IsSaved rf'
unfolding heart_beat persist
heart_beat-IsSaved rf rf' args reply h = grind (arith, append_entries-IsSaved)

request_vote-IsSaved :
    (rf rf' : Raft) (args : RequestVoteArgs) (reply : RequestVoteReply)
    → request_vote rf args ≡ some (rf', reply)
    → IsSaved rf'
unfolding request_vote persist
request_vote-IsSaved rf rf' args reply h = ground arith

begin_election-KeepsSaved :
    (rf rf' : Raft) (c : Campaign) → begin_election rf ≡ some (rf', c) → KeepsSaved rf rf'
unfolding begin_election
begin_election-KeepsSaved rf rf' c h = ground arith

receive_vote-KeepsSaved :
    (rf : Raft) (reply : RequestVoteReply) → KeepsSaved rf (receive_vote rf reply).0
unfolding receive_vote
receive_vote-KeepsSaved rf reply = ground arith

become_leader-KeepsSaved : (rf : Raft) (c : Campaign) → KeepsSaved rf (become_leader rf c)
unfolding become_leader
become_leader-KeepsSaved rf c = record { saved = refl; logs = refl }

start-KeepsSaved : (rf : Raft) (command : Command) → KeepsSaved rf (start rf command).0
unfolding start
start-KeepsSaved rf command = ground arith

heart_beat_tick-KeepsSaved : (rf rf' : Raft) → heart_beat_tick rf ≡ some rf' → KeepsSaved rf rf'
unfolding heart_beat_tick
heart_beat_tick-KeepsSaved rf rf' h = ground arith

poll_jobs-SavesLog : (rf rf' : Raft) → poll_jobs rf ≡ some rf' → SavesLog rf → SavesLog rf'
unfolding poll_jobs batch persist
poll_jobs-SavesLog rf rf' h s = ground arith

prepare-saved :
    (capacity : ℕ) (rf rf' : Raft) (server : ℕ) (args out : AppendEntriesArgs)
    → prepare capacity rf server args ≡ some (rf', out)
    → rf'.saved ≡ rf.saved
unfolding prepare
prepare-saved capacity rf rf' server args out h = grind arith

receive_append-KeepsSaved :
    (rf rf' : Raft) (server : ℕ) (args : AppendEntriesArgs) (reply : AppendEntriesReply)
    → receive_append rf server args reply ≡ some rf'
    → KeepsSaved rf rf'
unfolding receive_append
receive_append-KeepsSaved rf rf' server args reply h = ground arith

update_commit-SavesLog :
    (rf rf' : Raft) (tracker tracker' : Tracker) (new_idx : ℤ)
    → update_commit rf tracker new_idx ≡ some (rf', tracker')
    → SavesLog rf
    → SavesLog rf'
unfolding update_commit persist
update_commit-SavesLog rf rf' tracker tracker' new_idx h s = grind (arith, apply_all_lem)

-- The step writes no entries of a request into the array of the log.
abbrev pub WritesNoAlias : {rf rf' : Raft} {bs bs' : Ballots} → ServerStep rf bs rf' bs' → Type 0
WritesNoAlias {rf} {rf'} (sends capacity server args h) = rf'.logs ≡ rf.logs
WritesNoAlias _ = Unit

-- A step that answers a peer has saved all three values.
abbrev pub AnswersSaved : {rf rf' : Raft} {bs bs' : Ballots} → ServerStep rf bs rf' bs' → Type 0
AnswersSaved {rf} {rf'} (votes args c e r) = IsSaved rf'
AnswersSaved {rf} {rf'} (follows args h) = IsSaved rf'
AnswersSaved _ = Unit

-- When RequestVote or HeartBeat answers, the server's term, its vote and its log are those that it has
-- handed to `persist` last; and every step of a server, but for a request to a peer that writes its
-- entries into the array of the log, keeps this: the log is the one that was handed to `persist` last,
-- or the zero entry alone where none was.
pub ServerStep-SavesLog :
    {rf rf' : Raft} {bs bs' : Ballots} (step : ServerStep rf bs rf' bs')
    → WritesNoAlias step
    → SavesLog rf
    → SavesLog rf' × AnswersSaved step
ServerStep-SavesLog {rf} {rf'} (votes {reply} args c e r) alias s =
    let now = request_vote-IsSaved rf rf' args reply r in (IsSaved-SavesLog rf' now, now)
ServerStep-SavesLog {rf} {rf'} (follows {reply} args h) alias s =
    let now = heart_beat-IsSaved rf rf' args reply h in (IsSaved-SavesLog rf' now, now)
ServerStep-SavesLog {rf} {rf'} (campaigns {c} idle lo hi h) alias s =
    (KeepsSaved-SavesLog (begin_election-KeepsSaved rf rf' c h) s, tt)
ServerStep-SavesLog {rf} (hears_vote reply) alias s =
    (KeepsSaved-SavesLog (receive_vote-KeepsSaved rf reply) s, tt)
ServerStep-SavesLog {rf} (wins c) alias s =
    (KeepsSaved-SavesLog (become_leader-KeepsSaved rf c) s, tt)
ServerStep-SavesLog {rf} (starts command) alias s =
    (KeepsSaved-SavesLog (start-KeepsSaved rf command) s, tt)
ServerStep-SavesLog {rf} {rf'} (ticks h) alias s =
    (KeepsSaved-SavesLog (heart_beat_tick-KeepsSaved rf rf' h) s, tt)
ServerStep-SavesLog {rf} {rf'} (polls h) alias s = (poll_jobs-SavesLog rf rf' h s, tt)
ServerStep-SavesLog {rf} {rf'} (sends {out} capacity server args h) alias s =
    let kept : KeepsSaved rf rf' = record {
      saved = prepare-saved capacity rf rf' server args out h;
      logs = alias;
    } in
    (KeepsSaved-SavesLog kept s, tt)
ServerStep-SavesLog {rf} {rf'} (hears_append server args reply h) alias s =
    (KeepsSaved-SavesLog (receive_append-KeepsSaved rf rf' server args reply h) s, tt)
ServerStep-SavesLog {rf} {rf'} (commits {tracker'} tracker i h) alias s =
    (update_commit-SavesLog rf rf' tracker tracker' i h s, tt)
