-- ===== src/Raft/Server/Ticking.antt =====
-- The heartbeat ticker of a server of raft/raft.go runs while the server leads.
use my_raft.Base.{ℕ, ℤ, ◌≡◌, refl, sym, ◌∙◌, some, List, [], ◌∷◌, arith}
use my_raft.Raft.Data.{
  RaftLog, AppendEntriesArgs, AppendEntriesReply, RequestVoteArgs, RequestVoteReply, Command,
}
use my_raft.Raft.State.{Raft, Effect, persist}
use my_raft.Raft.Ticker.{ticker_on}
use my_raft.Raft.Vote.{request_vote}
use my_raft.Raft.Append.{
  heart_beat, append_entries, finish, follow_commit, apply_all_lem, applied, apply_msg,
}
use my_raft.Raft.Election.{Campaign, begin_election, become_leader, receive_vote}
use my_raft.Raft.Leader.{start, heart_beat_tick, poll_jobs, batch, prepare, receive_append}
use my_raft.Raft.Commit.{Tracker, update_commit}
use my_raft.Raft.Server.{
  Ballots, ServerStep, votes, follows, campaigns, hears_vote, wins, starts, ticks, polls, sends,
  hears_append, commits,
}

abbrev pub TicksAsLeader : Raft → Type 0
TicksAsLeader rf = ticker_on rf.effects ≡ rf.is_leader

-- A step that leaves the ticker and the lead alone.
record KeepsTicker (rf rf' : Raft) : Type 0 where
  ticker : ticker_on rf'.effects ≡ ticker_on rf.effects
  leads : rf'.is_leader ≡ rf.is_leader

KeepsTicker-TicksAsLeader :
    {rf rf' : Raft} → KeepsTicker rf rf' → TicksAsLeader rf → TicksAsLeader rf'
KeepsTicker-TicksAsLeader k t = k.ticker ∙ t ∙ sym k.leads

ticker_on-applied :
    (vs : List RaftLog) (es : List Effect) → ticker_on (applied vs es) ≡ ticker_on es
unfolding ticker_on applied
ticker_on-applied [] es = refl
ticker_on-applied (v ∷ vs) es = ticker_on-applied vs (Effect.apply (apply_msg v) ∷ es)

finish-KeepsTicker :
    (rf rf' : Raft) (args : AppendEntriesArgs) (t : ℤ) (logs : List RaftLog)
    (reply : AppendEntriesReply)
    → finish rf args t logs ≡ some (rf', reply)
    → KeepsTicker rf rf'
unfolding finish follow_commit persist ticker_on
finish-KeepsTicker rf rf' args t logs reply h = grind (arith, apply_all_lem, ticker_on-applied)

append_entries-KeepsTicker :
    (rf rf' : Raft) (args : AppendEntriesArgs) (t : ℤ) (e : RaftLog) (reply : AppendEntriesReply)
    → append_entries rf args t e ≡ some (rf', reply)
    → KeepsTicker rf rf'
unfolding append_entries persist
append_entries-KeepsTicker rf rf' args t e reply h = grind (arith, finish-KeepsTicker)

heart_beat-TicksAsLeader :
    (rf rf' : Raft) (args : AppendEntriesArgs) (reply : AppendEntriesReply)
    → heart_beat rf args ≡ some (rf', reply)
    → TicksAsLeader rf
    → TicksAsLeader rf'
unfolding heart_beat persist ticker_on
heart_beat-TicksAsLeader rf rf' args reply h t = grind (arith, append_entries-KeepsTicker)

request_vote-TicksAsLeader :
    (rf rf' : Raft) (args : RequestVoteArgs) (reply : RequestVoteReply)
    → request_vote rf args ≡ some (rf', reply)
    → TicksAsLeader rf
    → TicksAsLeader rf'
unfolding request_vote persist ticker_on
request_vote-TicksAsLeader rf rf' args reply h t = ground arith

begin_election-KeepsTicker :
    (rf rf' : Raft) (c : Campaign) → begin_election rf ≡ some (rf', c) → KeepsTicker rf rf'
unfolding begin_election
begin_election-KeepsTicker rf rf' c h = ground arith

receive_vote-TicksAsLeader :
    (rf : Raft) (reply : RequestVoteReply)
    → TicksAsLeader rf
    → TicksAsLeader (receive_vote rf reply).0
unfolding receive_vote ticker_on
receive_vote-TicksAsLeader rf reply t = ground arith

become_leader-TicksAsLeader : (rf : Raft) (c : Campaign) → TicksAsLeader (become_leader rf c)
unfolding become_leader ticker_on
become_leader-TicksAsLeader rf c = refl

start-KeepsTicker : (rf : Raft) (command : Command) → KeepsTicker rf (start rf command).0
unfolding start
start-KeepsTicker rf command = ground arith

heart_beat_tick-KeepsTicker : (rf rf' : Raft) → heart_beat_tick rf ≡ some rf' → KeepsTicker rf rf'
unfolding heart_beat_tick
heart_beat_tick-KeepsTicker rf rf' h = ground arith

poll_jobs-KeepsTicker : (rf rf' : Raft) → poll_jobs rf ≡ some rf' → KeepsTicker rf rf'
unfolding poll_jobs batch persist
poll_jobs-KeepsTicker rf rf' h = ground arith

prepare-KeepsTicker :
    (capacity : ℕ) (rf rf' : Raft) (server : ℕ) (args out : AppendEntriesArgs)
    → prepare capacity rf server args ≡ some (rf', out)
    → KeepsTicker rf rf'
unfolding prepare
prepare-KeepsTicker capacity rf rf' server args out h = ground arith

receive_append-TicksAsLeader :
    (rf rf' : Raft) (server : ℕ) (args : AppendEntriesArgs) (reply : AppendEntriesReply)
    → receive_append rf server args reply ≡ some rf'
    → TicksAsLeader rf
    → TicksAsLeader rf'
unfolding receive_append ticker_on
receive_append-TicksAsLeader rf rf' server args reply h t = ground arith

update_commit-KeepsTicker :
    (rf rf' : Raft) (tracker tracker' : Tracker) (new_idx : ℤ)
    → update_commit rf tracker new_idx ≡ some (rf', tracker')
    → KeepsTicker rf rf'
unfolding update_commit persist ticker_on
update_commit-KeepsTicker rf rf' tracker tracker' new_idx h =
    grind (arith, apply_all_lem, ticker_on-applied)

-- Every step of a server keeps this: once the goroutine of the heartbeat ticker has read what was sent to
-- it, the ticker runs exactly if the server leads.
pub ServerStep-TicksAsLeader :
    {rf rf' : Raft} {bs bs' : Ballots}
    → ServerStep rf bs rf' bs'
    → TicksAsLeader rf
    → TicksAsLeader rf'
ServerStep-TicksAsLeader {rf} {rf'} (votes {reply} args c e r) t =
    request_vote-TicksAsLeader rf rf' args reply r t
ServerStep-TicksAsLeader {rf} {rf'} (follows {reply} args h) t =
    heart_beat-TicksAsLeader rf rf' args reply h t
ServerStep-TicksAsLeader {rf} {rf'} (campaigns {c} idle lo hi h) t =
    KeepsTicker-TicksAsLeader (begin_election-KeepsTicker rf rf' c h) t
ServerStep-TicksAsLeader {rf} (hears_vote reply) t = receive_vote-TicksAsLeader rf reply t
ServerStep-TicksAsLeader {rf} (wins c) t = become_leader-TicksAsLeader rf c
ServerStep-TicksAsLeader {rf} (starts command) t =
    KeepsTicker-TicksAsLeader (start-KeepsTicker rf command) t
ServerStep-TicksAsLeader {rf} {rf'} (ticks h) t =
    KeepsTicker-TicksAsLeader (heart_beat_tick-KeepsTicker rf rf' h) t
ServerStep-TicksAsLeader {rf} {rf'} (polls h) t =
    KeepsTicker-TicksAsLeader (poll_jobs-KeepsTicker rf rf' h) t
ServerStep-TicksAsLeader {rf} {rf'} (sends {out} capacity server args h) t =
    KeepsTicker-TicksAsLeader (prepare-KeepsTicker capacity rf rf' server args out h) t
ServerStep-TicksAsLeader {rf} {rf'} (hears_append server args reply h) t =
    receive_append-TicksAsLeader rf rf' server args reply h t
ServerStep-TicksAsLeader {rf} {rf'} (commits {tracker'} tracker i h) t =
    KeepsTicker-TicksAsLeader (update_commit-KeepsTicker rf rf' tracker tracker' i h) t
