-- ===== src/Raft/Loop.antt =====
-- The goroutine under "raft loops" of raft/raft.go, one turn of its `for` at a time, with the election
-- timer in milliseconds.
pub mod Signals
pub mod Quiet
pub mod Silent
use my_raft.Base.{
  ℕ, zero, suc, ◌+◌, ◌-◌, ◌==◌, ltb, leb, if◌then◌else◌, Bool, true, false, Option, none, some,
  List, [], ◌∷◌, ◌>>=◌,
}
use my_raft.Raft.Data.{RequestVoteArgs}
use my_raft.Raft.State.{Raft, Effect, rpc_signal, timer_reset, metrics, apply}
use my_raft.Raft.Election.{Campaign, vote_args, begin_election}

-- `GetRandDuration` in milliseconds, with `rand.Int31n`.
abbrev pub get_rand_duration : (ℕ → ℕ) → ℕ → ℕ → ℕ
get_rand_duration int31n first last = int31n (last - first) + first

abbrev pub default_election_timeout : (ℕ → ℕ) → ℕ
default_election_timeout int31n = get_rand_duration int31n 330 660

-- How many signals were sent on `rpcChnl`.
unfoldable pub signals : List Effect → ℕ
signals [] = 0
signals (rpc_signal ∷ es) = suc (signals es)
signals (timer_reset r ∷ es) = signals es
signals (metrics m ∷ es) = signals es
signals (apply m ∷ es) = signals es

-- `seen` counts the signals that the loop has read; the election timer fires at `deadline`.
pub record Loop : Type 0 where
  pub rf : Raft
  pub seen : ℕ
  pub deadline : ℕ
  pub stop_chnl : Bool
  pub ended : Bool

abbrev pub start_loop : ℕ → ℕ → Raft → Loop
start_loop now timeout rf = record {
  rf = rf;
  seen = 0;
  deadline = now + timeout;
  stop_chnl = false;
  ended = false;
}

-- The requests of an election, to all peers but the server itself; `k` peers are left, from i on.
unfoldable pub vote_requests : Raft → Campaign → (k i : ℕ) → List (ℕ × RequestVoteArgs)
vote_requests rf c zero i = []
vote_requests rf c (suc k) i =
    let rest = vote_requests rf c k (suc i) in
    if i == rf.me then rest else (i, vote_args rf c) ∷ rest

-- A turn of the loop, with the timeout that is drawn in it, and the election that it begins.
unfoldable pub turn : (now timeout : ℕ) → Loop → Option (Loop × Option Campaign)
turn now timeout l =
    if l.stop_chnl
    then some (record l { ended = true }, none)
    else if ltb l.seen (signals l.rf.effects)
    then some (record l { seen = l.seen + 1; deadline = now + timeout }, none)
    else if l.rf.is_leader
    then some (l, none)
    else if leb l.deadline now
    then (do
      (rf, c) ← begin_election l.rf
      some (record l { rf = rf; deadline = now + timeout }, some c))
    else some (l, none)

-- Turns at the given times, with what each draws; the elections that they begin, in order.
unfoldable pub turns_at : List (ℕ × (ℕ → ℕ)) → Loop → Option (Loop × List Campaign)
turns_at [] l = some (l, [])
turns_at ((now, int31n) ∷ ts) l = do
  (l, c) ← turn now (default_election_timeout int31n) l
  (l, cs) ← turns_at ts l
  some (l, elim c [ none ↦ cs | some c ↦ c ∷ cs ])
