-- ===== src/Raft/Examples/Loops.antt =====
-- The theorems on the election loop of raft/raft.go at concrete runs.
use my_raft.Base.{
  ℕ, ◌+◌, ◌≤◌, pos, add32, ◌≡◌, refl, Option, none, some, List, [], ◌∷◌, inr, arith, true,
}
use my_raft.Raft.Election.{Campaign}
use my_raft.Raft.Loop.{Loop, start_loop, signals, turn, turns_at, default_election_timeout}
use my_raft.Raft.Loop.Quiet.{Run, begins, turns, happens, asks, Run-quiet}
use my_raft.Raft.Loop.Silent.{IsActive, turns_at-campaigns}
use my_raft.Base.{◌*◌, ◌⊎◌}
use my_raft.Raft.Stop.{Move, kills, takes, gives, giving_back, all_looping, move, moves}
use my_raft.Raft.Stop.Ends.{tokens, left, HasNoKill, moves-ends}
use my_raft.Raft.Examples.{server, entry, vote_request, voter, votes_run}

abbrev draw : ℕ → ℕ
draw n = 5

abbrev fresh_loop : Loop
fresh_loop = start_loop 0 400 (server 1)

abbrev asked_loop : Loop
asked_loop = record fresh_loop { rf = voter }

-- The loop has read the signal of the request at 200 ms.
abbrev rearmed_loop : Loop
rearmed_loop = record asked_loop { seen = 1; deadline = 535 }

reads_signal : turn 200 (default_election_timeout draw) asked_loop ≡ some (rearmed_loop, none)
unfolding turn signals
reads_signal = refl

no_signal : fresh_loop.seen ≤ signals fresh_loop.rf.effects
unfolding signals
no_signal = omega arith

-- A request at 100 ms, and the turn at 200 ms.
two_events : Run 0 fresh_loop 100 200 rearmed_loop
two_events =
    turns 200 draw
      (happens {called = true} 100 begins (omega arith) (omega arith) (asks vote_request votes_run))
      (omega arith) (omega arith) reads_signal

quiet_turn : turn 420 (default_election_timeout draw) rearmed_loop ≡ some (rearmed_loop, none)
unfolding turn signals
quiet_turn = refl

Run-quiet_example : (◌≡◌ {A = Option Campaign} none none) × (rearmed_loop.rf ≡ rearmed_loop.rf)
Run-quiet_example =
    Run-quiet 0 100 200 420 fresh_loop rearmed_loop rearmed_loop draw none no_signal
      (inr (omega arith)) two_events (omega arith) (omega arith) quiet_turn

-- Then the requests stop: a turn at 300 ms, and one at 960 ms.
rearmed_loop-IsActive : IsActive rearmed_loop
rearmed_loop-IsActive = record { goes_on = refl; follows = refl; log = (entry 1 1, refl) }

all_read : signals rearmed_loop.rf.effects ≤ rearmed_loop.seen + 1
unfolding signals
all_read = omega arith

turns_at-campaigns_example :
    (l' : Loop) × (c : Campaign) × (cs : List Campaign) × (turns_at
        ((300, draw) ∷ (960, draw) ∷ [])
        rearmed_loop
      ≡ some (l', c ∷ cs))
    × (c.term ≡ add32 rearmed_loop.rf.current_term (pos 1))
turns_at-campaigns_example =
    turns_at-campaigns 960 draw ((300, draw) ∷ []) rearmed_loop rearmed_loop-IsActive
      (omega arith, omega arith, tt) all_read (omega arith)

-- Both of two goroutines look at the channel; one takes the value and gives it back.
abbrev some_moves : List Move
some_moves = takes 0 ∷ takes 1 ∷ gives 0 ∷ []

moves-ends_example :
    let g = moves (all_looping 2) (kills ∷ some_moves) in
    (tokens g ≡ 1)
    × (left g ≤ 2 * 2)
    × ((m : Move) → HasNoKill (m ∷ []) → left (move g m) ≤ left g)
    × ((left g ≡ 0) ⊎ ((m : Move) × HasNoKill (m ∷ []) × (left (move g m) + 1 ≡ left g)))
moves-ends_example = moves-ends 2 some_moves tt

-- A second Kill in between keeps the goroutine from giving the value back.
killed_twice :
    moves (all_looping 1) (kills ∷ takes 0 ∷ kills ∷ gives 0 ∷ [])
    ≡ record { stop_chnl = true; phases = giving_back ∷ [] }
unfolding moves move
killed_twice = refl
