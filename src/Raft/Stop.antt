-- ===== src/Raft/Stop.antt =====
-- `Kill` of raft/raft.go: the value on `stopChnl` that each goroutine takes, gives back and ends with.
pub mod Ends
use my_raft.Base.{
  ℕ, suc, ◌+◌, Bool, true, false, if◌then◌else◌, Option, none, some, List, [], ◌∷◌, get_elem?, set,
  replicate, ◌++◌,
}

-- A goroutine in its loop, between the two statements of the stop case, or at its return.
pub data Phase : Type 0 where
  looping giving_back returned : Phase

-- `stop_chnl` says that the channel holds its one value.
pub record Goroutines : Type 0 where
  pub stop_chnl : Bool
  pub phases : List Phase

pub data Move : Type 0 where
  kills : Move
  takes gives : ℕ → Move

abbrev pub all_looping : ℕ → Goroutines
all_looping n = record { stop_chnl = false; phases = replicate n looping }

abbrev pub kill : Goroutines → Goroutines
kill g = record g { stop_chnl = true }

-- One statement; nothing happens where it would wait, as the send of a second `Kill` does.
unfoldable pub move : Goroutines → Move → Goroutines
move g kills = kill g
move g (takes i) = elim (get_elem? g.phases i) [
  | none ↦ g
  | some p ↦ elim p [
    | looping ↦
        if g.stop_chnl
        then record g { stop_chnl = false; phases = set g.phases i giving_back }
        else g
    | giving_back ↦ g
    | returned ↦ g
  ]
]
move g (gives i) = elim (get_elem? g.phases i) [
  | none ↦ g
  | some p ↦ elim p [
    | looping ↦ g
    | giving_back ↦
        if g.stop_chnl then g else record g { stop_chnl = true; phases = set g.phases i returned }
    | returned ↦ g
  ]
]

unfoldable pub moves : Goroutines → List Move → Goroutines
moves g [] = g
moves g (m ∷ ms) = moves (move g m) ms
