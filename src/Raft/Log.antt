-- ===== src/Raft/Log.antt =====
-- The log of raft/raft.go: the entry at position i has the index i, and position 0 holds an entry
-- that is never sent ("Ignore the first log (index starts at 1)").
use my_raft.Base.{
  ℕ, zero, suc, ◌+◌, ◌-◌, ◌^◌, ◌<◌, pos, ◌≡◌, some, List, [], ◌∷◌, ◌++◌, length, take, drop,
  get_elem?, get_elem?-some, last, arith,
}
use my_raft.Raft.Data.{RaftLog}

-- The indices count up from k.
abbrev pub Consecutive : ℕ → List RaftLog → Type 0
Consecutive k [] = Unit
Consecutive k (v ∷ vs) = (v.index ≡ pos k) × Consecutive (suc k) vs

pub record IsLog (logs : List RaftLog) : Type 0 where
  pub some_entry : 0 < length logs
  pub fits : length logs < 2 ^ 31
  pub consecutive : Consecutive 0 logs

pub Consecutive-get_elem? :
    (k : ℕ) (vs : List RaftLog) (i : ℕ) (e : RaftLog)
    → Consecutive k vs
    → get_elem? vs i ≡ some e
    → e.index ≡ pos (k + i)
Consecutive-get_elem? k [] i e c h = cc
Consecutive-get_elem? k (v ∷ vs) zero e c h = let s : k + 0 ≡ k = omega arith in rw s (ground arith)
Consecutive-get_elem? k (v ∷ vs) (suc i) e c h =
    let s : k + suc i ≡ suc k + i = omega arith in rw s (Consecutive-get_elem? (suc k) vs i e c.1 h)

pub Consecutive-append :
    (k : ℕ) (vs ws : List RaftLog)
    → Consecutive k vs
    → Consecutive (k + length vs) ws
    → Consecutive k (vs ++ ws)
Consecutive-append k [] ws c d = let s : k + 0 ≡ k = omega arith in rw s at d
Consecutive-append k (v ∷ vs) ws c d =
    let s : k + suc (length vs) ≡ suc k + length vs = omega arith in
    (c.0, Consecutive-append (suc k) vs ws c.1 (rw s at d))

pub Consecutive-take : (k n : ℕ) (vs : List RaftLog) → Consecutive k vs → Consecutive k (take n vs)
Consecutive-take k zero vs c = tt
Consecutive-take k (suc n) [] c = tt
Consecutive-take k (suc n) (v ∷ vs) c = (c.0, Consecutive-take (suc k) n vs c.1)

pub Consecutive-drop :
    (k n : ℕ) (vs : List RaftLog) → Consecutive k vs → Consecutive (k + n) (drop n vs)
Consecutive-drop k zero vs c = let s : k + 0 ≡ k = omega arith in rw s c
Consecutive-drop k (suc n) [] c = tt
Consecutive-drop k (suc n) (v ∷ vs) c =
    let s : k + suc n ≡ suc k + n = omega arith in rw s (Consecutive-drop (suc k) n vs c.1)

module _ (logs : List RaftLog) (w : IsLog logs) where
  pub IsLog-index : (i : ℕ) (e : RaftLog) → get_elem? logs i ≡ some e → e.index ≡ pos i
  IsLog-index i e h =
      let s : 0 + i ≡ i = omega arith in rw s at (Consecutive-get_elem? 0 logs i e w.consecutive h)

  -- A log has a last entry, whose index is its position.
  pub IsLog-last : (e : RaftLog) × (last logs ≡ some e) × (e.index ≡ pos (length logs - 1))
  IsLog-last =
      let (e, h) = get_elem?-some logs (length logs - 1) (omega arith) in
      (e, h, IsLog-index (length logs - 1) e h)
