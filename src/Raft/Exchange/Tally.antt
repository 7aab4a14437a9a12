-- ===== src/Raft/Exchange/Tally.antt =====
-- The reports that a leader of raft/raft.go makes to its "Commit index updater", against the match
-- indices of its peers.
use my_raft.Base.{
  ℕ, zero, suc, ◌+◌, ◌-◌, ℤ, pos, ◌<ℤ◌, ◌≤ℤ◌, ◌≤◌, ◌<◌, true, Bool-cases, inl, inr, eqb_ℤ, leb_ℤ,
  if◌then◌else◌, Bool, ◌≡◌, refl, some, List, [], ◌∷◌, ◌++◌, length, replicate, set, get_elem?,
  arith,
}
use mathlib.Core.Option.{some-injective, none-ne-some}
use my_raft.Raft.State.{Raft}
use my_raft.Raft.Commit.Settles.{times}

-- How many match indices are k or more.
abbrev pub reached : ℕ → List ℤ → ℕ
reached k [] = 0
reached k (m ∷ ms) = (if leb_ℤ (pos k) m then 1 else 0) + reached k ms

-- A peer that comes to have all the leader's log is reported once, by the leader's last index.
abbrev pub Tallied : Raft → Raft → Type 0
Tallied rf rf' =
    let k = length rf.logs - 1 in
    times (pos k) rf'.commit_idx_chnl + reached k rf.match_index
    ≡ times (pos k) rf.commit_idx_chnl + reached k rf'.match_index

times-append :
    (k i : ℤ) (is : List ℤ) → times k (is ++ i ∷ []) ≡ times k is + (if eqb_ℤ i k then 1 else 0)
times-append k i [] = omega arith
times-append k i (j ∷ is) = omega (arith, times-append k i is)

reached-set :
    (k j : ℕ) (m : ℤ) (ms : List ℤ)
    → get_elem? ms j ≡ some m
    → m <ℤ pos k
    → reached k (set ms j (pos k)) ≡ suc (reached k ms)
reached-set k j m [] g lt = cc
reached-set k zero m (x ∷ ms) g lt = let e : x ≡ m = some-injective _ _ g in rw e (ground arith)
reached-set k (suc j) m (x ∷ ms) g lt = omega (arith, reached-set k j m ms g lt)

pub reported-Tallied :
    (rf rf' : Raft) (server u : ℕ) (m : ℤ)
    → get_elem? rf.match_index server ≡ some m
    → m <ℤ pos u
    → u + 1 ≡ length rf.logs
    → rf'.match_index ≡ set rf.match_index server (pos u)
    → rf'.commit_idx_chnl ≡ rf.commit_idx_chnl ++ pos u ∷ []
    → Tallied rf rf'
reported-Tallied rf rf' server u m g lt top ms chnl =
    let k : length rf.logs - 1 ≡ u = omega arith in
    let counts = times-append (pos u) (pos u) rf.commit_idx_chnl in
    let more = reached-set u server m rf.match_index g lt in rw (k, ms, chnl) (ground arith)

pub Tallied-trans :
    (rf rf' rf'' : Raft) → rf'.logs ≡ rf.logs → Tallied rf rf' → Tallied rf' rf'' → Tallied rf rf''
Tallied-trans rf rf' rf'' same p q = let q' = rw same at q in omega arith

-- How many of the first n positions pass the test.
abbrev pub passing : (ℕ → Bool) → ℕ → ℕ
passing p zero = 0
passing p (suc n) = (if p 0 then 1 else 0) + passing (λ j. p (suc j)) n

-- Where every position that passes has a match index of k or more, so many are there.
pub passing-reached :
    (p : ℕ → Bool) (k n : ℕ) (ms : List ℤ)
    → ((j : ℕ) → j < n → p j ≡ true → (m : ℤ) × (get_elem? ms j ≡ some m) × (pos k ≤ℤ m))
    → passing p n ≤ reached k ms
passing-reached p k zero ms h = omega arith
passing-reached p k (suc n) [] h =
    let rest =
      passing-reached (λ j. p (suc j)) k n []
        (λ j lt ok.
          let (m, at, _) = h (suc j) (omega arith) ok in (m, at, absurd (none-ne-some _ at))) in
    elim (Bool-cases (p 0)) [
      | inl ok ↦ let (m, at, _) = h 0 (omega arith) ok in absurd (none-ne-some _ at)
      | inr no_pass ↦ rw no_pass (omega (arith, rest))
    ]
passing-reached p k (suc n) (m ∷ ms) h =
    let rest = passing-reached (λ j. p (suc j)) k n ms (λ j lt ok. h (suc j) (omega arith) ok) in
    elim (Bool-cases (p 0)) [
      | inl ok ↦
          let (x, at, le) = h 0 (omega arith) ok in
          let e : m ≡ x = some-injective _ _ at in let le' = rw (← e) at le in ground arith
      | inr no_pass ↦ ground arith
    ]

pub reached-replicate : (k n : ℕ) → 0 < k → reached k (replicate n (pos 0)) ≡ 0
reached-replicate k zero lt = refl
reached-replicate k (suc n) lt = ground (arith, reached-replicate k n lt)
