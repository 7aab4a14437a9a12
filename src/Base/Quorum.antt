-- ===== src/Base/Quorum.antt =====
-- Two majorities of the numbers below n meet.
use my_raft.Base.Tests.{◌==◌, Bool-cases, ==_iff, if◌then◌else◌}
use my_raft.Base.Lists.{length}
use Prim.Native.Nat.{ℕ, zero, suc, ◌+◌, ◌≤◌, ◌<◌}
use mathlib.Core.Path.{◌≡◌, refl}
use mathlib.Core.Logic.{inl, inr}
use mathlib.Core.Bool.{Bool, true, false, not, ◌&&◌, ◌||◌}
use mathlib.Core.List.{List, [], ◌∷◌}
use native.Mathlib.Omega.{arith}

-- How many numbers below n pass the test.
unfoldable pub count : (ℕ → Bool) → ℕ → ℕ
count f zero = 0
count f (suc n) = (if f n then 1 else 0) + count f n

unfoldable pub mem : ℕ → List ℕ → Bool
mem p [] = false
mem p (x ∷ xs) = x == p || mem p xs

abbrev pub Distinct : List ℕ → Type 0
Distinct [] = Unit
Distinct (x ∷ xs) = (mem x xs ≡ false) × Distinct xs

abbrev pub AllPass : ℕ → (ℕ → Bool) → List ℕ → Type 0
AllPass n f [] = Unit
AllPass n f (x ∷ xs) = (x < n) × (f x ≡ true) × AllPass n f xs

abbrev without : ℕ → (ℕ → Bool) → ℕ → Bool
without x f y = f y && not (y == x)

count-without_beyond : (f : ℕ → Bool) (x n : ℕ) → n ≤ x → count (without x f) n ≡ count f n
unfolding count
count-without_beyond f x zero h = refl
count-without_beyond f x (suc n) h = ground (arith, count-without_beyond f x n)

count-without :
    (f : ℕ → Bool) (x n : ℕ) → x < n → f x ≡ true → suc (count (without x f) n) ≡ count f n
unfolding count
count-without f x zero h e = absurd (omega arith)
count-without f x (suc n) h e =
    ground (arith, count-without f x n, count-without_beyond f x n, ==_iff n x)

AllPass-without :
    (n : ℕ) (f : ℕ → Bool) (x : ℕ) (xs : List ℕ)
    → mem x xs ≡ false
    → AllPass n f xs
    → AllPass n (without x f) xs
unfolding mem
AllPass-without n f x [] h a = tt
AllPass-without n f x (y ∷ ys) h a = ground (arith, AllPass-without n f x ys)

pub length-le-count :
    (n : ℕ) (f : ℕ → Bool) (xs : List ℕ) → Distinct xs → AllPass n f xs → length xs ≤ count f n
length-le-count n f [] d a = omega arith
length-le-count n f (x ∷ xs) d a = omega (
  arith,
  count-without f x n a.0 a.1,
  length-le-count n (without x f) xs d.1 (AllPass-without n f x xs d.0 a.2),
)

pub count_overlap :
    (f g : ℕ → Bool) (n : ℕ)
    → n < count f n + count g n
    → (i : ℕ) × (i < n) × (f i ≡ true) × (g i ≡ true)
unfolding count
count_overlap f g zero h = absurd (omega arith)
count_overlap f g (suc n) h = elim (Bool-cases (f n && g n)) [
  | inl both ↦ (n, omega arith, ground arith, ground arith)
  | inr not_both ↦ let (i, lt, p, q) = count_overlap f g n (ground arith) in (i, omega arith, p, q)
]
