-- ===== src/Base/Int.antt =====
-- Go's signed integers. A value is an integer of ℤ; an `int32` is one in the 32-bit range, and
-- its sums wrap. Sums and orders go through the two parts of an integer, which `omega` reads.
use Prim.Native.Nat.{ℕ, suc, ◌+◌, ◌-◌, ◌%◌, ◌^◌, ◌≤◌, ◌<◌}
use mathlib.Core.Path.{◌≡◌, refl}
use mathlib.Core.Logic.{◌↔◌}
use mathlib.Core.Bool.{Bool, true}
use native.Mathlib.Omega.{arith}
use my_raft.Base.Tests.{ltb, leb, ◌==◌, if◌then◌else◌}

-- `negsuc n` is -(n + 1).
pub data ℤ : Type 0 where
  pos : ℕ → ℤ
  negsuc : ℕ → ℤ

abbrev pub pos_part : ℤ → ℕ
pos_part (pos n) = n
pos_part (negsuc n) = 0

abbrev pub neg_part : ℤ → ℕ
neg_part (pos n) = 0
neg_part (negsuc n) = suc n

infix 50 ◌≤ℤ◌ ◌<ℤ◌
abbrev pub ◌≤ℤ◌ : ℤ → ℤ → Type 0
a ≤ℤ b = pos_part a + neg_part b ≤ pos_part b + neg_part a

abbrev pub ◌<ℤ◌ : ℤ → ℤ → Type 0
a <ℤ b = pos_part a + neg_part b < pos_part b + neg_part a

abbrev pub ltb_ℤ : ℤ → ℤ → Bool
ltb_ℤ a b = ltb (pos_part a + neg_part b) (pos_part b + neg_part a)

abbrev pub leb_ℤ : ℤ → ℤ → Bool
leb_ℤ a b = leb (pos_part a + neg_part b) (pos_part b + neg_part a)

abbrev pub eqb_ℤ : ℤ → ℤ → Bool
eqb_ℤ a b = (pos_part a + neg_part b) == (pos_part b + neg_part a)

-- The bit pattern of an `int32`, and the `int32` of a bit pattern.
abbrev pub pattern32 : ℤ → ℕ
pattern32 a = (pos_part a + 2 ^ 32 - neg_part a) % 2 ^ 32

abbrev pub signed32 : ℕ → ℤ
signed32 w = if ltb w (2 ^ 31) then pos w else negsuc (2 ^ 32 - w - 1)

-- `a + b` on `int32`.
unfoldable pub add32 : ℤ → ℤ → ℤ
add32 a b = signed32 ((pattern32 a + pattern32 b) % 2 ^ 32)

-- `a - b` on `int32`.
unfoldable pub sub32 : ℤ → ℤ → ℤ
sub32 a b = signed32 ((pattern32 a + 2 ^ 32 - pattern32 b) % 2 ^ 32)

-- `int32(n)` of a length.
unfoldable pub int32 : ℕ → ℤ
int32 n = signed32 (n % 2 ^ 32)

abbrev pub max_int32 : ℤ
max_int32 = pos (2 ^ 31 - 1)

pub eq_of_parts : (a b : ℤ) → pos_part a + neg_part b ≡ pos_part b + neg_part a → a ≡ b
eq_of_parts a b h = ground arith

pub eqb_ℤ_iff : (a b : ℤ) → (eqb_ℤ a b ≡ true) ↔ (a ≡ b)
eqb_ℤ_iff a b = ground arith

-- Below the maximum, `+ 1` does not wrap.
pub add32-one_lt : (a : ℤ) → negsuc (2 ^ 31 - 1) ≤ℤ a → a <ℤ max_int32 → a <ℤ add32 a (pos 1)
unfolding add32
add32-one_lt a lo hi = ground arith

pub add32-pos : (m n : ℕ) → m + n < 2 ^ 31 → add32 (pos m) (pos n) ≡ pos (m + n)
unfolding add32
add32-pos m n h = ground arith

pub sub32-pos : (m n : ℕ) → m < 2 ^ 31 → n ≤ m → sub32 (pos m) (pos n) ≡ pos (m - n)
unfolding sub32
sub32-pos m n h k = ground arith

pub int32-small : (n : ℕ) → n < 2 ^ 31 → int32 n ≡ pos n
unfolding int32
int32-small n h = ground arith

add32-wraps : add32 max_int32 (pos 1) ≡ negsuc (2 ^ 31 - 1)
unfolding add32
add32-wraps = refl
