-- ===== src/Base/Go.antt =====
-- Go's run-time behaviour: `none` is a panic, such as an index out of range.
use mathlib.Core.List.{List}
use mathlib.Core.Option.{Option, none, some}
use my_raft.Base.Lists.{length, get_elem?, take, drop}
use my_raft.Base.Int.{ℤ, pos, negsuc}
use my_raft.Base.Tests.{leb, if◌then◌else◌}
use mathlib.Core.Bool.{◌&&◌}
use Prim.Native.Nat.{ℕ, ◌-◌}

infixl 5 ◌>>=◌
abbrev pub ◌>>=◌ {ℓ κ} : {A : Type ℓ} {B : Type κ} → Option A → (A → Option B) → Option B
none >>= f = none
some a >>= f = f a

-- Text, as the list of its bytes.
abbrev pub Bytes : Type 0
Bytes = List ℕ

module _ {ℓ} {A : Type ℓ} where
  -- `l[i]`
  abbrev pub index : List A → ℤ → Option A
  index l (pos i) = get_elem? l i
  index l (negsuc i) = none

  -- `l[len(l)-1]`
  abbrev pub last : List A → Option A
  last l = get_elem? l (length l - 1)

  -- `l[a:b]` within the length of `l`
  abbrev pub slice_ℕ : List A → ℕ → ℕ → Option (List A)
  slice_ℕ l a b = if leb a b && leb b (length l) then some (drop a (take b l)) else none

  abbrev pub slice : List A → ℤ → ℤ → Option (List A)
  slice l (pos a) (pos b) = slice_ℕ l a b
  slice l _ _ = none
