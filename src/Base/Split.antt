-- ===== src/Base/Split.antt =====
-- `strings.Split(s, sep)` for a separator that is not empty: the parts between the places where it
-- stands, from the left and without overlap.
use Prim.Native.Nat.{ℕ, zero, suc, ◌-◌}
use mathlib.Core.Path.{◌≡◌, refl, ap, ◌∙◌}
use mathlib.Core.Bool.{Bool, true, false, ◌&&◌}
use mathlib.Core.List.{List, [], ◌∷◌, ◌++◌}
use native.Mathlib.Omega.{arith}
use my_raft.Base.Tests.{◌==◌, ==_iff, if◌then◌else◌}
use my_raft.Base.Lists.{length}
use my_raft.Base.Go.{Bytes}

unfoldable pub has_prefix : Bytes → Bytes → Bool
has_prefix [] s = true
has_prefix (p ∷ ps) [] = false
has_prefix (p ∷ ps) (c ∷ s) = p == c && has_prefix ps s

abbrev pub cons_head : ℕ → List Bytes → List Bytes
cons_head c [] = (c ∷ []) ∷ []
cons_head c (part ∷ parts) = (c ∷ part) ∷ parts

-- `skip` bytes of a separator that was found are still to be passed over.
unfoldable pub split_from : Bytes → ℕ → Bytes → List Bytes
unfolding has_prefix
split_from sep skip [] = [] ∷ []
split_from sep (suc skip) (c ∷ s) = split_from sep skip s
split_from sep zero (c ∷ s) =
    let found = has_prefix sep (c ∷ s) in
    let rest = split_from sep (if found then length sep - 1 else 0) s in
    if found then [] ∷ rest else cons_head c rest

abbrev pub split : Bytes → Bytes → List Bytes
split s sep = split_from sep 0 s

-- The byte does not occur.
abbrev pub Avoids : ℕ → Bytes → Type 0
Avoids b [] = Unit
Avoids b (c ∷ s) = ((b == c) ≡ false) × Avoids b s

has_prefix-append : (ps s : Bytes) → has_prefix ps (ps ++ s) ≡ true
unfolding has_prefix
has_prefix-append [] s = refl
has_prefix-append (p ∷ ps) s = ground (arith, has_prefix-append ps s, ==_iff p p)

split_from-skip : (sep t s : Bytes) → split_from sep (length t) (t ++ s) ≡ split_from sep 0 s
unfolding split_from
split_from-skip sep [] s = refl
split_from-skip sep (c ∷ t) s = split_from-skip sep t s

module _ (h : ℕ) (t : Bytes) where
  at_sep : (s : Bytes) → split ((h ∷ t) ++ s) (h ∷ t) ≡ [] ∷ split s (h ∷ t)
  unfolding split_from
  at_sep s = rw (has_prefix-append (h ∷ t) s) (
      ap (λ n. [] ∷ split_from (h ∷ t) n (t ++ s)) (omega arith)
      ∙ ap (◌∷◌ []) (split_from-skip (h ∷ t) t s))

  step :
      (c : ℕ) (s : Bytes) → (h == c) ≡ false → split (c ∷ s) (h ∷ t) ≡ cons_head c (split s (h ∷ t))
  unfolding split_from
  step c s e = rw e refl

  -- The text before the first separator is the first part.
  pub split-append :
      (a s : Bytes) → Avoids h a → split (a ++ ((h ∷ t) ++ s)) (h ∷ t) ≡ a ∷ split s (h ∷ t)
  split-append [] s v = at_sep s
  split-append (c ∷ a) s v =
      step c (a ++ ((h ∷ t) ++ s)) v.0 ∙ ap (cons_head c) (split-append a s v.1)

  -- A text without the separator is one part.
  pub split-one : (a : Bytes) → Avoids h a → split a (h ∷ t) ≡ a ∷ []
  unfolding split_from
  split-one [] v = refl
  split-one (c ∷ a) v = step c a v.0 ∙ ap (cons_head c) (split-one a v.1)

pub Avoids-append : (b : ℕ) (s t : Bytes) → Avoids b s → Avoids b t → Avoids b (s ++ t)
Avoids-append b [] t v w = w
Avoids-append b (c ∷ s) t v w = (v.0, Avoids-append b s t v.1 w)
