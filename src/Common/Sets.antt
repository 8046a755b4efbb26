-- ===== src/Common/Sets.antt =====
-- `std::set<int>` of identifiers: a list in ascending order without repetition. Iteration follows
-- the list, and `begin` is its head.
use fpt2022_artifact.Common.Tests.{◌==◌, ltb, if◌then◌else◌}
use fpt2022_artifact.Common.Lists.{length}
use Prim.Native.Nat.{ℕ, suc, ◌<◌, ◌≤◌}
use mathlib.Core.Path.{◌≡◌, refl}
use mathlib.Core.Bool.{Bool, true, false, not, ◌&&◌, ◌||◌}
use mathlib.Core.List.{List, [], ◌∷◌}
use native.Mathlib.Omega.{arith}

unfoldable pub mem : ℕ → List ℕ → Bool
mem a [] = false
mem a (x ∷ xs) = if x == a then true else mem a xs

unfoldable pub insert : ℕ → List ℕ → List ℕ
insert a [] = a ∷ []
insert a (x ∷ xs) = if ltb a x then a ∷ x ∷ xs else if a == x then x ∷ xs else x ∷ insert a xs

unfoldable pub erase : ℕ → List ℕ → List ℕ
erase a [] = []
erase a (x ∷ xs) = if x == a then erase a xs else x ∷ erase a xs

-- Every element lies above a bound.
abbrev pub AllAbove : ℕ → List ℕ → Type 0
AllAbove lo [] = Unit
AllAbove lo (x ∷ xs) = (lo < x) × AllAbove lo xs

-- Ascending, hence without repetition.
abbrev pub IsOrdered : List ℕ → Type 0
IsOrdered [] = Unit
IsOrdered (x ∷ xs) = AllAbove x xs × IsOrdered xs

pub mem-insert : (a b : ℕ) (xs : List ℕ) → mem b (insert a xs) ≡ ((a == b) || mem b xs)
unfolding mem insert
mem-insert a b [] = ground arith
mem-insert a b (x ∷ xs) = ground (arith, mem-insert a b xs)

pub mem-erase : (a b : ℕ) (xs : List ℕ) → mem b (erase a xs) ≡ (not (a == b) && mem b xs)
unfolding mem erase
mem-erase a b [] = ground arith
mem-erase a b (x ∷ xs) = ground (arith, mem-erase a b xs)

AllAbove-trans : (a b : ℕ) (xs : List ℕ) → a ≤ b → AllAbove b xs → AllAbove a xs
AllAbove-trans a b [] h p = tt
AllAbove-trans a b (x ∷ xs) h p = (omega arith, AllAbove-trans a b xs h p.1)

AllAbove-insert : (lo a : ℕ) (xs : List ℕ) → lo < a → AllAbove lo xs → AllAbove lo (insert a xs)
unfolding insert
AllAbove-insert lo a [] h p = (h, tt)
AllAbove-insert lo a (x ∷ xs) h p = ground (arith, AllAbove-insert lo a xs h p.1)

AllAbove-erase : (lo a : ℕ) (xs : List ℕ) → AllAbove lo xs → AllAbove lo (erase a xs)
unfolding erase
AllAbove-erase lo a [] p = tt
AllAbove-erase lo a (x ∷ xs) p = ground (arith, AllAbove-erase lo a xs p.1)

pub insert-IsOrdered : (a : ℕ) (xs : List ℕ) → IsOrdered xs → IsOrdered (insert a xs)
unfolding insert
insert-IsOrdered a [] p = (tt, tt)
insert-IsOrdered a (x ∷ xs) p =
    ground (arith, insert-IsOrdered a xs p.1, AllAbove-trans a x xs, AllAbove-insert x a xs)

pub erase-IsOrdered : (a : ℕ) (xs : List ℕ) → IsOrdered xs → IsOrdered (erase a xs)
unfolding erase
erase-IsOrdered a [] p = tt
erase-IsOrdered a (x ∷ xs) p = ground (arith, erase-IsOrdered a xs p.1, AllAbove-erase x a xs p.0)

pub not-mem-above : (a : ℕ) (xs : List ℕ) → AllAbove a xs → mem a xs ≡ false
unfolding mem
not-mem-above a [] p = refl
not-mem-above a (x ∷ xs) p = ground (arith, not-mem-above a xs p.1)

pub length-insert :
    (a : ℕ) (xs : List ℕ)
    → IsOrdered xs
    → length (insert a xs) ≡ (if mem a xs then length xs else suc (length xs))
unfolding insert mem
length-insert a [] p = refl
length-insert a (x ∷ xs) p = ground (
  arith,
  length-insert a xs p.1,
  not-mem-above x xs p.0,
  not-mem-above a xs,
  AllAbove-trans a x xs,
)

erase-absent : (a : ℕ) (xs : List ℕ) → mem a xs ≡ false → erase a xs ≡ xs
unfolding erase mem
erase-absent a [] h = refl
erase-absent a (x ∷ xs) h = ground (arith, erase-absent a xs)

pub length-erase :
    (a : ℕ) (xs : List ℕ)
    → IsOrdered xs
    → (if mem a xs then suc (length (erase a xs)) else length (erase a xs)) ≡ length xs
unfolding erase mem
length-erase a [] p = refl
length-erase a (x ∷ xs) p =
    ground
      (arith, length-erase a xs p.1, not-mem-above x xs p.0, erase-absent x xs, erase-absent a xs)
