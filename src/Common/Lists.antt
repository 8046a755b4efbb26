-- ===== src/Common/Lists.antt =====
-- Vectors as lists with native indices, under the library's names.
use Prim.Native.Nat.{ℕ, zero, suc, ◌+◌}
use mathlib.Core.Path.{◌≡◌, refl, ap}
use mathlib.Core.Bool.{◌&&◌}
use mathlib.Core.List.{List, [], ◌∷◌, ◌++◌}
use native.Mathlib.Omega.{arith}
use fpt2022_artifact.Common.Tests.{◌==◌, ltb, if◌then◌else◌}

module _ {ℓ} {A : Type ℓ} where
  abbrev pub length : List A → ℕ
  length [] = 0
  length (x ∷ xs) = suc (length xs)

  -- A read out of range gives the default.
  unfoldable pub get_or : List A → ℕ → A → A
  get_or [] i d = d
  get_or (x ∷ xs) zero d = x
  get_or (x ∷ xs) (suc i) d = get_or xs i d

  -- Apply a function to the element at an index; out of range nothing changes.
  unfoldable pub modify : List A → ℕ → (A → A) → List A
  modify [] i f = []
  modify (x ∷ xs) zero f = f x ∷ xs
  modify (x ∷ xs) (suc i) f = x ∷ modify xs i f

  pub length-append : (xs ys : List A) → length (xs ++ ys) ≡ length xs + length ys
  length-append [] ys = omega arith
  length-append (x ∷ xs) ys = omega (arith, length-append xs ys)

  pub length-modify : (xs : List A) (i : ℕ) (f : A → A) → length (modify xs i f) ≡ length xs
  unfolding modify
  length-modify [] i f = refl
  length-modify (x ∷ xs) zero f = refl
  length-modify (x ∷ xs) (suc i) f = ap suc (length-modify xs i f)

  pub get_or-modify :
      (xs : List A) (i j : ℕ) (f : A → A) (d : A)
      → get_or (modify xs i f) j d
        ≡ (if (i == j) && ltb i (length xs) then f (get_or xs j d) else get_or xs j d)
  unfolding modify get_or
  get_or-modify [] i j f d = ground arith
  get_or-modify (x ∷ xs) zero zero f d = ground arith
  get_or-modify (x ∷ xs) zero (suc j) f d = ground arith
  get_or-modify (x ∷ xs) (suc i) zero f d = ground arith
  get_or-modify (x ∷ xs) (suc i) (suc j) f d = ground (arith, get_or-modify xs i j f d)

  pub get_or-append :
      (xs : List A) (i : ℕ) (y d : A)
      → get_or (xs ++ y ∷ []) i d ≡ (if i == length xs then y else get_or xs i d)
  unfolding get_or
  get_or-append [] zero y d = ground arith
  get_or-append [] (suc i) y d = ground arith
  get_or-append (x ∷ xs) zero y d = ground arith
  get_or-append (x ∷ xs) (suc i) y d = ground (arith, get_or-append xs i y d)
