-- ===== src/Connectivity/Chosen.antt =====
-- The elements of an ordered list that pass a test, as `eraseNonSCC` collects them
-- (Buffers/src/DFnetlist_Connectivity.cpp).
use fpt2022_artifact.Common.{ℕ, ◌≡◌, ap, arith, inl, inr}
use fpt2022_artifact.Common.{Bool, ◌&&◌, List, [], ◌∷◌}
use fpt2022_artifact.Common.{◌==◌, if◌then◌else◌, Bool-cases, ==→eq}
use fpt2022_artifact.Common.Sets.{mem, AllAbove, IsOrdered}

-- The elements that pass a test.
abbrev pub chosen : (ℕ → Bool) → List ℕ → List ℕ
chosen f [] = []
chosen f (x ∷ xs) = if f x then x ∷ chosen f xs else chosen f xs

pub mem-chosen : (f : ℕ → Bool) (b : ℕ) (xs : List ℕ) → mem b (chosen f xs) ≡ (f b && mem b xs)
unfolding mem
mem-chosen f b [] = ground arith
mem-chosen f b (x ∷ xs) = elim (Bool-cases (x == b)) [
  | inl same ↦ let e = ap f (==→eq x b same) in ground (arith, mem-chosen f b xs, same, e)
  | inr apart ↦ ground (arith, mem-chosen f b xs, apart)
]

AllAbove-chosen : (f : ℕ → Bool) (lo : ℕ) (xs : List ℕ) → AllAbove lo xs → AllAbove lo (chosen f xs)
AllAbove-chosen f lo [] a = tt
AllAbove-chosen f lo (x ∷ xs) a = elim (Bool-cases (f x)) [
  | inl take ↦ rw take (a.0, AllAbove-chosen f lo xs a.1)
  | inr leave ↦ rw leave (AllAbove-chosen f lo xs a.1)
]

pub chosen-IsOrdered : (f : ℕ → Bool) (xs : List ℕ) → IsOrdered xs → IsOrdered (chosen f xs)
chosen-IsOrdered f [] o = tt
chosen-IsOrdered f (x ∷ xs) o = elim (Bool-cases (f x)) [
  | inl take ↦ rw take (AllAbove-chosen f x xs o.0, chosen-IsOrdered f xs o.1)
  | inr leave ↦ rw leave (chosen-IsOrdered f xs o.1)
]
