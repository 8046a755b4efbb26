-- ===== src/SetUtil/Members.antt =====
-- The elements of the sets that the operations of Buffers/src/SetUtil.h make, and their order.
use fpt2022_artifact.Common.{ℕ, ◌≡◌, refl, inl, inr, arith, Bool-cases}
use fpt2022_artifact.Common.{not, ◌&&◌, ◌||◌, List, [], ◌∷◌}
use fpt2022_artifact.Common.Sets.{mem, insert, mem-insert, insert-IsOrdered, AllAbove, IsOrdered}
use fpt2022_artifact.SetUtil.{set_intersection, set_union, set_difference}

pub mem-set_intersection :
    (a : ℕ) (s1 s2 : List ℕ) → mem a (set_intersection s1 s2) ≡ (mem a s1 && mem a s2)
unfolding set_intersection mem
mem-set_intersection a [] s2 = refl
mem-set_intersection a (x ∷ xs) s2 = ground (arith, mem-set_intersection a xs s2)

pub mem-set_union : (a : ℕ) (s1 s2 : List ℕ) → mem a (set_union s1 s2) ≡ (mem a s1 || mem a s2)
unfolding set_union mem
mem-set_union a s1 [] = ground arith
mem-set_union a s1 (x ∷ xs) = ground (arith, mem-set_union a (insert x s1) xs, mem-insert x a s1)

pub mem-set_difference :
    (a : ℕ) (s1 s2 : List ℕ) → mem a (set_difference s1 s2) ≡ (mem a s1 && not (mem a s2))
unfolding set_difference mem
mem-set_difference a [] s2 = refl
mem-set_difference a (x ∷ xs) s2 = ground (arith, mem-set_difference a xs s2)

AllAbove-set_intersection :
    (lo : ℕ) (s1 s2 : List ℕ) → AllAbove lo s1 → AllAbove lo (set_intersection s1 s2)
unfolding set_intersection
AllAbove-set_intersection lo [] s2 p = tt
AllAbove-set_intersection lo (x ∷ xs) s2 p = elim (Bool-cases (mem x s2)) [
  | inl has ↦ rw has (p.0, AllAbove-set_intersection lo xs s2 p.1)
  | inr lacks ↦ rw lacks (AllAbove-set_intersection lo xs s2 p.1)
]

pub set_intersection-IsOrdered :
    (s1 s2 : List ℕ) → IsOrdered s1 → IsOrdered (set_intersection s1 s2)
unfolding set_intersection
set_intersection-IsOrdered [] s2 p = tt
set_intersection-IsOrdered (x ∷ xs) s2 p = elim (Bool-cases (mem x s2)) [
  | inl has ↦ rw has (AllAbove-set_intersection x xs s2 p.0, set_intersection-IsOrdered xs s2 p.1)
  | inr lacks ↦ rw lacks (set_intersection-IsOrdered xs s2 p.1)
]

pub set_union-IsOrdered : (s1 s2 : List ℕ) → IsOrdered s1 → IsOrdered (set_union s1 s2)
unfolding set_union
set_union-IsOrdered s1 [] p = p
set_union-IsOrdered s1 (x ∷ xs) p = set_union-IsOrdered (insert x s1) xs (insert-IsOrdered x s1 p)

AllAbove-set_difference :
    (lo : ℕ) (s1 s2 : List ℕ) → AllAbove lo s1 → AllAbove lo (set_difference s1 s2)
unfolding set_difference
AllAbove-set_difference lo [] s2 p = tt
AllAbove-set_difference lo (x ∷ xs) s2 p = elim (Bool-cases (mem x s2)) [
  | inl has ↦ rw has (AllAbove-set_difference lo xs s2 p.1)
  | inr lacks ↦ rw lacks (p.0, AllAbove-set_difference lo xs s2 p.1)
]

pub set_difference-IsOrdered : (s1 s2 : List ℕ) → IsOrdered s1 → IsOrdered (set_difference s1 s2)
unfolding set_difference
set_difference-IsOrdered [] s2 p = tt
set_difference-IsOrdered (x ∷ xs) s2 p = elim (Bool-cases (mem x s2)) [
  | inl has ↦ rw has (set_difference-IsOrdered xs s2 p.1)
  | inr lacks ↦ rw lacks (AllAbove-set_difference x xs s2 p.0, set_difference-IsOrdered xs s2 p.1)
]
