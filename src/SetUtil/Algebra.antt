-- ===== src/SetUtil/Algebra.antt =====
-- Two ordered lists with the same elements are equal, so that the operations of
-- Buffers/src/SetUtil.h are those of sets.
use fpt2022_artifact.Common.{ℕ, ◌≡◌, ◌↔◌, ◌<◌, refl, sym, ap, ◌∙◌, arith, ap₂}
use fpt2022_artifact.Common.{true, List, [], ◌∷◌}
use fpt2022_artifact.Common.Sets.{mem, AllAbove, IsOrdered, not-mem-above}
use fpt2022_artifact.SetUtil.{set_intersection, set_union, set_difference, set_equal, set_includes}
use fpt2022_artifact.SetUtil.Members.{mem-set_intersection, mem-set_union, mem-set_difference}
use fpt2022_artifact.SetUtil.Members.{set_union-IsOrdered, set_difference-IsOrdered}

mem-above : (lo a : ℕ) (xs : List ℕ) → AllAbove lo xs → mem a xs ≡ true → lo < a
unfolding mem
mem-above lo a [] p h = cc
mem-above lo a (x ∷ xs) p h = ground (arith, mem-above lo a xs p.1, p.0)

-- The heads of two ordered lists with the same elements are equal.
same-head :
    (x y : ℕ) (xs ys : List ℕ)
    → IsOrdered (x ∷ xs)
    → IsOrdered (y ∷ ys)
    → ((a : ℕ) → mem a (x ∷ xs) ≡ mem a (y ∷ ys))
    → x ≡ y
unfolding mem
same-head x y xs ys p q h = ground (arith, h x, h y, mem-above x y xs p.0, mem-above y x ys q.0)

pub same-members :
    (s1 s2 : List ℕ) → IsOrdered s1 → IsOrdered s2 → ((a : ℕ) → mem a s1 ≡ mem a s2) → s1 ≡ s2
unfolding mem
same-members [] [] p q h = refl
same-members [] (y ∷ ys) p q h = absurd (ground (arith, h y))
same-members (x ∷ xs) [] p q h = absurd (ground (arith, h x))
same-members (x ∷ xs) (y ∷ ys) p q h =
    let e = same-head x y xs ys p q h in
    ap₂ (λ a rest. a ∷ rest) e
      (same-members xs ys p.1 q.1
        (λ a. ground (arith, h a, e, not-mem-above x xs p.0, not-mem-above y ys q.0)))

set_equal→eq : (s1 s2 : List ℕ) → set_equal s1 s2 ≡ true → s1 ≡ s2
unfolding set_equal
set_equal→eq [] [] h = refl
set_equal→eq [] (y ∷ ys) h = cc
set_equal→eq (x ∷ xs) [] h = cc
set_equal→eq (x ∷ xs) (y ∷ ys) h = ground (arith, set_equal→eq xs ys)

set_equal_refl : (s : List ℕ) → set_equal s s ≡ true
unfolding set_equal
set_equal_refl [] = refl
set_equal_refl (x ∷ xs) = ground (arith, set_equal_refl xs)

-- `setEqual` on two sets answers true exactly when they have the same elements.
pub set_equal_lem :
    (s1 s2 : List ℕ)
    → IsOrdered s1
    → IsOrdered s2
    → (set_equal s1 s2 ≡ true) ↔ ((a : ℕ) → mem a s1 ≡ mem a s2)
set_equal_lem s1 s2 p q = (
  λ h a. ap (mem a) (set_equal→eq s1 s2 h),
  λ h. ap (set_equal s1) (sym (same-members s1 s2 p q h)) ∙ set_equal_refl s1,
)

includes→mem :
    (a : ℕ) (s1 s2 : List ℕ) → set_includes s1 s2 ≡ true → mem a s2 ≡ true → mem a s1 ≡ true
unfolding set_includes mem
includes→mem a s1 [] h k = cc
includes→mem a s1 (y ∷ ys) h k = ground (arith, includes→mem a s1 ys)

mem→includes :
    (s1 s2 : List ℕ) → ((a : ℕ) → mem a s2 ≡ true → mem a s1 ≡ true) → set_includes s1 s2 ≡ true
unfolding set_includes mem
mem→includes s1 [] h = refl
mem→includes s1 (y ∷ ys) h =
    let rest = mem→includes s1 ys (λ a k. h a (ground (arith, k))) in rw (h y (ground arith)) rest

-- `setIncludes` on two sets answers true exactly when the union of both is the first one.
pub set_includes-set_union :
    (s1 s2 : List ℕ) → IsOrdered s1 → (set_includes s1 s2 ≡ true) ↔ (set_union s1 s2 ≡ s1)
set_includes-set_union s1 s2 p = (
  λ h.
      same-members (set_union s1 s2) s1 (set_union-IsOrdered s1 s2 p) p
        (λ a. ground (arith, mem-set_union a s1 s2, includes→mem a s1 s2 h)),
  λ e. mem→includes s1 s2 (λ a k. ground (arith, mem-set_union a s1 s2, ap (mem a) e, k)),
)

-- `setUnion` does not depend on the order of two sets.
pub set_union_comm :
    (s1 s2 : List ℕ) → IsOrdered s1 → IsOrdered s2 → set_union s1 s2 ≡ set_union s2 s1
set_union_comm s1 s2 p q =
    same-members (set_union s1 s2) (set_union s2 s1) (set_union-IsOrdered s1 s2 p)
      (set_union-IsOrdered s2 s1 q)
      (λ a. ground (arith, mem-set_union a s1 s2, mem-set_union a s2 s1))

-- A set is the union of its difference to any other set and its intersection with that.
pub set_union-split :
    (s1 s2 : List ℕ) → IsOrdered s1 → set_union (set_difference s1 s2) (set_intersection s1 s2) ≡ s1
set_union-split s1 s2 p =
    let d = set_difference-IsOrdered s1 s2 p in
    same-members (set_union (set_difference s1 s2) (set_intersection s1 s2)) s1
      (set_union-IsOrdered (set_difference s1 s2) (set_intersection s1 s2) d) p
      (λ a. ground (
        arith,
        mem-set_union a (set_difference s1 s2) (set_intersection s1 s2),
        mem-set_difference a s1 s2,
        mem-set_intersection a s1 s2,
      ))
