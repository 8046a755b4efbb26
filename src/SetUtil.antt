-- ===== src/SetUtil.antt =====
-- Operations on sets of integers (Buffers/src/SetUtil.h): a set is the ordered list of its
-- elements, and the algorithms of the standard library keep the order of their first argument.
pub mod Members
pub mod Algebra
mod Tests
use fpt2022_artifact.Common.{ℕ, Bool, true, false, not, List, [], ◌∷◌, if◌then◌else◌, ◌==◌}
use fpt2022_artifact.Common.Sets.{mem, insert}

-- `set_intersection` of two ordered ranges.
unfoldable pub set_intersection : List ℕ → List ℕ → List ℕ
set_intersection [] s2 = []
set_intersection (x ∷ xs) s2 =
    let rest = set_intersection xs s2 in if mem x s2 then x ∷ rest else rest

-- `R = S1; R.insert(S2.begin(), S2.end())`
unfoldable pub set_union : List ℕ → List ℕ → List ℕ
set_union s1 [] = s1
set_union s1 (x ∷ xs) = set_union (insert x s1) xs

-- `set_difference` of two ordered ranges.
unfoldable pub set_difference : List ℕ → List ℕ → List ℕ
set_difference [] not_s = []
set_difference (x ∷ xs) not_s =
    let rest = set_difference xs not_s in if mem x not_s then rest else x ∷ rest

-- `S1 == S2`
unfoldable pub set_equal : List ℕ → List ℕ → Bool
set_equal [] [] = true
set_equal [] (y ∷ ys) = false
set_equal (x ∷ xs) [] = false
set_equal (x ∷ xs) (y ∷ ys) = if x == y then set_equal xs ys else false

-- `includes`: each element of the second set is in the first.
unfoldable pub set_includes : List ℕ → List ℕ → Bool
set_includes s1 [] = true
set_includes s1 (y ∷ ys) = if mem y s1 then set_includes s1 ys else false
