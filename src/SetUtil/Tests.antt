-- ===== src/SetUtil/Tests.antt =====
-- Runs of the set operations.
use fpt2022_artifact.Common.{ℕ, ◌≡◌, refl, List, [], ◌∷◌}
use fpt2022_artifact.Common.Sets.{insert}
use fpt2022_artifact.SetUtil.{set_union}

abbrev odd : List ℕ
odd = 1 ∷ 3 ∷ 5 ∷ []

abbrev low : List ℕ
low = 1 ∷ 2 ∷ 3 ∷ []

union_run : set_union odd low ≡ 1 ∷ 2 ∷ 3 ∷ 5 ∷ []
unfolding set_union insert
union_run = refl
