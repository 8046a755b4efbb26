-- ===== src/DisjointSets/Tests.antt =====
-- Runs on four blocks.
use fpt2022_artifact.Common.{ℕ, ◌≡◌, refl, List, [], ◌∷◌, true, false, Bool, Option, some, none}
use fpt2022_artifact.Common.Sets.{mem}
use fpt2022_artifact.DisjointSets.{Forest, make_all, make_disjoint_bb, union_disjoint_bb, find}
use fpt2022_artifact.DisjointSets.{find_disjoint_bb, max_rank, link_roots}
use fpt2022_artifact.DisjointSets.Roots.{IsForest}
use fpt2022_artifact.DisjointSets.Find.{FindsRoot, find_disjoint_bb-FindsRoot}
use fpt2022_artifact.DisjointSets.Union.{Same}
use fpt2022_artifact.DisjointSets.Classes.{Unites, union_disjoint_bb-Unites}
use fpt2022_artifact.DisjointSets.Start.{make_all-IsForest, each_alone, each_alone-IsForest}
use fpt2022_artifact.Netlist.Types.{fork}
use fpt2022_artifact.Netlist.Ports.{is_demux}

abbrev four : List ℕ
four = 0 ∷ 1 ∷ 2 ∷ 3 ∷ []

abbrev garbage : Forest
garbage = record { parent = λ b. 7; rank = λ b. 5 }

abbrev alone : Forest
alone = each_alone four garbage

abbrev result : Option (Bool × Forest) → Bool
result none = false
result (some (b, f)) = b

abbrev forest : Option (Bool × Forest) → Forest
forest none = garbage
forest (some (b, f)) = f

union_new : result (union_disjoint_bb four 0 1 alone) ≡ true
unfolding union_disjoint_bb find_disjoint_bb find max_rank link_roots each_alone make_disjoint_bb
union_new = refl

union_twice :
    result (union_disjoint_bb four 1 0 (forest (union_disjoint_bb four 0 1 alone))) ≡ false
unfolding union_disjoint_bb find_disjoint_bb find max_rank link_roots each_alone make_disjoint_bb
union_twice = refl

has_zero : mem 0 four ≡ true
unfolding mem
has_zero = refl

has_one : mem 1 four ≡ true
unfolding mem
has_one = refl

make_all-IsForest_example :
    (g : Forest) × (make_all (λ b. fork) four garbage ≡ some g)
    × IsForest four g
    × ((x y : ℕ) → mem x four ≡ true → mem y four ≡ true → Same g x y → x ≡ y)
unfolding is_demux
make_all-IsForest_example = make_all-IsForest (λ b. fork) four garbage (λ b h. refl)

find_disjoint_bb-FindsRoot_example : FindsRoot four alone 1 (find_disjoint_bb four 1 alone)
find_disjoint_bb-FindsRoot_example =
    find_disjoint_bb-FindsRoot four alone 1 (each_alone-IsForest four garbage) has_one

union_disjoint_bb-Unites_example : Unites four alone 0 1 (union_disjoint_bb four 0 1 alone)
union_disjoint_bb-Unites_example =
    union_disjoint_bb-Unites four alone 0 1 (each_alone-IsForest four garbage) has_zero has_one
