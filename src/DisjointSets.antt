-- ===== src/DisjointSets.antt =====
-- The disjoint sets of blocks that become basic blocks (Buffers/src/DFnetlsit_BasicBlocks.cpp):
-- union by rank with path compression, over the fields `bbParent` and `bbRank` of the blocks.
pub mod Roots
pub mod Find
pub mod Union
pub mod Classes
pub mod Start
mod Tests
use fpt2022_artifact.Netlist.Types.{BlockType}
use fpt2022_artifact.Netlist.Ports.{is_demux}
use fpt2022_artifact.Common.{
  ℕ, zero, suc, Bool, true, false, Option, none, some, List, [], ◌∷◌, ltb, ◌==◌, if◌then◌else◌,
}

-- The two fields of every block, as functions of the block's identifier.
pub record Forest : Type 0 where
  pub parent : ℕ → ℕ
  pub rank : ℕ → ℕ

abbrev pub set_parent : ℕ → ℕ → Forest → Forest
set_parent b p f = record f { parent = λ c. if b == c then p else f.parent c }

abbrev pub set_rank : ℕ → ℕ → Forest → Forest
set_rank b k f = record f { rank = λ c. if b == c then k else f.rank c }

-- `makeDisjointBB`
unfoldable pub make_disjoint_bb : ℕ → Forest → Forest
make_disjoint_bb b f = set_rank b 0 (set_parent b b f)

-- The loop of `calculateBasicBlocks` that makes a set of each block, and asserts that none is a demux;
-- the first argument is `getBlockType` on the blocks that exist.
unfoldable pub make_all : (ℕ → BlockType) → List ℕ → Forest → Option Forest
make_all types [] f = some f
make_all types (b ∷ bs) f =
    if is_demux (types b) then none else make_all types bs (make_disjoint_bb b f)

-- `findDisjointBB`, in at most `fuel` calls; `none` when the fuel is used up.
unfoldable pub find : ℕ → ℕ → Forest → Option (ℕ × Forest)
find zero b f = none
find (suc fuel) b f = elim (b == f.parent b) [
  | true ↦ some (b, f)
  | false ↦ elim (find fuel (f.parent b) f) [
    | none ↦ none
    | some (r, g) ↦ some (r, set_parent b r g)
  ]
]

abbrev pub max : ℕ → ℕ → ℕ
max a b = if ltb a b then b else a

unfoldable pub max_rank : List ℕ → Forest → ℕ
max_rank [] f = 0
max_rank (b ∷ bs) f = max (f.rank b) (max_rank bs f)

-- Ranks grow towards the root, so one call for each rank is enough.
unfoldable pub find_disjoint_bb : List ℕ → ℕ → Forest → Option (ℕ × Forest)
find_disjoint_bb live b f = find (suc (max_rank live f)) b f

-- The two roots are different: the one of lower rank goes below the other.
unfoldable pub link_roots : ℕ → ℕ → Forest → Forest
link_roots r1 r2 f =
    if ltb (f.rank r2) (f.rank r1)
    then set_parent r2 r1 f
    else if f.rank r1 == f.rank r2
    then set_rank r2 (suc (f.rank r2)) (set_parent r1 r2 f)
    else set_parent r1 r2 f

-- `unionDisjointBB`
unfoldable pub union_disjoint_bb : List ℕ → ℕ → ℕ → Forest → Option (Bool × Forest)
union_disjoint_bb live b1 b2 f = elim (find_disjoint_bb live b1 f) [
  | none ↦ none
  | some (r1, g) ↦ elim (find_disjoint_bb live b2 g) [
    | none ↦ none
    | some (r2, h) ↦ some (if r1 == r2 then (false, h) else (true, link_roots r1 r2 h))
  ]
]
