-- ===== src/DisjointSets/Start.antt =====
-- The disjoint sets at the start of `calculateBasicBlocks`.
use fpt2022_artifact.Common.{ℕ, ◌≡◌, refl, sym, ◌∙◌, true, List, [], ◌∷◌, ◌==◌}
use fpt2022_artifact.Common.{==→eq, inl, inr, arith, Bool-cases}
use fpt2022_artifact.Common.Sets.{mem}
use fpt2022_artifact.Common.{false, ap, some, none}
use fpt2022_artifact.Netlist.Types.{BlockType}
use fpt2022_artifact.Netlist.Ports.{is_demux}
use fpt2022_artifact.DisjointSets.{Forest, make_disjoint_bb, make_all}
use fpt2022_artifact.DisjointSets.Roots.{Root, at_root, IsForest, Root-unique}
use fpt2022_artifact.DisjointSets.Union.{Same}

-- What the loop makes of the fields.
unfoldable pub each_alone : List ℕ → Forest → Forest
each_alone [] f = f
each_alone (b ∷ bs) f = each_alone bs (make_disjoint_bb b f)

-- A block that is its own set stays so.
each_alone-kept :
    (bs : List ℕ) (f : Forest) (b : ℕ)
    → f.parent b ≡ b
    → f.rank b ≡ 0
    → ((each_alone bs f).parent b ≡ b) × ((each_alone bs f).rank b ≡ 0)
unfolding each_alone make_disjoint_bb
each_alone-kept [] f b p r = (p, r)
each_alone-kept (c ∷ bs) f b p r = elim (Bool-cases (c == b)) [
  | inl same ↦ each_alone-kept bs (make_disjoint_bb c f) b (rw same (==→eq c b same)) (rw same refl)
  | inr apart ↦ each_alone-kept bs (make_disjoint_bb c f) b (rw apart p) (rw apart r)
]

each_alone-alone :
    (bs : List ℕ) (f : Forest) (b : ℕ)
    → mem b bs ≡ true
    → ((each_alone bs f).parent b ≡ b) × ((each_alone bs f).rank b ≡ 0)
unfolding each_alone make_disjoint_bb mem
each_alone-alone [] f b h = absurd (ground (arith, h))
each_alone-alone (c ∷ bs) f b h = elim (Bool-cases (c == b)) [
  | inl same ↦ each_alone-kept bs (make_disjoint_bb c f) b (rw same (==→eq c b same)) (rw same refl)
  | inr apart ↦ each_alone-alone bs (make_disjoint_bb c f) b (ground (arith, h, apart))
]

pub each_alone-IsForest : (live : List ℕ) (f : Forest) → IsForest live (each_alone live f)
each_alone-IsForest live f = record {
  up = λ b h. rw (each_alone-alone live f b h).0 h;
  higher = λ b h n. absurd (ground (arith, n, (each_alone-alone live f b h).0));
}

each_alone-apart :
    (live : List ℕ) (f : Forest) (x y : ℕ)
    → mem x live ≡ true
    → mem y live ≡ true
    → Same (each_alone live f) x y
    → x ≡ y
each_alone-apart live f x y hx hy k =
    let top : (b : ℕ) → mem b live ≡ true → Root (each_alone live f).parent b b =
      λ b h. at_root b (ground (arith, (each_alone-alone live f b h).0)) in
    Root-unique (each_alone live f).parent x x k.root (top x hx) k.left
    ∙ sym (Root-unique (each_alone live f).parent y y k.root (top y hy) k.right)

pub make_all-each_alone :
    (types : ℕ → BlockType) (bs : List ℕ) (f : Forest)
    → ((b : ℕ) → mem b bs ≡ true → is_demux (types b) ≡ false)
    → make_all types bs f ≡ some (each_alone bs f)
unfolding make_all each_alone mem
make_all-each_alone types [] f plain = refl
make_all-each_alone types (b ∷ bs) f plain =
    rw (plain b (ground arith))
      (make_all-each_alone types bs (make_disjoint_bb b f) (λ c k. plain c (ground (arith, k))))

-- The loop fails its assertion at a demux.
make_all-demux :
    (types : ℕ → BlockType) (bs : List ℕ) (f : Forest) (b : ℕ)
    → mem b bs ≡ true
    → is_demux (types b) ≡ true
    → make_all types bs f ≡ none
unfolding make_all mem
make_all-demux types [] f b h d = absurd (ground (arith, h))
make_all-demux types (c ∷ bs) f b h d = elim (Bool-cases (c == b)) [
  | inl same ↦
      let d_c : is_demux (types c) ≡ true = ap (λ x. is_demux (types x)) (==→eq c b same) ∙ d in
      rw d_c refl
  | inr apart ↦
      let rest = make_all-demux types bs (make_disjoint_bb c f) b (ground (arith, h, apart)) d in
      elim (Bool-cases (is_demux (types c))) [ inl stop ↦ rw stop refl | inr pass ↦ rw pass rest ]
]

-- When no block is a demux, the first loop of `calculateBasicBlocks` passes its assertions, and after
-- it, whatever the fields held before, the forest is well formed and each block is alone in its set.
pub make_all-IsForest :
    (types : ℕ → BlockType) (live : List ℕ) (f : Forest)
    → ((b : ℕ) → mem b live ≡ true → is_demux (types b) ≡ false)
    → (g : Forest) × (make_all types live f ≡ some g)
      × IsForest live g
      × ((x y : ℕ) → mem x live ≡ true → mem y live ≡ true → Same g x y → x ≡ y)
make_all-IsForest types live f plain = (
  each_alone live f,
  make_all-each_alone types live f plain,
  each_alone-IsForest live f,
  each_alone-apart live f,
)
