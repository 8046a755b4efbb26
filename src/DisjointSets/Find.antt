-- ===== src/DisjointSets/Find.antt =====
-- `findDisjointBB` returns the root of a block, and its path compression keeps the sets.
use fpt2022_artifact.Common.{
  ℕ, zero, suc, ◌+◌, ◌≡◌, ◌<◌, ◌≤◌, refl, sym, ap, subst, ◌∙◌, true, false, List, [], ◌∷◌,
}
use fpt2022_artifact.Common.{◌==◌, Bool-cases, ==→eq, inl, inr, arith}
use fpt2022_artifact.Common.{Option, some}
use fpt2022_artifact.Common.Sets.{mem}
use fpt2022_artifact.DisjointSets.{Forest, set_parent, find, find_disjoint_bb, max_rank}
use fpt2022_artifact.DisjointSets.Roots.{
  Root, at_root, above, IsForest, Root-live, Root-rank, compress-Root,
}

-- What a search answers: the root, and a forest with the same roots and ranks.
pub record FindsRoot (live : List ℕ) (f : Forest) (b : ℕ) (res : Option (ℕ × Forest)) : Type 0 where
  pub root : ℕ
  pub after : Forest
  pub returns : res ≡ some (root, after)
  pub is_root : Root f.parent b root
  pub formed : IsForest live after
  pub ranks : (x : ℕ) → after.rank x ≡ f.rank x
  pub keeps : (x q : ℕ) → Root f.parent x q → Root after.parent x q

-- Pointing a block at a root of higher rank keeps the forest well formed.
pub set_parent-IsForest :
    (live : List ℕ) (f : Forest) (b r : ℕ)
    → IsForest live f
    → mem r live ≡ true
    → f.rank b < f.rank r
    → IsForest live (set_parent b r f)
set_parent-IsForest live f b r w h lt = record {
  up = λ c k. ground (arith, w.up c, h);
  higher = λ c k n. elim (Bool-cases (b == c)) [
    | inl same ↦
        let eq = ==→eq b c same in
        let to : (set_parent b r f).parent c ≡ r = ground (arith, same) in
        rw to (subst (λ y. f.rank y < f.rank r) eq lt)
    | inr apart ↦
        let to : (set_parent b r f).parent c ≡ f.parent c = ground (arith, apart) in
        rw to (w.higher c k (ap (λ y. y == c) (sym to) ∙ n))
  ];
}

-- One call of the search, given what the recursive call answers.
find_above :
    (live : List ℕ) (f : Forest) (fuel b : ℕ)
    → IsForest live f
    → mem b live ≡ true
    → (b == f.parent b) ≡ false
    → FindsRoot live f (f.parent b) (find fuel (f.parent b) f)
    → FindsRoot live f b (find (suc fuel) b f)
unfolding find
find_above live f fuel b w h n r =
    let moved : (f.parent b == b) ≡ false = ground (arith, n) in
    let whole = above b r.root moved r.is_root in
    let far = Root-rank live f (f.parent b) r.root w (w.up b h) r.is_root in
    let near = w.higher b h moved in
    let other : (r.root == b) ≡ false = elim (Bool-cases (r.root == b)) [
      | inr e ↦ e
      | inl e ↦ let same = ap f.rank (==→eq r.root b e) in absurd (omega (arith, far, near, same))
    ] in
    record {
      root = r.root;
      after = set_parent b r.root r.after;
      returns = rw (n, find) (rw r.returns refl);
      is_root = whole;
      formed =
          set_parent-IsForest live r.after b r.root r.formed (Root-live live f b r.root w h whole)
            (ground (arith, far, near, r.ranks b, r.ranks r.root));
      ranks = r.ranks;
      keeps = λ x q k.
          compress-Root r.after b r.root other (r.keeps b r.root whole) x q (r.keeps x q k);
    }

-- Fuel above the ranks that are left is enough.
pub find-FindsRoot :
    (live : List ℕ) (f : Forest) (top fuel b : ℕ)
    → IsForest live f
    → ((x : ℕ) → mem x live ≡ true → f.rank x ≤ top)
    → mem b live ≡ true
    → top < f.rank b + fuel
    → FindsRoot live f b (find fuel b f)
unfolding find
find-FindsRoot live f top zero b w le h lt = let most = le b h in absurd (omega arith)
find-FindsRoot live f top (suc fuel) b w le h lt = elim (Bool-cases (b == f.parent b)) [
  | inl here ↦ record {
    root = b;
    after = f;
    returns = rw (here, find) refl;
    is_root = at_root b (ground (arith, here));
    formed = w;
    ranks = λ x. refl;
    keeps = λ x q k. k;
  }
  | inr n ↦
      let near = w.higher b h (ground (arith, n)) in
      find_above live f fuel b w h n
        (find-FindsRoot live f top fuel (f.parent b) w le (w.up b h) (omega arith))
]

pub rank_le : (live : List ℕ) (f : Forest) (x : ℕ) → mem x live ≡ true → f.rank x ≤ max_rank live f
unfolding mem max_rank
rank_le [] f x h = absurd (ground (arith, h))
rank_le (b ∷ bs) f x h = elim (Bool-cases (b == x)) [
  | inl same ↦ let eq = ap f.rank (==→eq b x same) in ground (arith, eq)
  | inr apart ↦ let le = rank_le bs f x (ground (arith, h, apart)) in ground (arith, le)
]

-- In a well-formed forest, `findDisjointBB` ends for every block, with the block's root; every block
-- keeps its root and its rank, and the forest stays well formed.
pub find_disjoint_bb-FindsRoot :
    (live : List ℕ) (f : Forest) (b : ℕ)
    → IsForest live f
    → mem b live ≡ true
    → FindsRoot live f b (find_disjoint_bb live b f)
unfolding find_disjoint_bb
find_disjoint_bb-FindsRoot live f b w h =
    find-FindsRoot live f (max_rank live f) (suc (max_rank live f)) b w (rank_le live f) h
      (omega arith)
