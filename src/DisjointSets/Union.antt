-- ===== src/DisjointSets/Union.antt =====
-- `unionDisjointBB` joins the sets of two blocks, and no others.
use fpt2022_artifact.Common.{ℕ, suc, ◌≡◌, refl, sym, ap, subst, true, false, List}
use fpt2022_artifact.Common.{◌==◌, ltb, if◌then◌else◌, Bool-cases, ==→eq, inl, inr, arith, ◌⊎◌}
use fpt2022_artifact.Common.Sets.{mem}
use fpt2022_artifact.DisjointSets.{Forest, set_parent, set_rank, link_roots}
use fpt2022_artifact.DisjointSets.Roots.{Root, IsForest, link-Root_other, link-Root_below}
use fpt2022_artifact.DisjointSets.Find.{set_parent-IsForest}

-- Two blocks are in one set.
pub record Same (f : Forest) (x y : ℕ) : Type 0 where
  pub root : ℕ
  pub left : Root f.parent x root
  pub right : Root f.parent y root

-- The set of `x` and `y` when the sets of `b1` and `b2` are joined.
abbrev pub Joined : Forest → ℕ → ℕ → ℕ → ℕ → Type 0
Joined f b1 b2 x y = Same f x y ⊎ ((Same f x b1 × Same f y b2) ⊎ (Same f x b2 × Same f y b1))

abbrev pub moved : ℕ → ℕ → ℕ → ℕ
moved loser winner q = if loser == q then winner else q

-- A forest in which one of two roots, the loser, has gone below the other one.
pub record Links (live : List ℕ) (f : Forest) (r1 r2 : ℕ) (after : Forest) : Type 0 where
  pub loser : ℕ
  pub winner : ℕ
  pub pair : ((loser ≡ r1) × (winner ≡ r2)) ⊎ ((loser ≡ r2) × (winner ≡ r1))
  pub formed : IsForest live after
  pub roots : (x q : ℕ) → Root f.parent x q → Root after.parent x (moved loser winner q)

link-roots :
    (f : Forest) (l w : ℕ)
    → (l == w) ≡ false
    → (f.parent l == l) ≡ true
    → (f.parent w == w) ≡ true
    → (x q : ℕ) → Root f.parent x q
    → Root (set_parent l w f).parent x (moved l w q)
link-roots f l w apart top top' x q k = elim (Bool-cases (l == q)) [
  | inl same ↦
      rw same
        (link-Root_below f l w apart top top' x (subst (Root f.parent x) (sym (==→eq l q same)) k))
  | inr other ↦ rw other (link-Root_other f l w top x q other k)
]

-- Raising the rank of a root keeps the forest well formed.
set_rank-IsForest :
    (live : List ℕ) (f : Forest) (b : ℕ)
    → IsForest live f
    → (f.parent b == b) ≡ true
    → IsForest live (set_rank b (suc (f.rank b)) f)
set_rank-IsForest live f b w top = record {
  up = w.up;
  higher = λ c k n. elim (Bool-cases (b == c)) [
    | inl same ↦
        absurd (ground (arith, n, subst (λ y. (f.parent y == y) ≡ true) (==→eq b c same) top))
    | inr apart ↦ elim (Bool-cases (b == f.parent c)) [
      | inl at ↦
          let eq = ap f.rank (==→eq b (f.parent c) at) in
          let lt = w.higher c k n in rw (apart, at) (omega (arith, eq, lt))
      | inr off ↦ rw (apart, off) (w.higher c k n)
    ]
  ];
}

-- Linking two roots of equal rank raises the winner first, as far as the invariant is concerned.
level-IsForest :
    (live : List ℕ) (f : Forest) (l w : ℕ)
    → IsForest live f
    → mem w live ≡ true
    → (l == w) ≡ false
    → (f.parent w == w) ≡ true
    → f.rank l ≡ f.rank w
    → IsForest live (set_rank w (suc (f.rank w)) (set_parent l w f))
level-IsForest live f l w k h apart top eq =
    set_parent-IsForest live (set_rank w (suc (f.rank w)) f) l w (set_rank-IsForest live f w k top)
      h (ground (arith, apart, eq))

pub link_roots-Links :
    (live : List ℕ) (f : Forest) (r1 r2 : ℕ)
    → IsForest live f
    → mem r1 live ≡ true
    → mem r2 live ≡ true
    → (r1 == r2) ≡ false
    → (f.parent r1 == r1) ≡ true
    → (f.parent r2 == r2) ≡ true
    → Links live f r1 r2 (link_roots r1 r2 f)
unfolding link_roots
link_roots-Links live f r1 r2 w h1 h2 apart top1 top2 =
    elim (Bool-cases (ltb (f.rank r2) (f.rank r1))) [
      | inl lower ↦
          rw (lower, link_roots)
            (record {
              loser = r2;
              winner = r1;
              pair = inr (refl, refl);
              formed = set_parent-IsForest live f r2 r1 w h1 (ground (arith, lower));
              roots = link-roots f r2 r1 (ground (arith, apart)) top2 top1;
            })
      | inr high ↦ elim (Bool-cases (f.rank r1 == f.rank r2)) [
        | inl level ↦
            rw (high, link_roots)
              (rw level (record {
                loser = r1;
                winner = r2;
                pair = inl (refl, refl);
                formed = level-IsForest live f r1 r2 w h2 apart top2 (==→eq _ _ level);
                roots = link-roots f r1 r2 apart top1 top2;
              }))
        | inr below ↦
            rw (high, link_roots)
              (rw below (record {
                loser = r1;
                winner = r2;
                pair = inl (refl, refl);
                formed = set_parent-IsForest live f r1 r2 w h2 (ground (arith, high, below));
                roots = link-roots f r1 r2 apart top1 top2;
              }))
      ]
    ]
