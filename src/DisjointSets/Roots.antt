-- ===== src/DisjointSets/Roots.antt =====
-- The roots of a forest of parents, and what path compression and linking do to them.
use fpt2022_artifact.Common.{ℕ, ◌≡◌, ◌<◌, ◌≤◌, refl, sym, subst, true, false, List, ◌==◌}
use fpt2022_artifact.Common.{Bool-cases, ==→eq, inl, inr, arith}
use fpt2022_artifact.Common.Sets.{mem}
use fpt2022_artifact.DisjointSets.{Forest, set_parent}

-- `r` is where the parents lead to from `b`.
pub data Root (parent : ℕ → ℕ) : ℕ → ℕ → Type 0 where
  at_root : (b : ℕ) → (parent b == b) ≡ true → Root parent b b
  above : (b r : ℕ) → (parent b == b) ≡ false → Root parent (parent b) r → Root parent b r

-- Parents exist, and ranks grow towards the root.
pub record IsForest (live : List ℕ) (f : Forest) : Type 0 where
  pub up : (b : ℕ) → mem b live ≡ true → mem (f.parent b) live ≡ true
  pub higher :
      (b : ℕ) → mem b live ≡ true → (f.parent b == b) ≡ false → f.rank b < f.rank (f.parent b)

pub Root-top : (parent : ℕ → ℕ) (b r : ℕ) → Root parent b r → (parent r == r) ≡ true
Root-top parent b _ (at_root _ e) = e
Root-top parent b r (above _ _ n k) = Root-top parent (parent b) r k

-- A block has one root only.
pub Root-unique : (parent : ℕ → ℕ) (b r q : ℕ) → Root parent b r → Root parent b q → r ≡ q
Root-unique parent b _ _ (at_root _ e) (at_root _ e') = refl
Root-unique parent b _ q (at_root _ e) (above _ _ n k) = absurd (ground (arith, e, n))
Root-unique parent b r _ (above _ _ n k) (at_root _ e) = absurd (ground (arith, e, n))
Root-unique parent b r q (above _ _ n k) (above _ _ n' k') = Root-unique parent (parent b) r q k k'

pub Root-live :
    (live : List ℕ) (f : Forest) (b r : ℕ)
    → IsForest live f
    → mem b live ≡ true
    → Root f.parent b r
    → mem r live ≡ true
Root-live live f b _ w h (at_root _ e) = h
Root-live live f b r w h (above _ _ n k) = Root-live live f (f.parent b) r w (w.up b h) k

pub Root-rank :
    (live : List ℕ) (f : Forest) (b r : ℕ)
    → IsForest live f
    → mem b live ≡ true
    → Root f.parent b r
    → f.rank b ≤ f.rank r
Root-rank live f b _ w h (at_root _ e) = omega arith
Root-rank live f b r w h (above _ _ n k) =
    let far = Root-rank live f (f.parent b) r w (w.up b h) k in
    let near = w.higher b h n in omega arith

-- Pointing a block that is not a root at its root keeps all roots.
pub compress-Root :
    (f : Forest) (b r : ℕ)
    → (r == b) ≡ false
    → Root f.parent b r
    → (x q : ℕ) → Root f.parent x q
    → Root (set_parent b r f).parent x q
compress-Root f b r other k x _ (at_root _ e) = elim (Bool-cases (b == x)) [
  | inl same ↦
      let top : Root f.parent b b =
        at_root b (subst (λ y. (f.parent y == y) ≡ true) (sym (==→eq b x same)) e) in
      let eq = Root-unique f.parent b r b k top in absurd (ground (arith, eq, other))
  | inr apart ↦ at_root x (ground (arith, apart, e))
]
compress-Root f b r other k x q (above _ _ n m) = elim (Bool-cases (b == x)) [
  | inl same ↦
      let eq = ==→eq b x same in
      let one = Root-unique f.parent x q r (above x q n m) (subst (λ y. Root f.parent y r) eq k) in
      let top : Root (set_parent b r f).parent r r =
        at_root r (ground (arith, Root-top f.parent b r k, other)) in
      let to : (set_parent b r f).parent x ≡ r = ground (arith, same) in
      subst (Root (set_parent b r f).parent x) (sym one) (
        above x r (ground (arith, to, eq, other))
          (subst (λ y. Root (set_parent b r f).parent y r) (sym to) top))
  | inr apart ↦
      let to : (set_parent b r f).parent x ≡ f.parent x = ground (arith, apart) in
      above x q (ground (arith, to, n)) (
        subst (λ y. Root (set_parent b r f).parent y q) (sym to)
          (compress-Root f b r other k (f.parent x) q m))
]

-- Putting the root `l` below the root `w` leaves the roots of the other trees.
pub link-Root_other :
    (f : Forest) (l w : ℕ)
    → (f.parent l == l) ≡ true
    → (x q : ℕ) → (l == q) ≡ false
    → Root f.parent x q
    → Root (set_parent l w f).parent x q
link-Root_other f l w top x _ apart (at_root _ e) = at_root x (ground (arith, apart, e))
link-Root_other f l w top x q apart (above _ _ n m) =
    let to : (set_parent l w f).parent x ≡ f.parent x = ground (arith, n, top) in
    above x q (ground (arith, to, n)) (
      subst (λ y. Root (set_parent l w f).parent y q) (sym to)
        (link-Root_other f l w top (f.parent x) q apart m))

-- And the tree of `l` gets the root `w`.
pub link-Root_below :
    (f : Forest) (l w : ℕ)
    → (l == w) ≡ false
    → (f.parent l == l) ≡ true
    → (f.parent w == w) ≡ true
    → (x : ℕ) → Root f.parent x l
    → Root (set_parent l w f).parent x w
link-Root_below f l w apart top top' x (at_root _ e) =
    let to : (set_parent l w f).parent x ≡ w = ground arith in
    above l w (ground (arith, to, apart)) (
      subst (λ y. Root (set_parent l w f).parent y w) (sym to)
        (at_root w (ground (arith, apart, top'))))
link-Root_below f l w apart top top' x (above _ _ n m) =
    let to : (set_parent l w f).parent x ≡ f.parent x = ground (arith, n, top) in
    above x w (ground (arith, to, n)) (
      subst (λ y. Root (set_parent l w f).parent y w) (sym to)
        (link-Root_below f l w apart top top' (f.parent x) m))
