-- ===== src/DisjointSets/Classes.antt =====
-- What `unionDisjointBB` does to the sets.
use fpt2022_artifact.Common.{
  ℕ, ◌≡◌, refl, sym, ap, subst, ◌∙◌, Bool, true, false, List, ◌==◌, Bool-cases,
}
use fpt2022_artifact.Common.{==→eq, inl, inr, arith, ◌⊎◌, Option, some, not}
use fpt2022_artifact.Common.Sets.{mem}
use fpt2022_artifact.DisjointSets.{Forest, link_roots, union_disjoint_bb}
use fpt2022_artifact.DisjointSets.Roots.{Root, IsForest, Root-top, Root-live, Root-unique}
use fpt2022_artifact.DisjointSets.Find.{find_disjoint_bb-FindsRoot}
use fpt2022_artifact.DisjointSets.Union.{Same, Joined, Links, moved, link_roots-Links}

-- What a union answers: whether the two sets were different, and a forest in which the sets of `b1`
-- and `b2` are one and no other two blocks have come together.
pub record Unites (live : List ℕ) (f : Forest) (b1 b2 : ℕ) (res : Option (Bool × Forest))
    : Type 0 where
  pub joined : Bool
  pub after : Forest
  pub returns : res ≡ some (joined, after)
  pub formed : IsForest live after
  pub told_same : joined ≡ false → Same f b1 b2
  pub told_apart : Same f b1 b2 → joined ≡ false
  pub joins :
      (x y : ℕ) → mem x live ≡ true → mem y live ≡ true → Joined f b1 b2 x y → Same after x y
  pub joins_only :
      (x y : ℕ) → mem x live ≡ true → mem y live ≡ true → Same after x y → Joined f b1 b2 x y

module _ (live : List ℕ) (f after : Forest) (b1 b2 r1 r2 : ℕ) (w : IsForest live f)
    (k1 : Root f.parent b1 r1) (k2 : Root f.parent b2 r2) (links : Links live f r1 r2 after) where
  abbrev to : ℕ → ℕ
  to = moved links.loser links.winner

  joins_lem : (x y : ℕ) → Joined f b1 b2 x y → Same after x y
  joins_lem x y (inl k) = record {
    root = to k.root;
    left = links.roots x k.root k.left;
    right = links.roots y k.root k.right;
  }
  joins_lem x y (inr (inl (kx, ky))) =
      let ex = Root-unique f.parent b1 _ _ kx.right k1 in
      let ey = Root-unique f.parent b2 _ _ ky.right k2 in
      let same : to ky.root ≡ to kx.root = ground (arith, ex, ey, links.pair) in
      record {
        root = to kx.root;
        left = links.roots x kx.root kx.left;
        right = subst (Root after.parent y) same (links.roots y ky.root ky.left);
      }
  joins_lem x y (inr (inr (kx, ky))) =
      let ex = Root-unique f.parent b2 _ _ kx.right k2 in
      let ey = Root-unique f.parent b1 _ _ ky.right k1 in
      let same : to ky.root ≡ to kx.root = ground (arith, ex, ey, links.pair) in
      record {
        root = to kx.root;
        left = links.roots x kx.root kx.left;
        right = subst (Root after.parent y) same (links.roots y ky.root ky.left);
      }

  at-Same : (x p q b : ℕ) → Root f.parent x p → Root f.parent b q → p ≡ q → Same f x b
  at-Same x p q b kx kb e = record {
    root = p;
    left = kx;
    right = subst (Root f.parent b) (sym e) kb;
  }

  -- Two roots that have come together were equal, or are the two that were linked.
  met : (p q : ℕ) → to p ≡ to q → (p ≡ q) ⊎ (((p ≡ r1) × (q ≡ r2)) ⊎ ((p ≡ r2) × (q ≡ r1)))
  met p q e = ground (arith, e, links.pair)

  joins_only_lem :
      (x y p q : ℕ) → Root f.parent x p → Root f.parent y q → Same after x y → Joined f b1 b2 x y
  joins_only_lem x y p q kx ky k =
      let ex = Root-unique after.parent x _ _ (links.roots x p kx) k.left in
      let ey = Root-unique after.parent y _ _ (links.roots y q ky) k.right in
      elim (met p q (ex ∙ sym ey)) [
        | inl e ↦ inl (at-Same x p q y kx ky e)
        | inr (inl (e1, e2)) ↦ inr (inl (at-Same x p r1 b1 kx k1 e1, at-Same y q r2 b2 ky k2 e2))
        | inr (inr (e1, e2)) ↦ inr (inr (at-Same x p r2 b2 kx k2 e1, at-Same y q r1 b1 ky k1 e2))
      ]

-- A union of blocks of one set changes no set.
stays-Links :
    (live : List ℕ) (f h : Forest) (r1 r2 : ℕ)
    → IsForest live h
    → ((x q : ℕ) → Root f.parent x q → Root h.parent x q)
    → (r1 == r2) ≡ true
    → Links live f r1 r2 h
stays-Links live f h r1 r2 w keeps same = record {
  loser = r1;
  winner = r2;
  pair = inl (refl, refl);
  formed = w;
  roots = λ x q k. subst (Root h.parent x) (ground (arith, ==→eq r1 r2 same)) (keeps x q k);
}

-- What the two searches keep, the whole union keeps.
later-Links :
    (live : List ℕ) (f h after : Forest) (r1 r2 : ℕ)
    → ((x q : ℕ) → Root f.parent x q → Root h.parent x q)
    → Links live h r1 r2 after
    → Links live f r1 r2 after
later-Links live f h after r1 r2 keeps l = record {
  loser = l.loser;
  winner = l.winner;
  pair = l.pair;
  formed = l.formed;
  roots = λ x q k. l.roots x q (keeps x q k);
}

Links-Unites :
    (live : List ℕ) (f after : Forest) (b1 b2 r1 r2 : ℕ)
    → IsForest live f
    → Root f.parent b1 r1
    → Root f.parent b2 r2
    → Links live f r1 r2 after
    → Unites live f b1 b2 (some (not (r1 == r2), after))
Links-Unites live f after b1 b2 r1 r2 w k1 k2 l = record {
  joined = not (r1 == r2);
  after = after;
  returns = refl;
  formed = l.formed;
  told_same = λ e. at-Same live f after b1 b2 r1 r2 w k1 k2 l b1 r1 r2 b2 k1 k2 (ground (arith, e));
  told_apart = λ k.
      let e1 = Root-unique f.parent b1 _ _ k.left k1 in
      let e2 = Root-unique f.parent b2 _ _ k.right k2 in ground (arith, e1, e2);
  joins = λ x y hx hy k. joins_lem live f after b1 b2 r1 r2 w k1 k2 l x y k;
  joins_only = λ x y hx hy k.
      let rx = find_disjoint_bb-FindsRoot live f x w hx in
      let ry = find_disjoint_bb-FindsRoot live f y w hy in
      joins_only_lem live f after b1 b2 r1 r2 w k1 k2 l x y rx.root ry.root rx.is_root ry.is_root k;
}

-- In a well-formed forest, `unionDisjointBB` ends for any two blocks; it answers true exactly when
-- they were in different sets, two blocks are in one set afterwards exactly when they were in one
-- set or in the sets of the two arguments, and the forest stays well formed.
pub union_disjoint_bb-Unites :
    (live : List ℕ) (f : Forest) (b1 b2 : ℕ)
    → IsForest live f
    → mem b1 live ≡ true
    → mem b2 live ≡ true
    → Unites live f b1 b2 (union_disjoint_bb live b1 b2 f)
unfolding union_disjoint_bb
union_disjoint_bb-Unites live f b1 b2 w h1 h2 =
    let a = find_disjoint_bb-FindsRoot live f b1 w h1 in
    let c = find_disjoint_bb-FindsRoot live a.after b2 a.formed h2 in
    let b = find_disjoint_bb-FindsRoot live f b2 w h2 in
    let keeps : (x q : ℕ) → Root f.parent x q → Root c.after.parent x q =
      λ x q k. c.keeps x q (a.keeps x q k) in
    let root2 : b.root ≡ c.root =
      Root-unique a.after.parent b2 _ _ (a.keeps b2 b.root b.is_root) c.is_root in
    let k2 = subst (Root f.parent b2) root2 b.is_root in
    elim (Bool-cases (a.root == c.root)) [
      | inl same ↦
          subst (Unites live f b1 b2)
            (ap (λ j. some (not j, c.after)) same
              ∙ sym (rw (a.returns, union_disjoint_bb) (rw c.returns (rw same refl))))
            (Links-Unites live f c.after b1 b2 a.root c.root w a.is_root k2
              (stays-Links live f c.after a.root c.root c.formed keeps same))
      | inr apart ↦
          subst (Unites live f b1 b2)
            (ap (λ j. some (not j, link_roots a.root c.root c.after)) apart
              ∙ sym (rw (a.returns, union_disjoint_bb) (rw c.returns (rw apart refl))))
            (Links-Unites live f (link_roots a.root c.root c.after) b1 b2 a.root c.root w a.is_root
              k2
              (later-Links live f c.after (link_roots a.root c.root c.after) a.root c.root keeps (
                link_roots-Links live c.after a.root c.root c.formed
                  (Root-live live f b1 a.root w h1 a.is_root) (Root-live live f b2 c.root w h2 k2)
                  apart (Root-top c.after.parent b1 a.root (keeps b1 a.root a.is_root))
                  (Root-top c.after.parent b2 c.root (keeps b2 c.root k2)))))
    ]
