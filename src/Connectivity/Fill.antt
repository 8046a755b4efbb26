-- ===== src/Connectivity/Fill.antt =====
-- The last loop of `DFS`, which turns the numbers of the blocks into `DFSorder`
-- (Buffers/src/DFnetlist_Connectivity.cpp).
use fpt2022_artifact.Common.{
  ℕ, zero, suc, ◌+◌, ◌≤◌, ◌<◌, ◌≡◌, refl, sym, ap, ◌∙◌, arith, Bool-cases, ==→eq, inl, inr, subst,
}
use fpt2022_artifact.Common.{
  Bool, true, false, Option, some, List, [], ◌∷◌, length, get_or, modify, length-modify,
  get_or-modify,
}
use fpt2022_artifact.Common.{◌==◌, ltb}
use fpt2022_artifact.Common.Int.{pos, minus_one}
use fpt2022_artifact.Common.Sets.{mem}
use fpt2022_artifact.Netlist.Types.{Net, look-then}
use fpt2022_artifact.Netlist.Invariant.{IsWellFormed, HasBlock}
use fpt2022_artifact.Netlist.Attributes.{get_dfs_order}
use fpt2022_artifact.Checks.Decides.{read_block-reads}
use fpt2022_artifact.Connectivity.{fill_order, place, is_skipped}
use fpt2022_artifact.Connectivity.Renumber.{number_of}
use fpt2022_artifact.Connectivity.Rounds.{occ, index}
use fpt2022_artifact.Connectivity.Setup.{skips, is_skipped-reads}

-- The element at its place.
pub get-index :
    (n : ℕ) (ds : List ℕ) (b : ℕ)
    → 0 < occ b ds
    → (k : ℕ) × (index n ds b ≡ pos (n + k)) × (k < length ds) × (get_or ds k 0 ≡ b)
unfolding get_or
get-index n [] b h = absurd (omega (arith, h))
get-index n (d ∷ ds) b h = elim (Bool-cases (d == b)) [
  | inl same ↦ (0, rw same (ap pos (omega arith)), omega arith, ==→eq d b same)
  | inr apart ↦
      let (k, e, lt, g) = get-index (suc n) ds b (ground (arith, h, apart)) in
      (suc k, rw apart (e ∙ ap pos (omega arith)), omega (arith, lt), g)
]

pub index-absent : (n : ℕ) (ds : List ℕ) (b : ℕ) → occ b ds ≡ 0 → index n ds b ≡ minus_one
index-absent n [] b h = refl
index-absent n (d ∷ ds) b h = ground (arith, h, index-absent (suc n) ds b)

pub occ-get_or : (ds : List ℕ) (i : ℕ) → i < length ds → 0 < occ (get_or ds i 0) ds
unfolding get_or
occ-get_or [] i h = absurd (omega (arith, h))
occ-get_or (d ∷ ds) zero h = ground arith
occ-get_or (d ∷ ds) (suc i) h = ground (arith, occ-get_or ds i (omega (arith, h)))

-- The place of the element at a place, when none occurs twice.
pub index-get_or :
    (n : ℕ) (ds : List ℕ) (i : ℕ)
    → ((b : ℕ) → occ b ds ≤ 1)
    → i < length ds
    → index n ds (get_or ds i 0) ≡ pos (n + i)
unfolding get_or
index-get_or n [] i once h = absurd (omega (arith, h))
index-get_or n (d ∷ ds) zero once h =
    let self : (d == d) ≡ true = ground arith in rw self (ap pos (omega arith))
index-get_or n (d ∷ ds) (suc i) once h =
    let later = occ-get_or ds i (omega (arith, h)) in
    let apart : (d == get_or ds i 0) ≡ false = elim (Bool-cases (d == get_or ds i 0)) [
      | inr e ↦ e
      | inl e ↦ let o = once (get_or ds i 0) in absurd (ground (arith, o, e, later))
    ] in
    let fewer : (b : ℕ) → occ b ds ≤ 1 = λ b. let o = once b in ground (arith, o) in
    rw apart (index-get_or (suc n) ds i fewer (omega (arith, h)) ∙ ap pos (omega arith))

-- What the loop answers: the places of the blocks that it went over hold these blocks.
pub record Fills (u : Net) (done order bs : List ℕ) (r : Option (List ℕ × Net)) : Type 0 where
  pub filled : List ℕ
  pub runs : r ≡ some (filled, u)
  pub long : length filled ≡ length order
  pub keeps : (k : ℕ) → get_or order k 0 ≡ get_or done k 0 → get_or filled k 0 ≡ get_or done k 0
  pub places :
      (b k : ℕ) → mem b bs ≡ true → index 0 done b ≡ pos k → get_or filled k 0 ≡ get_or done k 0

pos-inj : (a b : ℕ) → pos a ≡ pos b → a ≡ b
pos-inj a b e = cc

module _ (u : Net) (w : IsWellFormed u) (only : Bool) (done : List ℕ)
    (numbers : (b : ℕ) → HasBlock u b → number_of u b ≡ index 0 done b)
    (left_out : (b : ℕ) → HasBlock u b → occ b done ≡ 0 → skips only u b ≡ true) where
  -- One block that has a number is put to its place.
  place-runs :
      (b : ℕ) (order : List ℕ)
      → HasBlock u b
      → length order ≡ length done
      → (next : List ℕ) × (place b (skips only u b) (number_of u b) order ≡ some next)
        × (length next ≡ length order)
        × ((k : ℕ) → get_or order k 0 ≡ get_or done k 0 → get_or next k 0 ≡ get_or done k 0)
        × ((k : ℕ) → index 0 done b ≡ pos k → get_or next k 0 ≡ get_or done k 0)
  unfolding place
  place-runs b order h same = go (occ b done) refl
    where
      go :
          (n : ℕ)
          → occ b done ≡ n
          → (next : List ℕ) × (place b (skips only u b) (number_of u b) order ≡ some next)
            × (length next ≡ length order)
            × ((k : ℕ) → get_or order k 0 ≡ get_or done k 0 → get_or next k 0 ≡ get_or done k 0)
            × ((k : ℕ) → index 0 done b ≡ pos k → get_or next k 0 ≡ get_or done k 0)
      go zero e =
          let none = index-absent 0 done b e in
          let number = numbers b h ∙ none in
          (
            order,
            rw (number, left_out b h e) refl,
            refl,
            λ k g. g,
            λ k g. absurd (let bad : minus_one ≡ pos k = sym none ∙ g in cc),
          )
      go (suc n) e =
          let (k, at, lt, g) = get-index 0 done b (omega (arith, e)) in
          let place_k : index 0 done b ≡ pos k = at ∙ ap pos (omega arith) in
          let inside : ltb k (length order) ≡ true = ground (arith, lt, same) in
          let next = modify order k (λ old. b) in
          let here : get_or next k 0 ≡ get_or done k 0 =
            get_or-modify order k k (λ old. b) 0 ∙ ground (arith, inside, g) in
          (
            next,
            rw (numbers b h ∙ place_k, inside) refl,
            length-modify order k (λ old. b),
            λ j f. elim (Bool-cases (k == j)) [
              | inl eq ↦ subst (λ m. get_or next m 0 ≡ get_or done m 0) (==→eq k j eq) here
              | inr apart ↦ get_or-modify order k j (λ old. b) 0 ∙ rw apart f
            ],
            λ j f.
                let eq = pos-inj k j (sym place_k ∙ f) in
                subst (λ m. get_or next m 0 ≡ get_or done m 0) eq here,
          )

  pub fill_order-Fills :
      (bs order : List ℕ)
      → ((b : ℕ) → mem b bs ≡ true → HasBlock u b)
      → length order ≡ length done
      → Fills u done order bs (fill_order only bs order u)
  unfolding fill_order mem
  fill_order-Fills [] order h same = record {
    filled = order;
    runs = refl;
    long = refl;
    keeps = λ k g. g;
    places = λ b k m. absurd (ground (arith, m));
  }
  fill_order-Fills (b ∷ bs) order h same =
      let hb = h b (ground arith) in
      let (next, e, long, keeps, here) = place-runs b order hb same in
      let f = fill_order-Fills bs next (λ c k. h c (ground (arith, k))) (long ∙ same) in
      record {
        filled = f.filled;
        runs =
            look-then (get_dfs_order (some b)) _ u (number_of u b) _
              (read_block-reads u w (λ x. x.attrs.dfs_order) b hb)
              (look-then (is_skipped only b) _ u (skips only u b) _ (is_skipped-reads u w only b hb)
                (look-then _ _ u next _ e f.runs));
        long = f.long ∙ long;
        keeps = λ k g. f.keeps k (keeps k g);
        places = λ c k m g. elim (Bool-cases (b == c)) [
          | inl eq ↦ f.keeps k (here k (subst (λ x. index 0 done x ≡ pos k) (sym (==→eq b c eq)) g))
          | inr apart ↦ f.places c k (ground (arith, m, apart)) g
        ];
      }
