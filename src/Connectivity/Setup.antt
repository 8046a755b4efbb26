-- ===== src/Connectivity/Setup.antt =====
-- The loops of `DFS` before the search: the blocks to skip, and the list of blocks to start from
-- (Buffers/src/DFnetlist_Connectivity.cpp).
use fpt2022_artifact.Common.{
  ℕ, suc, ◌+◌, ◌≡◌, refl, sym, ap, ◌∙◌, arith, Bool-cases, ==→eq, inl, inr,
}
use fpt2022_artifact.Common.{Bool, true, false, not, ◌&&◌, ◌||◌, Option, some, List, [], ◌∷◌, ◌++◌}
use fpt2022_artifact.Common.{◌==◌, if◌then◌else◌}
use fpt2022_artifact.Common.Int.{minus_one}
use fpt2022_artifact.Common.Sets.{mem}
use fpt2022_artifact.Netlist.Types.{Net, Block, block, bind-runs, look-then}
use fpt2022_artifact.Netlist.Invariant.{IsWellFormed, HasBlock}
use fpt2022_artifact.Netlist.Attributes.{get_block_type}
use fpt2022_artifact.Netlist.Blocks.{read_block}
use fpt2022_artifact.Checks.Decides.{read_block-reads}
use fpt2022_artifact.Connectivity.{skip_unmarked, list_blocks, is_skipped, put_bit, is_func_entry}
use fpt2022_artifact.Connectivity.Renumber.{
  Renumbers, number_of, set_dfs_order-Renumbers, same-HasBlock,
}
use fpt2022_artifact.Connectivity.Rounds.{weigh, one}

-- The blocks that the search leaves out.
abbrev pub skips : Bool → Net → ℕ → Bool
skips only s b = only && not (block s b).attrs.mark

pub is_skipped-reads :
    (s : Net)
    → IsWellFormed s
    → (only : Bool) (b : ℕ) → HasBlock s b
    → is_skipped only b s ≡ some (skips only s b)
unfolding is_skipped read_block
is_skipped-reads s w false b h = refl
is_skipped-reads s w true b h = rw (w.ownership.block_ids b ∙ h, is_skipped) refl

module _ (s : Net) (w : IsWellFormed s) where
  pub skip_unmarked-runs :
      (only : Bool) (bs : List ℕ) (v : ℕ → Bool)
      → ((b : ℕ) → mem b bs ≡ true → HasBlock s b)
      → (u : ℕ → Bool) × (skip_unmarked only bs v s ≡ some (u, s))
        × ((b : ℕ) → u b ≡ (if mem b bs then skips only s b else v b))
  unfolding skip_unmarked mem
  skip_unmarked-runs only [] v h = (v, refl, λ b. refl)
  skip_unmarked-runs only (b ∷ bs) v h =
      let next = put_bit b (skips only s b) v in
      let (u, e, f) = skip_unmarked-runs only bs next (λ c k. h c (ground (arith, k))) in
      (
        u,
        look-then _ _ s (skips only s b) _ (is_skipped-reads s w only b (h b (ground arith))) e,
        λ c. f c ∙ elim (Bool-cases (b == c)) [
          | inl same ↦ let eq = ap (skips only s) (==→eq b c same) in ground (arith, same, eq)
          | inr apart ↦ rw apart refl
        ],
      )

  mem-append : (b : ℕ) (xs ys : List ℕ) → mem b (xs ++ ys) ≡ (mem b xs || mem b ys)
  unfolding mem
  mem-append b [] ys = refl
  mem-append b (x ∷ xs) ys = ground (arith, mem-append b xs ys)

  mem-more :
      (first : Bool) (b c : ℕ) (roots : List ℕ)
      → mem c (if first then b ∷ roots else roots ++ b ∷ []) ≡ ((b == c) || mem c roots)
  unfolding mem
  mem-more true b c roots = ground arith
  mem-more false b c roots = ground (arith, mem-append c roots (b ∷ []))

  -- What the second loop answers.
  pub record Lists (v : ℕ → Bool) (bs roots : List ℕ) (clock : ℕ) (t : Net)
      (r : Option ((List ℕ × ℕ) × Net)) : Type 0 where
    pub net : Net
    pub starts : List ℕ
    pub runs : r ≡ some ((starts, clock + weigh one v bs), net)
    pub renumbers : Renumbers s net
    pub numbers : (b : ℕ) → number_of net b ≡ (if mem b bs then minus_one else number_of t b)
    pub among : (b : ℕ) → mem b starts ≡ ((mem b bs && not (v b)) || mem b roots)

  pub list_blocks-Lists :
      (v : ℕ → Bool) (bs roots : List ℕ) (clock : ℕ) (t : Net)
      → Renumbers s t
      → ((b : ℕ) → mem b bs ≡ true → HasBlock s b)
      → Lists v bs roots clock t (list_blocks v bs roots clock t)
  unfolding list_blocks mem
  list_blocks-Lists v [] roots clock t r h = record {
    net = t;
    starts = roots;
    runs = ap (λ n. some ((roots, n), t)) (omega arith);
    renumbers = r;
    numbers = λ b. refl;
    among = λ b. refl;
  }
  list_blocks-Lists v (b ∷ bs) roots clock t r h =
      let (u, e, ru, at) = set_dfs_order-Renumbers s t r b minus_one (h b (ground arith)) in
      let later : (c : ℕ) → mem c bs ≡ true → HasBlock s c = λ c k. h c (ground (arith, k)) in
      elim (Bool-cases (v b)) [
        | inl out ↦
            let l = list_blocks-Lists v bs roots clock u ru later in
            record {
              net = l.net;
              starts = l.starts;
              runs = bind-runs _ _ t u tt e ∙ rw out l.runs;
              renumbers = l.renumbers;
              numbers = λ c. ground (arith, l.numbers c, at c);
              among = λ c.
                  let gone : (b == c) ≡ true → v c ≡ true = λ k. ap v (sym (==→eq b c k)) ∙ out in
                  l.among c ∙ ground (arith, gone);
            }
        | inr listed ↦
            let type = (block u b).type in
            let more = if is_func_entry type then b ∷ roots else roots ++ b ∷ [] in
            let l = list_blocks-Lists v bs more (suc clock) u ru later in
            record {
              net = l.net;
              starts = l.starts;
              runs =
                  bind-runs _ _ t u tt e
                  ∙ rw listed (
                      look-then (get_block_type (some b)) _ u type _
                        (read_block-reads u ru.formed Block.type b
                          (same-HasBlock s u ru b (h b (ground arith))))
                        (l.runs ∙ ap (λ n. some ((l.starts, n), l.net)) (omega arith)));
              renumbers = l.renumbers;
              numbers = λ c. ground (arith, l.numbers c, at c);
              among = λ c.
                  let kept : (b == c) ≡ true → v c ≡ false =
                    λ k. ap v (sym (==→eq b c k)) ∙ listed in
                  l.among c ∙ ground (arith, kept, mem-more (is_func_entry type) b c roots);
            }
      ]
