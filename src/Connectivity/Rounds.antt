-- ===== src/Connectivity/Rounds.antt =====
-- The invariant of the loops of `DFS` (Buffers/src/DFnetlist_Connectivity.cpp).
use fpt2022_artifact.Common.{
  ℕ, suc, ◌+◌, subst, ◌≤◌, ◌<◌, ◌≡◌, refl, ap, ◌∙◌, arith, Bool-cases, ==→eq, inl, inr,
}
use fpt2022_artifact.Common.{Bool, true, false, ◌||◌, Option, none, some, List, [], ◌∷◌, length}
use fpt2022_artifact.Common.{◌==◌, ltb, if◌then◌else◌}
use fpt2022_artifact.Common.Int.{ℤ, pos, minus_one}
use fpt2022_artifact.Common.Sets.{mem, IsOrdered, not-mem-above}
use fpt2022_artifact.Netlist.Types.{Net, block}
use fpt2022_artifact.Netlist.Invariant.{HasBlock}
use fpt2022_artifact.Connectivity.{Walk, put_bit, ports_along}
use fpt2022_artifact.Connectivity.Renumber.{Renumbers, number_of}

-- The sum of a weight over the elements without a mark.
abbrev pub weigh : (ℕ → ℕ) → (ℕ → Bool) → List ℕ → ℕ
weigh g v [] = 0
weigh g v (b ∷ bs) = if v b then weigh g v bs else g b + weigh g v bs

weigh-absent :
    (g : ℕ → ℕ) (v : ℕ → Bool) (b : ℕ) (bs : List ℕ)
    → mem b bs ≡ false
    → weigh g (put_bit b true v) bs ≡ weigh g v bs
unfolding mem
weigh-absent g v b [] h = refl
weigh-absent g v b (c ∷ bs) h = ground (arith, h, weigh-absent g v b bs)

-- Marking an element takes its weight away.
pub weigh-present :
    (g : ℕ → ℕ) (v : ℕ → Bool) (b : ℕ) (bs : List ℕ)
    → IsOrdered bs
    → mem b bs ≡ true
    → v b ≡ false
    → weigh g v bs ≡ g b + weigh g (put_bit b true v) bs
unfolding mem
weigh-present g v b [] o h n = absurd (ground arith)
weigh-present g v b (c ∷ bs) o h n = elim (Bool-cases (c == b)) [
  | inl same ↦
      let eq = ==→eq c b same in
      let n_c : v c ≡ false = ap v eq ∙ n in
      let rest =
        weigh-absent g v b bs (subst (λ x. mem x bs ≡ false) eq (not-mem-above c bs o.0)) in
      let self : (b == c) ≡ true = ground (arith, same) in
      rw (n_c, self) (omega (arith, rest, ap g eq))
  | inr apart ↦
      let rest = weigh-present g v b bs o.1 (ground (arith, h, apart)) n in
      ground (arith, rest, apart)
]

-- How often an element stands in a list.
abbrev pub occ : ℕ → List ℕ → ℕ
occ b [] = 0
occ b (x ∷ xs) = if x == b then suc (occ b xs) else occ b xs

-- The place of an element, counted from a first number, or -1.
abbrev pub index : ℕ → List ℕ → ℕ → ℤ
index n [] b = minus_one
index n (d ∷ ds) b = if d == b then pos n else index (suc n) ds b

-- A separator on the pending list for each block on the stack, and children only above one.
abbrev pub IsLayered : Net → List (Option ℕ) → List ℕ → Type 0
IsLayered s [] [] = Unit
IsLayered s [] (v ∷ vs) = ⊥
IsLayered s (none ∷ ps) [] = ⊥
IsLayered s (none ∷ ps) (v ∷ vs) = IsLayered s ps vs
IsLayered s (some k ∷ ps) [] = ⊥
IsLayered s (some k ∷ ps) (v ∷ vs) = HasBlock s k × IsLayered s ps (v ∷ vs)

abbrev pub one : ℕ → ℕ
one b = 1

-- The state between two rounds, where `done` are the blocks that have a number, the last one first.
pub record Searches (s : Net) (skip : ℕ → Bool) (t : Net) (x : Walk) (done : List ℕ) : Type 0 where
  pub renumbers : Renumbers s t
  pub layers : IsLayered s x.pending x.stack
  pub visits : (b : ℕ) → HasBlock s b → x.visited b ≡ (skip b || ltb 0 (occ b x.stack + occ b done))
  pub once : (b : ℕ) → occ b x.stack + occ b done ≤ 1
  pub own : (b : ℕ) → 0 < occ b x.stack + occ b done → HasBlock s b × (skip b ≡ false)
  pub clock : x.clock ≡ pos (weigh one x.visited s.blocks.live + length x.stack)
  pub numbers :
      (b : ℕ)
      → HasBlock s b
      → number_of t b ≡ index (weigh one x.visited s.blocks.live + length x.stack) done b
  pub total :
      weigh one x.visited s.blocks.live + length x.stack + length done
      ≡ weigh one skip s.blocks.live

-- What bounds the rounds that are left: each takes one pending entry, or one block and its ports.
abbrev pub room : Bool → Net → ℕ → ℕ
room forward s b = suc (length (ports_along forward (block s b)))

abbrev pub rounds_left : Bool → Net → Walk → ℕ
rounds_left forward s x = length x.pending + weigh (room forward s) x.visited s.blocks.live
