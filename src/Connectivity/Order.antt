-- ===== src/Connectivity/Order.antt =====
-- `DFS` numbers the blocks (Buffers/src/DFnetlist_Connectivity.cpp).
use fpt2022_artifact.Common.{
  ℕ, zero, suc, ◌+◌, ◌≤◌, ◌<◌, ◌≡◌, refl, sym, ap, ◌∙◌, arith, Bool-cases, inl, inr, subst,
}
use fpt2022_artifact.Common.{
  Bool, true, false, not, ◌&&◌, Option, some, List, [], ◌∷◌, length, get_or,
}
use fpt2022_artifact.Common.{ltb}
use fpt2022_artifact.Common.Int.{pos, minus_one, eqb_ℤ}
use fpt2022_artifact.Common.Sets.{mem}
use fpt2022_artifact.Netlist.Types.{Net, bind-runs, look-then}
use fpt2022_artifact.Netlist.Invariant.{IsWellFormed, HasBlock}
use fpt2022_artifact.Connectivity.{Walk, dfs, zeros, fill_order}
use fpt2022_artifact.Connectivity.Children.{IsConnected}
use fpt2022_artifact.Connectivity.Renumber.{
  Renumbers, Renumbers-refl, number_of, same-HasBlock, back-HasBlock, same-mark,
}
use fpt2022_artifact.Connectivity.Rounds.{weigh, one, occ, index, Searches}
use fpt2022_artifact.Connectivity.Loops.{walk_from-Empties}
use fpt2022_artifact.Connectivity.Setup.{skips, skip_unmarked-runs, list_blocks-Lists}
use fpt2022_artifact.Connectivity.Fill.{
  get-index, index-absent, index-get_or, occ-get_or, fill_order-Fills,
}

-- The numbers and the order agree, on the blocks that the search does not skip and on no others.
pub record Orders (s : Net) (only : Bool) (t : Net) (order : List ℕ) : Type 0 where
  pub renumbers : Renumbers s t
  pub skipped : (b : ℕ) → HasBlock s b → skips only s b ≡ true → number_of t b ≡ minus_one
  pub placed :
      (b : ℕ)
      → HasBlock s b
      → skips only s b ≡ false
      → (i : ℕ) × (number_of t b ≡ pos i) × (i < length order) × (get_or order i 0 ≡ b)
  pub filled :
      (i : ℕ)
      → i < length order
      → HasBlock s (get_or order i 0)
        × (skips only s (get_or order i 0) ≡ false)
        × (number_of t (get_or order i 0) ≡ pos i)

length-zeros : (n : ℕ) → length (zeros n) ≡ n
length-zeros zero = refl
length-zeros (suc n) = ap suc (length-zeros n)

-- Nothing weighs when all is visited.
weigh-all :
    (v : ℕ → Bool) (bs : List ℕ) → ((b : ℕ) → mem b bs ≡ true → v b ≡ true) → weigh one v bs ≡ 0
unfolding mem
weigh-all v [] h = refl
weigh-all v (b ∷ bs) h = rw (h b (ground arith)) (weigh-all v bs (λ c k. h c (ground (arith, k))))

module _ (s : Net) (only : Bool) (skip : ℕ → Bool)
    (same : (b : ℕ) → HasBlock s b → skip b ≡ skips only s b) (u : Net) (x : Walk) (done : List ℕ)
    (i : Searches s skip u x done) (emptied : x.stack ≡ [])
    (all : (b : ℕ) → HasBlock s b → x.visited b ≡ true) where
  no_stack : (b : ℕ) → occ b x.stack ≡ 0
  no_stack b = ap (occ b) emptied

  none_waits : weigh one x.visited s.blocks.live + length x.stack ≡ 0
  none_waits = omega (arith, weigh-all x.visited s.blocks.live all, ap length emptied)

  clock_ends : eqb_ℤ x.clock (pos 0) ≡ true
  clock_ends = ap (λ n. eqb_ℤ n (pos 0)) (i.clock ∙ ap pos none_waits)

  all_done : length done ≡ weigh one skip s.blocks.live
  all_done = omega (arith, i.total, none_waits)

  final_numbers : (b : ℕ) → HasBlock s b → number_of u b ≡ index 0 done b
  final_numbers b h = i.numbers b h ∙ ap (λ n. index n done b) none_waits

  final_once : (b : ℕ) → occ b done ≤ 1
  final_once b = omega (arith, i.once b, no_stack b)

  -- A block has a number unless it is skipped.
  final_absent : (b : ℕ) → HasBlock s b → occ b done ≡ 0 → skips only s b ≡ true
  final_absent b h e =
      let v = i.visits b h in
      let y = all b h in let z = no_stack b in sym (same b h) ∙ ground (arith, v, y, z, e)

  final_present : (b : ℕ) → HasBlock s b → skips only s b ≡ true → occ b done ≡ 0
  final_present b h k = elim (Bool-cases (ltb 0 (occ b done))) [
    | inl some_place ↦
        let o = (i.own b (ground (arith, some_place))).1 in absurd (ground (arith, o, same b h, k))
    | inr no_place ↦ ground (arith, no_place)
  ]

  skips-same : (b : ℕ) → skips only u b ≡ skips only s b
  skips-same b = ap (λ m. only && not m) (same-mark s u i.renumbers b)

  fill_final :
      (t : Option (List ℕ × Net))
      → t ≡ fill_order only s.blocks.live (zeros (weigh one skip s.blocks.live)) u
      → (order : List ℕ) × (t ≡ some (order, u)) × Orders s only u order
  fill_final t e =
      let r = i.renumbers in
      let n = weigh one skip s.blocks.live in
      let long : length (zeros n) ≡ length done = length-zeros n ∙ sym all_done in
      let f =
        fill_order-Fills u r.formed only done (λ b h. final_numbers b (back-HasBlock s u r b h))
          (λ b h k. skips-same b ∙ final_absent b (back-HasBlock s u r b h) k) s.blocks.live
          (zeros n) (λ b h. same-HasBlock s u r b h) long in
      let width : length f.filled ≡ length done = f.long ∙ long in
      let entry : (k : ℕ)
          → k < length done
          → HasBlock s (get_or done k 0) × (index 0 done (get_or done k 0) ≡ pos k) =
        λ k lt. (
          (i.own (get_or done k 0) (omega (arith, occ-get_or done k lt))).0,
          index-get_or 0 done k final_once lt ∙ ap pos (omega arith),
        ) in
      let agrees : (k : ℕ) → k < length done → get_or f.filled k 0 ≡ get_or done k 0 =
        λ k lt. f.places (get_or done k 0) k (entry k lt).0 (entry k lt).1 in
      (
        f.filled,
        e ∙ f.runs,
        record {
          renumbers = r;
          skipped = λ b h k. final_numbers b h ∙ index-absent 0 done b (final_present b h k);
          placed = λ b h k.
              let present : 0 < occ b done = elim (Bool-cases (ltb 0 (occ b done))) [
                | inl lt ↦ ground (arith, lt)
                | inr none ↦
                    let out = final_absent b h (ground (arith, none)) in
                    absurd (ground (arith, out, k))
              ] in
              let (j, at, lt, g) = get-index 0 done b present in
              (
                j,
                final_numbers b h ∙ (at ∙ ap pos (omega arith)),
                omega (arith, width, lt),
                agrees j lt ∙ g,
              );
          filled = λ k lt.
              let inside : k < length done = omega (arith, width, lt) in
              let (h, at) = entry k inside in
              subst (λ b. HasBlock s b × (skips only s b ≡ false) × (number_of u b ≡ pos k))
                (sym (agrees k inside))
                (
                  h,
                  sym (same (get_or done k 0) h)
                      ∙ (i.own (get_or done k 0) (omega (arith, occ-get_or done k inside))).1,
                  final_numbers (get_or done k 0) h ∙ at,
                );
        },
      )

-- On a well-formed netlist whose ports all have a channel, `DFS` ends, in either direction and with or
-- without the marks, and its assertions hold. It gives each block that it does not skip a number of its
-- own, from 0 up to the length of `DFSorder`, where `DFSorder` holds the block; each entry of `DFSorder`
-- is such a block; a skipped block (one without a mark, when only marked ones count) has the number -1;
-- and nothing but these numbers changes.
pub dfs-Orders :
    (s : Net) (forward only : Bool)
    → IsWellFormed s
    → IsConnected s
    → (t : Net) × (order : List ℕ) × (dfs forward only s ≡ some (order, t)) × Orders s only t order
unfolding dfs mem
dfs-Orders s forward only w joined =
    let sorted = w.blocks_sound.sorted in
    let live = s.blocks.live in
    let (skip, e, f) = skip_unmarked-runs s w only live (λ b. false) (λ b h. h) in
    let same : (b : ℕ) → HasBlock s b → skip b ≡ skips only s b = λ b h. f b ∙ rw h refl in
    let l = list_blocks-Lists s w skip live [] 0 s (Renumbers-refl s w) (λ b h. h) in
    let n = weigh one skip live in
    let begin : Walk = record { visited = skip; stack = []; pending = []; clock = pos (0 + n) } in
    let start : Searches s skip l.net begin [] = record {
      renumbers = l.renumbers;
      layers = tt;
      visits = λ b h. ground arith;
      once = λ b. omega arith;
      own = λ b h. absurd (omega (arith, h));
      clock = ap pos (omega arith);
      numbers = λ b h. l.numbers b ∙ rw h refl;
      total = omega arith;
    } in
    let listed : (b : ℕ) → mem b l.starts ≡ true → HasBlock s b =
      λ b h. ground (arith, l.among b, h) in
    let (c, emptied, seen) =
      walk_from-Empties s joined sorted skip forward only l.starts l.net begin [] start refl
        listed in
    let all : (b : ℕ) → HasBlock s b → c.reached.visited b ≡ true = λ b h.
      elim (Bool-cases (skip b)) [
        | inl out ↦ c.grows b out
        | inr kept ↦ seen b (ground (arith, l.among b, h, kept))
      ] in
    let ends = clock_ends s only skip same c.net c.reached c.done c.state emptied all in
    let (order, ran, orders) =
      fill_final s only skip same c.net c.reached c.done c.state emptied all _ refl in
    let none_before : 0 + n ≡ n = omega arith in
    (
      c.net,
      order,
      bind-runs _ _ s s skip e
          ∙ (bind-runs _ _ s l.net (l.starts, 0 + n) l.runs
              ∙ (bind-runs _ _ l.net c.net c.reached c.runs
                  ∙ look-then _ _ c.net tt _ (rw ends refl)
                      (ap (λ m. fill_order only live (zeros m) c.net) none_before ∙ ran))),
      orders,
    )
