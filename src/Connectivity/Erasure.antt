-- ===== src/Connectivity/Erasure.antt =====
-- What `eraseNonSCC` leaves (Buffers/src/DFnetlist_Connectivity.cpp).
use fpt2022_artifact.Common.{ℕ, ◌≡◌, refl, sym, ap, ap₂, ◌∙◌, subst, arith}
use fpt2022_artifact.Common.{Bool, true, false, not, ◌&&◌, some, List, [], ◌∷◌}
use fpt2022_artifact.Common.Int.{ℤ, pos, negsuc, eqb_ℤ, is_neg}
use fpt2022_artifact.Common.Sets.{mem, IsOrdered}
use fpt2022_artifact.Netlist.Types.{Net, Block, block_zero, block, port, channel, bind-runs}
use fpt2022_artifact.Netlist.Invariant.{IsWellFormed, HasBlock, HasChannel}
use fpt2022_artifact.Slab.{at}
use fpt2022_artifact.Connectivity.Components.{
  scc_of, outside, crossing, erase_crossing, erase_non_scc,
}
use fpt2022_artifact.Connectivity.Chosen.{chosen, mem-chosen, chosen-IsOrdered}
use fpt2022_artifact.Connectivity.Pruning.{Prunes, from, to, each-Prunes}
use fpt2022_artifact.Connectivity.Components.{invalidate_basic_blocks}
use fpt2022_artifact.Connectivity.Forgetting.{Forgets, forgotten, each-Forgets}
use fpt2022_artifact.Connectivity.Cutting.{Cuts, crosses, crossing-reads, each-Cuts}

outside-chosen : (s : Net) (bs : List ℕ) → outside s bs ≡ chosen (λ b. is_neg (scc_of s b)) bs
unfolding outside
outside-chosen s [] = refl
outside-chosen s (b ∷ bs) = ground (arith, outside-chosen s bs)

is_neg_same : (a b : ℤ) → eqb_ℤ a b ≡ true → is_neg a ≡ is_neg b
is_neg_same (pos a) (pos b) h = refl
is_neg_same (pos a) (negsuc b) h = absurd (ground (arith, h))
is_neg_same (negsuc a) (pos b) h = absurd (ground (arith, h))
is_neg_same (negsuc a) (negsuc b) h = refl

-- The blocks in components and the channels within one are left, as they were but for the basic blocks.
pub record ErasesNonScc (s u : Net) : Type 0 where
  pub formed : IsWellFormed u
  pub blocks_left :
      (b : ℕ) → mem b u.blocks.live ≡ (not (is_neg (scc_of s b)) && mem b s.blocks.live)
  pub blocks_keep : (b : ℕ) → HasBlock u b → block u b ≡ forgotten (block s b)
  pub no_more : (d : ℕ) → HasChannel u d → HasChannel s d
  pub channels_left :
      (d : ℕ)
      → HasChannel s d
      → mem d u.channels.live
        ≡ (not (is_neg (scc_of s (from s d))) && eqb_ℤ (scc_of s (from s d)) (scc_of s (to s d)))
  pub channels_keep :
      (d : ℕ)
      → HasChannel u d
      → (channel u d ≡ channel s d) × (from u d ≡ from s d) × (to u d ≡ to s d)

left_by_tests :
    (now pruned crosses_t same from_out to_out : Bool)
    → now ≡ (not (crosses_t && pruned) && pruned)
    → pruned ≡ (not from_out && not to_out)
    → (pruned ≡ true → crosses_t ≡ not same)
    → (same ≡ true → from_out ≡ to_out)
    → now ≡ (not from_out && same)
left_by_tests now pruned crosses_t true from_out to_out a b c d = ground (arith, a, b, c, d refl)
left_by_tests now pruned crosses_t false from_out to_out a b c d = ground (arith, a, b, c)

module _ (s t u : Net) (w : IsWellFormed s) (p : Prunes s (outside s s.blocks.live) t)
    (k : Cuts t (chosen (crosses t) t.channels.live) u) where
  gone-mem :
      (b : ℕ) → mem b (outside s s.blocks.live) ≡ (is_neg (scc_of s b) && mem b s.blocks.live)
  gone-mem b =
      ap (mem b) (outside-chosen s s.blocks.live)
      ∙ mem-chosen (λ b. is_neg (scc_of s b)) b s.blocks.live

  back : (d : ℕ) → HasChannel u d → HasChannel t d
  back d h = let e = k.left d in ground (arith, e, h)

  -- A channel of the netlist that was pruned crosses as it did.
  same-crosses : (d : ℕ) → HasChannel s d → HasChannel t d → crosses t d ≡ crosses s d
  same-crosses d hs ht =
      let (f, g) = p.ends_keep d ht in
      let c = p.channels_left d hs in
      let kept_from : scc_of t (from s d) ≡ scc_of s (from s d) =
        ap (λ (x : Block). x.attrs.scc_number) (p.others_keep (from s d) (ground (arith, c, ht))) in
      let kept_to : scc_of t (to s d) ≡ scc_of s (to s d) =
        ap (λ (x : Block). x.attrs.scc_number) (p.others_keep (to s d) (ground (arith, c, ht))) in
      ap (λ x. not (eqb_ℤ (scc_of t x) (scc_of t (to t d)))) f
      ∙ (ap (λ x. not (eqb_ℤ (scc_of t (from s d)) (scc_of t x))) g
          ∙ ap (λ x. not (eqb_ℤ x (scc_of t (to s d)))) kept_from
          ∙ ap (λ x. not (eqb_ℤ (scc_of s (from s d)) x)) kept_to)

  left_with :
      (d : ℕ)
      → HasChannel s d
      → mem d u.channels.live
        ≡ (not (is_neg (scc_of s (from s d))) && eqb_ℤ (scc_of s (from s d)) (scc_of s (to s d)))
  left_with d h =
      let j = w.joins d h in
      let hf = (w.ownership.owned (channel s d).src j.src_exists).0 in
      let ht = (w.ownership.owned (channel s d).dst j.dst_exists).0 in
      let c = p.channels_left d h in
      let e =
        k.left d
        ∙ ap (λ m. not m && mem d t.channels.live) (mem-chosen (crosses t) d t.channels.live) in
      left_by_tests (mem d u.channels.live) (mem d t.channels.live) (crosses t d)
        (eqb_ℤ (scc_of s (from s d)) (scc_of s (to s d))) (is_neg (scc_of s (from s d)))
        (is_neg (scc_of s (to s d))) e
        (c
          ∙ ap₂ (λ a b. not a && not b) (gone-mem (from s d) ∙ ground (arith, hf))
              (gone-mem (to s d) ∙ ground (arith, ht)))
        (same-crosses d h) (is_neg_same (scc_of s (from s d)) (scc_of s (to s d)))

  cut-block : (b : ℕ) → HasBlock u b → block u b ≡ block s b
  cut-block b h =
      let e = ap (λ x. mem b x.live) k.blocks_keep in
      ap (λ x. at block_zero x b) k.blocks_keep
      ∙ p.others_keep b (ground (arith, p.blocks_left b, e, h))

module _ (s t u v : Net) (w : IsWellFormed s) (p : Prunes s (outside s s.blocks.live) t)
    (k : Cuts t (chosen (crosses t) t.channels.live) u) (f : Forgets u u.blocks.live v) where
  same-HasChannel : (d : ℕ) → HasChannel v d → HasChannel u d
  same-HasChannel d h = ap (λ (x : Net). mem d x.channels.live) (sym f.frame) ∙ h

  pub all-ErasesNonScc : ErasesNonScc s v
  all-ErasesNonScc = record {
    formed = f.formed;
    blocks_left = λ b.
        ap (mem b) f.live
        ∙ (ap (λ x. mem b x.live) k.blocks_keep
            ∙ (p.blocks_left b ∙ ground (arith, gone-mem s t u w p k b)));
    blocks_keep = λ b h.
        let here : HasBlock u b = ap (mem b) (sym f.live) ∙ h in
        f.blocks b ∙ rw here (ap forgotten (cut-block s t u w p k b here));
    no_more = λ d h. p.no_more d (back s t u w p k d (same-HasChannel d h));
    channels_left =
        λ d h. ap (λ (x : Net). mem d x.channels.live) f.frame ∙ left_with s t u w p k d h;
    channels_keep = λ d h.
        let hu = same-HasChannel d h in
        let ht = back s t u w p k d hu in
        let same = k.keep d hu in
        let (a, b) = p.ends_keep d ht in
        (
          ap (λ (x : Net). channel x d) f.frame ∙ (same ∙ p.channels_keep d ht),
          ap (λ (x : Net). from x d) f.frame
              ∙ (k.owners (channel u d).src ∙ (ap (λ x. (port t x.src).block) same ∙ a)),
          ap (λ (x : Net). to x d) f.frame
              ∙ (k.owners (channel u d).dst ∙ (ap (λ x. (port t x.dst).block) same ∙ b)),
        );
  }

-- On a well-formed netlist whose components are computed, `eraseNonSCC` returns, and keeps the netlist
-- well formed. It leaves exactly the blocks with a component and the channels between blocks of one
-- component; these channels and their ends are as before, and the blocks too, but for their basic
-- block, which is -1.
pub erase_non_scc-ErasesNonScc :
    (s : Net) → IsWellFormed s → (u : Net) × (erase_non_scc s ≡ some (tt, u)) × ErasesNonScc s u
unfolding erase_non_scc erase_crossing invalidate_basic_blocks
erase_non_scc-ErasesNonScc s w =
    let gone = outside s s.blocks.live in
    let is_out : ℕ → Bool = λ b. is_neg (scc_of s b) in
    let shape = outside-chosen s s.blocks.live in
    let ordered : IsOrdered gone =
      subst IsOrdered (sym shape) (chosen-IsOrdered is_out s.blocks.live w.blocks_sound.sorted) in
    let exist : (b : ℕ) → mem b gone ≡ true → HasBlock s b =
      λ b h. let e = ap (mem b) shape ∙ mem-chosen is_out b s.blocks.live in ground (arith, e, h) in
    let (t, e, p) = each-Prunes gone s w ordered exist in
    let cs = chosen (crosses t) t.channels.live in
    let (u, f, k) =
      each-Cuts cs t p.formed
        (chosen-IsOrdered (crosses t) t.channels.live p.formed.channels_sound.sorted)
        (λ c h. let m = mem-chosen (crosses t) c t.channels.live in ground (arith, m, h)) in
    let cuts : erase_crossing t ≡ some (tt, u) =
      bind-runs (crossing t.channels.live) _ t t cs
        (crossing-reads t p.formed t.channels.live (λ c h. h))
      ∙ f in
    let (v, g, forgets) = each-Forgets u.blocks.live u k.formed (λ b h. h) in
    (
      v,
      bind-runs _ _ s t tt e ∙ (bind-runs _ _ t u tt cuts ∙ g),
      all-ErasesNonScc s t u v w p k forgets,
    )
