-- ===== src/Connectivity/Pruning.antt =====
-- The first loop of `eraseNonSCC`, which removes blocks (Buffers/src/DFnetlist_Connectivity.cpp).
use fpt2022_artifact.Common.{ℕ, ◌≡◌, ◌⊎◌, refl, sym, ap, ◌∙◌, subst, arith, inl, inr}
use fpt2022_artifact.Common.{true, false, not, ◌&&◌, some, List, [], ◌∷◌}
use fpt2022_artifact.Common.{◌==◌, if◌then◌else◌, Bool-cases, ==→eq}
use fpt2022_artifact.Common.Sets.{mem, IsOrdered, not-mem-above}
use fpt2022_artifact.Netlist.Types.{Net, block, port, channel, bind-runs}
use fpt2022_artifact.Netlist.Blocks.{remove_block}
use fpt2022_artifact.Netlist.Invariant.{IsWellFormed, HasBlock, HasPort, HasChannel}
use fpt2022_artifact.Netlist.Invariant.Unblock.{Removes, remove_block-Removes}
use fpt2022_artifact.Checks.Driver.{each}

-- The blocks at the two ends of a channel.
abbrev pub from : Net → ℕ → ℕ
from s d = (port s (channel s d).src).block

abbrev pub to : Net → ℕ → ℕ
to s d = (port s (channel s d).dst).block

-- What is left without some blocks.
pub record Prunes (s : Net) (gone : List ℕ) (t : Net) : Type 0 where
  pub formed : IsWellFormed t
  pub blocks_left : (b : ℕ) → mem b t.blocks.live ≡ (not (mem b gone) && mem b s.blocks.live)
  pub others_keep : (b : ℕ) → mem b gone ≡ false → block t b ≡ block s b
  pub channels_left :
      (d : ℕ)
      → HasChannel s d
      → mem d t.channels.live ≡ (not (mem (from s d) gone) && not (mem (to s d) gone))
  pub no_more : (d : ℕ) → HasChannel t d → HasChannel s d
  pub channels_keep : (d : ℕ) → HasChannel t d → channel t d ≡ channel s d
  pub ends_keep : (d : ℕ) → HasChannel t d → (from t d ≡ from s d) × (to t d ≡ to s d)

-- A port of the netlist belongs to a block exactly when it is in the block's set.
owner-mem :
    (s : Net)
    → IsWellFormed s
    → (b q : ℕ) → HasBlock s b
    → HasPort s q
    → mem q (block s b).all_ports ≡ (b == (port s q).block)
owner-mem s w b q hb hq = elim (Bool-cases (b == (port s q).block)) [
  | inl same ↦
      let own = (w.ownership.owned q hq).1 in
      subst (λ x. mem q (block s x).all_ports ≡ true) (sym (==→eq b (port s q).block same)) own
      ∙ sym same
  | inr apart ↦ elim (Bool-cases (mem q (block s b).all_ports)) [
    | inr out ↦ out ∙ sym apart
    | inl has ↦ let own = (w.ownership.owns b hb).owner q has in absurd (ground (arith, own, apart))
  ]
]

module _ (s : Net) (w : IsWellFormed s) (b : ℕ) (hb : HasBlock s b)
    (r : Removes s b (remove_block (some b) s)) where
  removed-channels :
      (d : ℕ)
      → HasChannel s d
      → mem d r.after.channels.live ≡ (not (b == from s d) && not (b == to s d))
  removed-channels d h =
      let j = w.joins d h in
      r.channels_left d
      ∙ ground (
        arith,
        h,
        owner-mem s w b (channel s d).src hb j.src_exists,
        owner-mem s w b (channel s d).dst hb j.dst_exists,
      )

  removed-ends :
      (d : ℕ) → HasChannel r.after d → (from r.after d ≡ from s d) × (to r.after d ≡ to s d)
  removed-ends d h =
      let same = r.channels_keep d h in
      let j = r.formed.joins d h in
      let k = r.ports_keep in
      (
        ap (λ x. x.block) (k (channel r.after d).src j.src_exists)
            ∙ ap (λ x. (port s x.src).block) same,
        ap (λ x. x.block) (k (channel r.after d).dst j.dst_exists)
            ∙ ap (λ x. (port s x.dst).block) same,
      )

  -- One block more.
  more-Prunes : (gone : List ℕ) (t : Net) → Prunes r.after gone t → Prunes s (b ∷ gone) t
  unfolding mem
  more-Prunes gone t p = record {
    formed = p.formed;
    blocks_left = λ c. ground (arith, p.blocks_left c, r.blocks_left c);
    others_keep = λ c k. p.others_keep c (ground (arith, k)) ∙ r.others_keep c (ground (arith, k));
    channels_left = λ d h. still d h (Bool-cases (mem d r.after.channels.live));
    no_more = λ d k. before d (p.no_more d k);
    channels_keep = λ d k. p.channels_keep d k ∙ r.channels_keep d (p.no_more d k);
    ends_keep = λ d k.
        let (f, g) = removed-ends d (p.no_more d k) in
        ((p.ends_keep d k).0 ∙ f, (p.ends_keep d k).1 ∙ g);
  }
    where
      before : (d : ℕ) → HasChannel r.after d → HasChannel s d
      before d k = let e = r.channels_left d in ground (arith, k, e)

      still :
          (d : ℕ)
          → HasChannel s d
          → (mem d r.after.channels.live ≡ true) ⊎ (mem d r.after.channels.live ≡ false)
          → mem d t.channels.live ≡ (
              not (if b == from s d then true else mem (from s d) gone)
              && not (if b == to s d then true else mem (to s d) gone))
      still d h (inl here) =
          let e = removed-channels d h in
          let (f, g) = removed-ends d here in
          p.channels_left d here ∙ rw (f, g) (ground (arith, e, here))
      still d h (inr gone_now) =
          let e = removed-channels d h in let n = p.no_more d in ground (arith, e, gone_now, n)

pub each-Prunes :
    (gone : List ℕ) (s : Net)
    → IsWellFormed s
    → IsOrdered gone
    → ((b : ℕ) → mem b gone ≡ true → HasBlock s b)
    → (t : Net) × (each (λ b. remove_block (some b)) gone s ≡ some (tt, t)) × Prunes s gone t
unfolding each mem
each-Prunes [] s w o h = (
  s,
  refl,
  record {
    formed = w;
    blocks_left = λ b. refl;
    others_keep = λ b k. refl;
    channels_left = λ d k. k;
    no_more = λ d k. k;
    channels_keep = λ d k. refl;
    ends_keep = λ d k. (refl, refl);
  },
)
each-Prunes (b ∷ gone) s w o h =
    let hb = h b (ground arith) in
    let r = remove_block-Removes s b w hb in
    let later : (c : ℕ) → mem c gone ≡ true → HasBlock r.after c = λ c k.
      let n = not-mem-above b gone o.0 in
      elim (Bool-cases (b == c)) [
        | inl same ↦
            let n_c = subst (λ x. mem x gone ≡ false) (==→eq b c same) n in
            absurd (ground (arith, k, n_c))
        | inr apart ↦ r.blocks_left c ∙ ground (arith, apart, h c, k)
      ] in
    let (t, e, p) = each-Prunes gone r.after r.formed o.1 later in
    (t, bind-runs _ _ s r.after tt r.returns ∙ e, more-Prunes s w b hb r gone t p)
