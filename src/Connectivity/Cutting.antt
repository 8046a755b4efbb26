-- ===== src/Connectivity/Cutting.antt =====
-- The second loop of `eraseNonSCC`, which removes channels (Buffers/src/DFnetlist_Connectivity.cpp).
use fpt2022_artifact.Common.{ℕ, ◌≡◌, refl, ap, ◌∙◌, subst, arith, inl, inr}
use fpt2022_artifact.Common.{Bool, true, false, not, ◌&&◌, some, List, [], ◌∷◌}
use fpt2022_artifact.Common.{◌==◌, Bool-cases, ==→eq}
use fpt2022_artifact.Common.Int.{eqb_ℤ}
use fpt2022_artifact.Common.Sets.{mem, IsOrdered, not-mem-above, mem-erase}
use fpt2022_artifact.Netlist.Types.{Net, Port, look, port, channel, bind-runs, look-then}
use fpt2022_artifact.Netlist.Channels.{get_src_block, get_dst_block, remove_channel}
use fpt2022_artifact.Netlist.Invariant.{IsWellFormed, HasChannel}
use fpt2022_artifact.Netlist.Safety.{remove_channel-Disconnects}
use fpt2022_artifact.Checks.Driver.{each}
use fpt2022_artifact.Checks.Marking.{get_src_block-reads, get_dst_block-reads}
use fpt2022_artifact.Connectivity.Components.{scc_of, is_crossing, crossing}
use fpt2022_artifact.Connectivity.Chosen.{chosen}
use fpt2022_artifact.Connectivity.Pruning.{from, to}

abbrev pub crosses : Net → ℕ → Bool
crosses t c = not (eqb_ℤ (scc_of t (from t c)) (scc_of t (to t c)))

module _ (t : Net) (w : IsWellFormed t) where
  is_crossing-reads : (c : ℕ) → HasChannel t c → is_crossing c t ≡ some (crosses t c, t)
  unfolding is_crossing look
  is_crossing-reads c h =
      look-then (get_src_block (some c)) _ t (from t c) _ (get_src_block-reads t w c h)
        (look-then (get_dst_block (some c)) _ t (to t c) _ (get_dst_block-reads t w c h) refl)

  pub crossing-reads :
      (cs : List ℕ)
      → ((c : ℕ) → mem c cs ≡ true → HasChannel t c)
      → crossing cs t ≡ some (chosen (crosses t) cs, t)
  unfolding crossing mem
  crossing-reads [] h = refl
  crossing-reads (c ∷ cs) h =
      bind-runs _ _ t t (crosses t c) (is_crossing-reads c (h c (ground arith)))
      ∙ bind-runs _ _ t t (chosen (crosses t) cs)
          (crossing-reads cs (λ d k. h d (ground (arith, k))))

-- What is left without some channels.
pub record Cuts (t : Net) (cs : List ℕ) (u : Net) : Type 0 where
  pub formed : IsWellFormed u
  pub blocks_keep : u.blocks ≡ t.blocks
  pub left : (d : ℕ) → mem d u.channels.live ≡ (not (mem d cs) && mem d t.channels.live)
  pub keep : (d : ℕ) → HasChannel u d → channel u d ≡ channel t d
  pub owners : (q : ℕ) → (port u q).block ≡ (port t q).block

pub each-Cuts :
    (cs : List ℕ) (t : Net)
    → IsWellFormed t
    → IsOrdered cs
    → ((c : ℕ) → mem c cs ≡ true → HasChannel t c)
    → (u : Net) × (each (λ c. remove_channel (some c)) cs t ≡ some (tt, u)) × Cuts t cs u
unfolding each mem
each-Cuts [] t w o h = (
  t,
  refl,
  record {
    formed = w;
    blocks_keep = refl;
    left = λ d. refl;
    keep = λ d k. refl;
    owners = λ q. refl;
  },
)
each-Cuts (c ∷ cs) t w o h =
    let (v, e, k) = remove_channel-Disconnects t c w (h c (ground arith)) in
    let now : (d : ℕ) → mem d v.channels.live ≡ (not (c == d) && mem d t.channels.live) =
      λ d. ap (mem d) k.live ∙ mem-erase c d t.channels.live in
    let later : (d : ℕ) → mem d cs ≡ true → HasChannel v d = λ d m.
      let n = not-mem-above c cs o.0 in
      elim (Bool-cases (c == d)) [
        | inl same ↦
            let n_d = subst (λ x. mem x cs ≡ false) (==→eq c d same) n in
            absurd (ground (arith, m, n_d))
        | inr apart ↦ now d ∙ ground (arith, apart, h d, m)
      ] in
    let (u, f, p) = each-Cuts cs v k.formed o.1 later in
    (
      u,
      bind-runs _ _ t v tt e ∙ f,
      record {
        formed = p.formed;
        blocks_keep = p.blocks_keep ∙ k.blocks_keep;
        left = λ d. ground (arith, p.left d, now d);
        keep = λ d m.
            let apart : (c == d) ≡ false = ground (arith, p.left d, now d, m) in
            p.keep d m ∙ k.channels_keep d apart;
        owners = λ q. p.owners q ∙ (ap Port.block (k.ports_are q) ∙ ground arith);
      },
    )
