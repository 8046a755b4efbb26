-- ===== src/Connectivity/Renumber.antt =====
-- `setDFSorder` (Buffers/src/DFnetlist.h) in the search: only the numbers of the blocks change.
use fpt2022_artifact.Common.{ℕ, ◌≡◌, refl, sym, ap, ◌∙◌, Bool, true, false, some, inl, inr, arith}
use fpt2022_artifact.Common.{◌==◌, if◌then◌else◌, Bool-cases}
use fpt2022_artifact.Common.Int.{ℤ}
use fpt2022_artifact.Common.Sets.{mem}
use fpt2022_artifact.Slab.{put}
use fpt2022_artifact.Slab.Laws.{live-put}
use fpt2022_artifact.Netlist.Types.{Net, Block, block, port}
use fpt2022_artifact.Netlist.Blocks.{update_block}
use fpt2022_artifact.Netlist.Invariant.{IsWellFormed, HasBlock}
use fpt2022_artifact.Netlist.Invariant.Updates.{KeepsSets, update-block, update-IsWellFormed}
use fpt2022_artifact.Netlist.Attributes.{set_dfs_order}
use fpt2022_artifact.Connectivity.{ports_along}
use fpt2022_artifact.Connectivity.Children.{IsConnected}

abbrev pub numbered : ℤ → Block → Block
numbered i b = record b { attrs = record b.attrs { dfs_order = i } }

abbrev pub number_of : Net → ℕ → ℤ
number_of s b = (block s b).attrs.dfs_order

-- Two netlists that differ in the numbers of blocks at most.
pub record Renumbers (s t : Net) : Type 0 where
  pub frame : t ≡ record s { blocks = t.blocks }
  pub live : t.blocks.live ≡ s.blocks.live
  pub formed : IsWellFormed t
  pub blocks : (b : ℕ) → block t b ≡ numbered (number_of t b) (block s b)

pub Renumbers-refl : (s : Net) → IsWellFormed s → Renumbers s s
Renumbers-refl s w = record { frame = refl; live = refl; formed = w; blocks = λ b. refl }

numbered-KeepsSets : (i : ℤ) → KeepsSets (numbered i)
numbered-KeepsSets i = record {
  id = λ b. refl;
  all_ports = λ b. refl;
  in_ports = λ b. refl;
  out_ports = λ b. refl;
}

module _ (s t : Net) (r : Renumbers s t) where
  pub same-HasBlock : (b : ℕ) → HasBlock s b → HasBlock t b
  same-HasBlock b h = ap (mem b) r.live ∙ h

  pub back-HasBlock : (b : ℕ) → HasBlock t b → HasBlock s b
  back-HasBlock b h = ap (mem b) (sym r.live) ∙ h

  pub same-IsConnected : IsConnected s → IsConnected t
  same-IsConnected joined p h =
      let same = ap Net.ports r.frame in
      let (c, e) = joined p (ap (λ x. mem p x.live) (sym same) ∙ h) in
      (c, ap (λ (x : Net). (port x p).channel) r.frame ∙ e)

  pub same-ports_along :
      (forward : Bool) (b : ℕ) → ports_along forward (block t b) ≡ ports_along forward (block s b)
  same-ports_along true b = ap Block.out_ports (r.blocks b)
  same-ports_along false b = ap Block.in_ports (r.blocks b)

  pub same-mark : (b : ℕ) → (block t b).attrs.mark ≡ (block s b).attrs.mark
  same-mark b = ap (λ (x : Block). x.attrs.mark) (r.blocks b)

  -- A call of `setDFSorder` gives one block its number.
  pub set_dfs_order-Renumbers :
      (b : ℕ) (i : ℤ)
      → HasBlock s b
      → (u : Net) × (set_dfs_order (some b) i t ≡ some (tt, u))
        × Renumbers s u
        × ((c : ℕ) → number_of u c ≡ (if b == c then i else number_of t c))
  unfolding update_block
  set_dfs_order-Renumbers b i h =
      let here = same-HasBlock b h in
      let u : Net = record t { blocks = put b (numbered i) t.blocks } in
      let at : (c : ℕ) → block u c ≡ (if b == c then numbered i (block t c) else block t c) =
        update-block t b (numbered i) (numbered-KeepsSets i) r.formed here in
      let now : (c : ℕ) → number_of u c ≡ (if b == c then i else number_of t c) =
        λ c. ap (λ (x : Block). x.attrs.dfs_order) (at c) ∙ ground arith in
      (
        u,
        rw (r.formed.ownership.block_ids b ∙ here, update_block) refl,
        record {
          frame = ap (λ (x : Net). record x { blocks = u.blocks }) r.frame;
          live = live-put b (numbered i) t.blocks ∙ r.live;
          formed = update-IsWellFormed t b (numbered i) (numbered-KeepsSets i) r.formed here;
          blocks = λ c. elim (Bool-cases (b == c)) [
            | inl same ↦
                let now_c : number_of u c ≡ i = now c ∙ rw same refl in
                at c ∙ rw (same, now_c) (ap (numbered i) (r.blocks c))
            | inr apart ↦
                let now_c : number_of u c ≡ number_of t c = now c ∙ rw apart refl in
                at c ∙ rw (apart, now_c) (r.blocks c)
          ];
        },
        now,
      )
