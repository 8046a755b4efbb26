-- ===== src/Connectivity/Forgetting.antt =====
-- The end of `eraseNonSCC`: `invalidateBasicBlocks` (Buffers/src/DFnetlsit_BasicBlocks.cpp).
use fpt2022_artifact.Common.{Bool, ℕ, ◌≡◌, refl, ap, ◌∙◌, true, false, none, some, List, [], ◌∷◌}
use fpt2022_artifact.Common.{◌==◌, if◌then◌else◌, Bool-cases, inl, inr, arith}
use fpt2022_artifact.Common.Sets.{mem}
use fpt2022_artifact.Slab.{put}
use fpt2022_artifact.Netlist.Types.{Net, Block, block, bind-runs}
use fpt2022_artifact.Netlist.Blocks.{update_block}
use fpt2022_artifact.Netlist.Invariant.{IsWellFormed, HasBlock}
use fpt2022_artifact.Netlist.Invariant.Updates.{KeepsSets, update-block, update-IsWellFormed}
use fpt2022_artifact.Netlist.Attributes.{set_basic_block}
use fpt2022_artifact.Checks.Driver.{each}

abbrev pub forgotten : Block → Block
forgotten b = record b { attrs = record b.attrs { basic_block = none } }

forgotten-KeepsSets : KeepsSets forgotten
forgotten-KeepsSets = record {
  id = λ b. refl;
  all_ports = λ b. refl;
  in_ports = λ b. refl;
  out_ports = λ b. refl;
}

-- The blocks of a list have no basic block, and nothing else is changed.
pub record Forgets (s : Net) (bs : List ℕ) (t : Net) : Type 0 where
  pub formed : IsWellFormed t
  pub frame : t ≡ record s { blocks = t.blocks }
  pub live : t.blocks.live ≡ s.blocks.live
  pub blocks : (c : ℕ) → block t c ≡ (if mem c bs then forgotten (block s c) else block s c)

pub each-Forgets :
    (bs : List ℕ) (s : Net)
    → IsWellFormed s
    → ((b : ℕ) → mem b bs ≡ true → HasBlock s b)
    → (t : Net) × (each (λ b. set_basic_block (some b) none) bs s ≡ some (tt, t)) × Forgets s bs t
unfolding each mem update_block put
each-Forgets [] s w h =
    (s, refl, record { formed = w; frame = refl; live = refl; blocks = λ c. refl })
each-Forgets (b ∷ bs) s w h =
    let hb = h b (ground arith) in
    let u : Net = record s { blocks = put b forgotten s.blocks } in
    let wu : IsWellFormed u = update-IsWellFormed s b forgotten forgotten-KeepsSets w hb in
    let now : (c : ℕ) → block u c ≡ (if b == c then forgotten (block s c) else block s c) =
      update-block s b forgotten forgotten-KeepsSets w hb in
    let one : set_basic_block (some b) none s ≡ some (tt, u) =
      rw (w.ownership.block_ids b ∙ hb, update_block) refl in
    let (t, e, f) = each-Forgets bs u wu (λ c k. h c (ground (arith, k))) in
    (
      t,
      bind-runs _ _ s u tt one ∙ e,
      record {
        formed = f.formed;
        frame = f.frame;
        live = f.live;
        blocks = λ c. elim (Bool-cases (mem c bs)) [
          | inl later ↦ f.blocks c ∙ rw later (ap forgotten (now c) ∙ twice (b == c) (block s c))
          | inr never ↦ f.blocks c ∙ rw never (now c ∙ once (b == c) (block s c))
        ];
      },
    )
  where
    twice :
        (d : Bool) (x : Block)
        → forgotten (if d then forgotten x else x)
          ≡ (if (if d then true else true) then forgotten x else x)
    twice true x = refl
    twice false x = refl

    once :
        (d : Bool) (x : Block)
        → (if d then forgotten x else x) ≡ (if (if d then true else false) then forgotten x else x)
    once true x = refl
    once false x = refl
