-- ===== src/Checks/BackEdges.antt =====
-- The back edges that `calculateBackEdges` marks.
use fpt2022_artifact.Common.{
  ℕ, suc, ◌≤◌, ◌↔◌, Option, none, sym, subst, ◌≡◌, refl, ap, inl, inr, arith, Bool-cases,
}
use fpt2022_artifact.Common.{true, false, some}
use fpt2022_artifact.Common.Sets.{mem}
use fpt2022_artifact.Netlist.Types.{
  Net, BlockType, branch, operator, elastic_buffer, fork, merge, demux, select, constant,
  func_entry, func_exit, source, sink, mux, cntrl_mg, lsq, mc, smc_fifo, smc_sel, smc_cntrl,
  distributor, selector, unknown, block, port, channel,
}
use fpt2022_artifact.Netlist.Invariant.{IsWellFormed, HasChannel}
use fpt2022_artifact.Checks.Driver.{calculate_back_edges, is_branch, at_least}
use fpt2022_artifact.Checks.Marking.{Marks, goes_back, marked, other-Marks, each-Marks}

-- The number of a basic block, from 0, for -1, on.
abbrev pub rank : Option ℕ → ℕ
rank none = 0
rank (some b) = suc b

-- A channel from a branch to the branch's basic block or to one with a smaller number.
pub record IsBackward (s : Net) (c : ℕ) : Type 0 where
  pub from_branch : (block s (port s (channel s c).src).block).type ≡ branch
  pub not_later :
      rank (block s (port s (channel s c).dst).block).attrs.basic_block
      ≤ rank (block s (port s (channel s c).src).block).attrs.basic_block

at_least→rank : (x y : Option ℕ) → at_least x y ≡ true → rank y ≤ rank x
at_least→rank none none h = omega arith
at_least→rank none (some b) h = cc
at_least→rank (some a) none h = omega arith
at_least→rank (some a) (some b) h = ground (arith, h)

rank→at_least : (x y : Option ℕ) → rank y ≤ rank x → at_least x y ≡ true
rank→at_least none none h = refl
rank→at_least none (some b) h = absurd (omega (arith, h))
rank→at_least (some a) none h = refl
rank→at_least (some a) (some b) h = ground (arith, h)

is_branch→eq : (t : BlockType) → is_branch t ≡ true → t ≡ branch
is_branch→eq branch h = refl
is_branch→eq operator h = cc
is_branch→eq elastic_buffer h = cc
is_branch→eq fork h = cc
is_branch→eq merge h = cc
is_branch→eq demux h = cc
is_branch→eq select h = cc
is_branch→eq constant h = cc
is_branch→eq func_entry h = cc
is_branch→eq func_exit h = cc
is_branch→eq source h = cc
is_branch→eq sink h = cc
is_branch→eq mux h = cc
is_branch→eq cntrl_mg h = cc
is_branch→eq lsq h = cc
is_branch→eq mc h = cc
is_branch→eq smc_fifo h = cc
is_branch→eq smc_sel h = cc
is_branch→eq smc_cntrl h = cc
is_branch→eq distributor h = cc
is_branch→eq selector h = cc
is_branch→eq unknown h = cc

-- The Boolean test that the code makes decides it.
goes_back-IsBackward : (s : Net) (c : ℕ) → (goes_back s c ≡ true) ↔ IsBackward s c
goes_back-IsBackward s c =
    let from = block s (port s (channel s c).src).block in
    let to = block s (port s (channel s c).dst).block in
    (
      λ h. record {
        from_branch = is_branch→eq from.type (ground (arith, h));
        not_later = at_least→rank from.attrs.basic_block to.attrs.basic_block (ground (arith, h));
      },
      λ k.
          rw (ap is_branch k.from_branch)
            (rank→at_least from.attrs.basic_block to.attrs.basic_block k.not_later),
    )

-- The back edges are the backward channels, and nothing else is changed.
pub record MarksBackward (s t : Net) : Type 0 where
  pub formed : IsWellFormed t
  pub frame : t ≡ record s { channels = t.channels }
  pub live : t.channels.live ≡ s.channels.live
  pub backward : (c : ℕ) → HasChannel s c → ((channel t c).back_edge ≡ true) ↔ IsBackward s c
  pub rest : (c : ℕ) → channel t c ≡ record (channel s c) { back_edge = (channel t c).back_edge }

Marks-MarksBackward : (s t : Net) → Marks s (λ c. mem c s.channels.live) t → MarksBackward s t
Marks-MarksBackward s t m = record {
  formed = m.formed;
  frame = m.frame;
  live = m.live;
  backward = λ c h.
      let now : (channel t c).back_edge ≡ goes_back s c = ground (arith, m.channels c, h) in
      subst (λ x. (x ≡ true) ↔ IsBackward s c) (sym now) (goes_back-IsBackward s c);
  rest = λ c. elim (Bool-cases (mem c s.channels.live)) [
    | inl h ↦
        let now : channel t c ≡ marked (goes_back s c) (channel s c) =
          ground (arith, m.channels c, h) in
        rw now refl
    | inr gone ↦
        let now : channel t c ≡ channel s c = ground (arith, m.channels c, gone) in rw now refl
  ];
}

-- On a well-formed netlist `calculateBackEdges` returns; it marks exactly the channels that go from a
-- branch to the branch's basic block or to one with a smaller number as back edges, unmarks the other
-- channels, changes nothing else, and keeps the netlist well formed.
pub calculate_back_edges-MarksBackward :
    (s : Net)
    → IsWellFormed s
    → (t : Net) × (calculate_back_edges s ≡ some (tt, t)) × MarksBackward s t
unfolding calculate_back_edges
calculate_back_edges-MarksBackward s w =
    let none_yet : Marks s (λ c. false) s = record {
      frame = refl;
      live = refl;
      formed = w;
      channels = λ c. refl;
    } in
    let (t, e, m) = each-Marks s s (λ c. false) s.channels.live none_yet (λ c h. h) in
    (t, e, Marks-MarksBackward s t (other-Marks s t _ m _ (λ c. ground arith)))
