-- ===== src/Widths/Inference.antt =====
-- The whole inference of widths: it returns, and every port of a block gets a width.
use fpt2022_artifact.Common.{ℕ, suc, ◌<◌, ◌≡◌, refl, ap, ◌∙◌, inl, inr, arith, Bool-cases}
use fpt2022_artifact.Common.{true, false, Option, none, some, List, [], ◌∷◌}
use fpt2022_artifact.Common.{length}
use fpt2022_artifact.Common.Int.{ℤ, pos, is_neg, eqb_ℤ, minus_one}
use fpt2022_artifact.Common.Sets.{mem}
use fpt2022_artifact.Netlist.Types.{Net, block, first, bind-runs, BlockType}
use fpt2022_artifact.Netlist.Types.{operator, branch, demux, select}
use fpt2022_artifact.Netlist.Types.{constant}
use fpt2022_artifact.Netlist.Invariant.{IsWellFormed, HasPort, HasBlock}
use fpt2022_artifact.Netlist.Invariant.Frame.{HasPort-valid}
use fpt2022_artifact.Netlist.Attributes.{get_block_type}
use fpt2022_artifact.Netlist.PortAttributes.{get_port_width}
use fpt2022_artifact.Widths.{
  define_known, define_type, define_input, define_condition, define_default, define_unknown,
  find_select, is_minus_one, for_all, infer_rounds, infer_channel_width,
}
use fpt2022_artifact.Widths.Refines.{
  Refines, Refines-refl, Refines-trans, width_of, unknowns, unknowns-le-length, unknown-back,
}
use fpt2022_artifact.Widths.Reads.{
  IsReadable, HasAll, Shape, selection_of, get_block_type-reads, find_select-reads, valid_port-same,
  block-same, proper-same, get_port_width-reads,
}
use fpt2022_artifact.Widths.Moves.{
  Moves, Reaches, stays, look-Moves, for_all-Moves, for_all-Reaches, define_width-Reaches,
  stays-Reaches, look-Reaches,
}
use fpt2022_artifact.Widths.Visits.{define_unknown-Moves, HasAll-mem}
use fpt2022_artifact.Widths.Rounds.{infer_rounds-Settles}

HasAll-of : (s : Net) (ps : List ℕ) → ((p : ℕ) → mem p ps ≡ true → HasPort s p) → HasAll s ps
unfolding mem
HasAll-of s [] h = tt
HasAll-of s (p ∷ ps) h = (h p (ground arith), HasAll-of s ps (λ q m. h q (ground (arith, m))))

-- A well-formed netlist is readable, if no width is below -1 and each block has the ports that a
-- block of its type must have.
pub IsWellFormed-IsReadable :
    (s : Net)
    → IsWellFormed s
    → ((p : ℕ) → is_neg (width_of s p) ≡ eqb_ℤ (width_of s p) minus_one)
    → ((b : ℕ) → HasBlock s b → Shape s b (block s b).type)
    → IsReadable s
IsWellFormed-IsReadable s w proper shapes = record {
  blocks_valid = λ b h. w.ownership.block_ids b ∙ h;
  ports_valid = λ p h. HasPort-valid s p w h;
  channels_valid = λ c h. w.channel_ids c ∙ h;
  sources = λ c h. (w.joins c h).src_exists;
  targets = λ c h. (w.joins c h).dst_exists;
  inputs = λ b h.
      let o = w.ownership.owns b h in
      HasAll-of s (block s b).in_ports (λ p m. o.exists p (ground (arith, o.inputs p, m)));
  outputs = λ b h.
      let o = w.ownership.owns b h in
      HasAll-of s (block s b).out_ports (λ p m. o.exists p (ground (arith, o.outputs p, m)));
  ports = λ b h. HasAll-of s (block s b).all_ports (λ p m. (w.ownership.owns b h).exists p m);
  proper = proper;
  shapes = shapes;
}

module _ (s : Net) (w : IsReadable s) where
  first-define_input :
      (t : Net) (ps : List ℕ) → Refines s t → HasAll s ps → Moves s t (define_input (first ps))
  unfolding define_input
  first-define_input t [] r h =
      let k = stays s t r in
      record {
        changed = k.changed;
        after = k.after;
        runs = k.runs;
        refines = k.refines;
        grows = k.grows;
        progress = k.progress;
        idle = k.idle;
      }
  first-define_input t (p ∷ ps) r h =
      let v = valid_port-same s t w r (some p) ∙ w.ports_valid p h.0 in
      let k =
        define_unknown-Moves s s w (Refines-refl s) t is_neg (pos 0) p (λ x e. e) r h.0 refl in
      record {
        changed = k.changed;
        after = k.after;
        runs = rw (v, define_input) k.runs;
        refines = k.refines;
        grows = k.grows;
        progress = k.progress;
        idle = k.idle;
      }

  selection-define_condition :
      (t : Net) (ps : List ℕ)
      → Refines s t
      → HasAll s ps
      → Moves s t (define_condition (selection_of s ps))
  unfolding define_condition
  selection-define_condition t ps r h = go (selection_of s ps) (some_selection ps h)
    where
      some_selection :
          (qs : List ℕ) → HasAll s qs → (p : ℕ) → selection_of s qs ≡ some p → HasPort s p
      some_selection [] k p e = cc
      some_selection (q ∷ qs) k p e = ground (arith, k, e, some_selection qs k.1 p)

      go : (o : Option ℕ) → ((p : ℕ) → o ≡ some p → HasPort s p) → Moves s t (define_condition o)
      go none k = stays s t r
      go (some p) k =
          define_unknown-Moves s s w (Refines-refl s) t is_neg (pos 1) p (λ x e. e) r (k p refl)
            refl

  define_type-Moves :
      (t : Net) (garbage : Option ℕ) (b : ℕ) (type : BlockType)
      → Refines s t
      → HasAll s (block s b).in_ports
      → Shape s b type
      → Moves s t (define_type garbage type (block s b).in_ports (first (block s b).in_ports))
  unfolding define_type
  define_type-Moves t garbage b constant r h k = first-define_input t (block s b).in_ports r h
  define_type-Moves t garbage b branch r h k =
      look-Moves s t r (find_select (block s b).in_ports) _ (selection_of s (block s b).in_ports)
        (find_select-reads s t w r (block s b).in_ports h)
        (selection-define_condition t (block s b).in_ports r h)
  define_type-Moves t garbage b select r h k =
      look-Moves s t r (find_select (block s b).in_ports) _ (selection_of s (block s b).in_ports)
        (find_select-reads s t w r (block s b).in_ports h)
        (selection-define_condition t (block s b).in_ports r h)
  define_type-Moves t garbage b demux r h k = absurd k
  define_type-Moves t garbage b operator r h k = stays s t r
  define_type-Moves t garbage b _ r h k = stays s t r

  define_known-Moves :
      (t : Net) (garbage : Option ℕ) (b : ℕ)
      → Refines s t
      → HasBlock s b
      → Moves s t (define_known garbage b)
  unfolding define_known
  define_known-Moves t garbage b r h =
      let m =
        look-Moves s t r (get_block_type (some b))
          (λ ty. define_type garbage ty (block s b).in_ports (first (block s b).in_ports))
          (block s b).type (get_block_type-reads s t w r b h)
          (define_type-Moves t garbage b (block s b).type r (w.inputs b h) (w.shapes b h)) in
      record {
        changed = m.changed;
        after = m.after;
        runs = rw (block-same s t w r b) m.runs;
        refines = m.refines;
        grows = m.grows;
        progress = m.progress;
        idle = m.idle;
      }

  define_unknown-Reaches :
      (t : Net) (v : ℤ) (p : ℕ)
      → Refines s t
      → HasPort s p
      → is_neg v ≡ false
      → Reaches s t (define_unknown is_minus_one v p) (λ u. is_neg (width_of u p) ≡ false)
  unfolding define_unknown
  define_unknown-Reaches t v p r h new =
      let proper = proper-same s t w r p in
      look-Reaches s t r (λ u. is_neg (width_of u p) ≡ false) (get_port_width (some p)) _
        (width_of t p) (get_port_width-reads s t w r p h)
        (elim (Bool-cases (is_minus_one (width_of t p))) [
          | inl on ↦ rw on (
              define_width-Reaches s t r p v (valid_port-same s t w r (some p) ∙ w.ports_valid p h)
                h (unknown-back s t p r (proper ∙ on)) new)
          | inr off ↦
              rw off (stays-Reaches s t r (λ u. is_neg (width_of u p) ≡ false) (proper ∙ off))
        ])

  abbrev AllKnown : List ℕ → Net → Type 0
  AllKnown ps u = (p : ℕ) → mem p ps ≡ true → is_neg (width_of u p) ≡ false

  define_default-Reaches :
      (t : Net) (v : ℤ) (b : ℕ)
      → Refines s t
      → HasBlock s b
      → is_neg v ≡ false
      → Reaches s t (define_default v b) (AllKnown (block s b).all_ports)
  unfolding define_default
  define_default-Reaches t v b r h new =
      let m =
        for_all-Reaches s t (define_unknown is_minus_one v) (block s b).all_ports
          (λ p u. is_neg (width_of u p) ≡ false) (λ p u x g k. g p k) r
          (λ p m u q.
            define_unknown-Reaches u v p q (HasAll-mem s (block s b).all_ports p (w.ports b h) m)
              new) in
      record {
        moves = record {
          changed = m.moves.changed;
          after = m.moves.after;
          runs = rw (block-same s t w r b) m.moves.runs;
          refines = m.moves.refines;
          grows = m.moves.grows;
          progress = m.moves.progress;
          idle = m.moves.idle;
        };
        holds = m.holds;
      }

-- What the inference answers: a netlist that differs from the first one in the widths of ports that
-- had none, and in which every port of a block has one.
pub record Infers (s : Net) (r : Option (Unit {0} × Net)) : Type 0 where
  pub after : Net
  pub returns : r ≡ some (tt, after)
  pub refines : Refines s after
  pub known :
      (b p : ℕ)
      → HasBlock s b
      → mem p (block s b).all_ports ≡ true
      → is_neg (width_of after p) ≡ false

-- `inferChannelWidth` with a default width from 0 up, on a well-formed netlist in which no width is
-- below -1 and each block has the ports that its type must have (demuxes, distributors, selectors and
-- unknown blocks are excluded), returns: only ports without a width get one, everything else stays,
-- and in the end every port of a block has a width.
pub infer_channel_width-Infers :
    (s : Net) (garbage : Option ℕ) (width : ℤ)
    → IsWellFormed s
    → ((p : ℕ) → is_neg (width_of s p) ≡ eqb_ℤ (width_of s p) minus_one)
    → ((b : ℕ) → HasBlock s b → Shape s b (block s b).type)
    → is_neg width ≡ false
    → Infers s (infer_channel_width garbage width s)
unfolding infer_channel_width
infer_channel_width-Infers s garbage width formed proper shapes new =
    let w = IsWellFormed-IsReadable s formed proper shapes in
    let live = s.blocks.live in
    let one =
      for_all-Moves s s (define_known garbage) live (Refines-refl s)
        (λ b h u q. define_known-Moves s w u garbage b q h) in
    let bound : unknowns one.after.ports.live one.after < suc (length s.ports.live) =
      let le = unknowns-le-length one.after.ports.live one.after in
      let same = ap (λ ps. length ps) one.refines.live in omega (arith, le, same) in
    let two = infer_rounds-Settles s w (suc (length s.ports.live)) one.after one.refines bound in
    let three =
      for_all-Reaches s two.after (define_default width) live
        (λ b. AllKnown s w (block s b).all_ports) (λ b u x g k p m. g p (k p m))
        (Refines-trans one.refines two.refines)
        (λ b h u q. define_default-Reaches s w u width b q h new) in
    record {
      after = three.moves.after;
      returns =
          bind-runs (for_all (define_known garbage) live) _ s one.after one.changed one.runs
          ∙ bind-runs (infer_rounds (suc (length s.ports.live))) _ one.after two.after tt
              two.returns
          ∙ bind-runs (for_all (define_default width) live) _ two.after three.moves.after
              three.moves.changed three.moves.runs;
      refines = three.moves.refines;
      known = λ b p h m. three.holds b h p m;
    }
