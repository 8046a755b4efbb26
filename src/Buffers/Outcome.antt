-- ===== src/Buffers/Outcome.antt =====
-- The netlist that `insertBuffer` leaves (Buffers/src/DFnetlist_buffers.cpp).
use fpt2022_artifact.Common.{ℕ, ◌≡◌, refl, sym, ap, subst, ◌∙◌, arith}
use fpt2022_artifact.Common.{Bool, true, false, not, ◌&&◌, ◌||◌, Option, some, [], ◌∷◌}
use fpt2022_artifact.Common.{if◌then◌else◌, ◌==◌}
use fpt2022_artifact.Common.Int.{ℤ, pos}
use fpt2022_artifact.Common.Sets.{mem, insert, erase, mem-insert, mem-erase}
use fpt2022_artifact.Slab.{at}
use fpt2022_artifact.Slab.Laws.{live-put}
use fpt2022_artifact.Netlist.Types.{Net, Block, Channel}
use fpt2022_artifact.Netlist.Types.{block, port, channel, elastic_buffer}
use fpt2022_artifact.Netlist.Types.{block_zero, channel_zero}
use fpt2022_artifact.Netlist.Invariant.{IsWellFormed, HasBlock, HasPort, HasChannel, Joins}
use fpt2022_artifact.Netlist.Invariant.Link.{Connects}
use fpt2022_artifact.Netlist.Invariant.Cut.{Disconnects}
use fpt2022_artifact.Netlist.Invariant.Updates.{change-channel, change-IsWellFormed}
use fpt2022_artifact.Buffers.Make.{MakesBuffer}
use fpt2022_artifact.Buffers.Rewire.{
  source_port, target_port, source_block, set_back_edge-KeepsEnds, mark_back, made-port, in-new,
  out-new,
}

-- What `insertBuffer` does to a netlist.
pub record Inserts (s : Net) (c : ℕ) (slots : ℤ) (transparent : Bool) (r : Option ℕ × Net)
    : Type 0 where
  pub eb : ℕ
  pub inp : ℕ
  pub outp : ℕ
  pub c_in : ℕ
  pub c_out : ℕ
  pub result : r.0 ≡ some eb
  pub formed : IsWellFormed r.1
  -- The new block.
  pub fresh : mem eb s.blocks.live ≡ false
  pub blocks_exist : (b : ℕ) → mem b r.1.blocks.live ≡ ((eb == b) || mem b s.blocks.live)
  pub blocks_keep : (b : ℕ) → HasBlock s b → block r.1 b ≡ block s b
  pub type_set : (block r.1 eb).type ≡ elastic_buffer
  pub in_ports : (block r.1 eb).in_ports ≡ inp ∷ []
  pub out_ports : (block r.1 eb).out_ports ≡ outp ∷ []
  pub slots_set : (block r.1 eb).attrs.slots ≡ slots
  pub transparent_set : (block r.1 eb).attrs.transparent ≡ transparent
  pub basic_block_set :
      (block r.1 eb).attrs.basic_block ≡ (block s (source_block s c)).attrs.basic_block
  -- Its two ports, which are new, with the width of the source of the old channel.
  pub ports_exist :
      (q : ℕ) → mem q r.1.ports.live ≡ ((outp == q) || ((inp == q) || mem q s.ports.live))
  pub ports_keep :
      (q : ℕ)
      → HasPort s q
      → (source_port s c == q) ≡ false
      → (target_port s c == q) ≡ false
      → port r.1 q ≡ port s q
  pub in_fresh : mem inp s.ports.live ≡ false
  pub out_fresh : mem outp s.ports.live ≡ false
  pub in_width : (port r.1 inp).width ≡ (port s (source_port s c)).width
  pub out_width : (port r.1 outp).width ≡ (port s (source_port s c)).width
  -- The old channel is replaced by two without slots; the second one is a back edge if it was one.
  pub channels_exist :
      (d : ℕ)
      → mem d r.1.channels.live
        ≡ ((c_out == d) || ((c_in == d) || (not (c == d) && mem d s.channels.live)))
  pub channels_keep : (d : ℕ) → HasChannel s d → (c == d) ≡ false → channel r.1 d ≡ channel s d
  pub channels_apart : (c_in == c_out) ≡ false
  pub channels_new :
      (d : ℕ) → HasChannel s d → (c == d) ≡ false → ((c_in == d) ≡ false) × ((c_out == d) ≡ false)
  pub in_source : (channel r.1 c_in).src ≡ source_port s c
  pub out_target : (channel r.1 c_out).dst ≡ target_port s c
  pub in_joins : Joins r.1 c_in (source_port s c) inp
  pub out_joins : Joins r.1 c_out outp (target_port s c)
  pub in_slots : (channel r.1 c_in).slots ≡ pos 0
  pub out_slots : (channel r.1 c_out).slots ≡ pos 0
  pub in_forward : (channel r.1 c_in).back_edge ≡ false
  pub out_back : (channel r.1 c_out).back_edge ≡ (channel s c).back_edge

-- The netlist after all calls.
module _ (s : Net) (c : ℕ) (w : IsWellFormed s) (h : HasChannel s c) (t : Net)
    (cut : Disconnects s c t) (slots : ℤ) (transparent : Bool)
    (r : (Option ℕ × Option ℕ × Option ℕ) × Net)
    (m : MakesBuffer t slots transparent
      (block s (source_block s c)).attrs.basic_block
      (port t (source_port s c)).width
      r)
    (one two : ℕ × Net) (k : Connects r.1 (source_port s c) m.inp (pos 0) true one)
    (l : Connects one.1 m.outp (target_port s c) (pos 0) true two) where
  abbrev pub final : Net
  final = mark_back two.1 two.0 (channel s c).back_edge

  pub has_out : HasChannel two.1 two.0
  has_out = ap (mem two.0) l.live ∙ (mem-insert two.0 two.0 one.1.channels.live ∙ ground arith)

  has_in : HasChannel one.1 one.0
  has_in = ap (mem one.0) k.live ∙ (mem-insert one.0 one.0 r.1.channels.live ∙ ground arith)

  final-formed : IsWellFormed final
  final-formed =
      change-IsWellFormed two.1 two.0 _ (set_back_edge-KeepsEnds (channel s c).back_edge) l.formed
        has_out

  final-channel :
      (d : ℕ)
      → channel final d ≡ (
          if two.0 == d
          then record (channel two.1 d) { back_edge = (channel s c).back_edge }
          else channel two.1 d)
  final-channel =
      change-channel two.1 two.0 _ (set_back_edge-KeepsEnds (channel s c).back_edge) l.formed
        has_out

  final-channels_live : final.channels.live ≡ insert two.0 (insert one.0 (erase c s.channels.live))
  final-channels_live =
      live-put two.0 (λ ch. record ch { back_edge = (channel s c).back_edge }) two.1.channels
      ∙ (l.live
          ∙ ap (insert two.0)
              (k.live ∙ ap (insert one.0) (ap (λ x. x.live) m.channels_keep ∙ cut.live)))

  final-channels_exist :
      (d : ℕ)
      → mem d final.channels.live
        ≡ ((two.0 == d) || ((one.0 == d) || (not (c == d) && mem d s.channels.live)))
  final-channels_exist d = ground (
    arith,
    ap (mem d) final-channels_live,
    mem-insert two.0 d (insert one.0 (erase c s.channels.live)),
    mem-insert one.0 d (erase c s.channels.live),
    mem-erase c d s.channels.live,
  )

  -- The first new channel is another one than the second.
  channels-differ : (two.0 == one.0) ≡ false
  channels-differ = ground (arith, l.fresh, has_in)

  in-channel : channel final one.0 ≡ channel one.1 one.0
  in-channel = ground (arith, final-channel one.0, channels-differ, l.channels_keep one.0 has_in)

  cut-kept : (d : ℕ) → HasChannel s d → (c == d) ≡ false → HasChannel r.1 d
  cut-kept d hd other = ground (
    arith,
    ap (λ x. mem d x.live) m.channels_keep,
    ap (mem d) cut.live,
    mem-erase c d s.channels.live,
  )

  one-kept : (d : ℕ) → HasChannel r.1 d → HasChannel one.1 d
  one-kept d hd = ground (arith, ap (mem d) k.live, mem-insert one.0 d r.1.channels.live)

  final-channels_keep : (d : ℕ) → HasChannel s d → (c == d) ≡ false → channel final d ≡ channel s d
  final-channels_keep d hd other =
      let hr = cut-kept d hd other in
      let old : channel r.1 d ≡ channel t d = ap (λ x. at channel_zero x d) m.channels_keep in
      ground (
        arith,
        final-channel d,
        l.channels_keep d (one-kept d hr),
        l.fresh,
        one-kept d hr,
        k.channels_keep d hr,
        old,
        cut.channels_keep d other,
      )

  final-blocks : (b : ℕ) → block final b ≡ block r.1 b
  final-blocks b = ap (λ x. at block_zero x b) (l.blocks_keep ∙ k.blocks_keep)

  final-blocks_exist : (b : ℕ) → mem b final.blocks.live ≡ ((m.eb == b) || mem b s.blocks.live)
  final-blocks_exist b =
      ap (λ x. mem b x.live) (l.blocks_keep ∙ k.blocks_keep)
      ∙ (m.blocks_exist b ∙ ap (λ x. (m.eb == b) || mem b x.live) cut.blocks_keep)

  final-ports_exist :
      (q : ℕ) → mem q final.ports.live ≡ ((m.outp == q) || ((m.inp == q) || mem q s.ports.live))
  final-ports_exist q =
      ap (mem q) (l.ports_live ∙ k.ports_live)
      ∙ (m.ports_exist q ∙ ap (λ x. (m.outp == q) || ((m.inp == q) || mem q x)) cut.ports_live)

  -- Widths are kept by all of the connections.
  final-width : (q : ℕ) → (port final q).width ≡ (port r.1 q).width
  final-width q = ground (arith, l.ports_are q, k.ports_are q)

  final-ports_keep :
      (q : ℕ)
      → HasPort s q
      → (source_port s c == q) ≡ false
      → (target_port s c == q) ≡ false
      → port final q ≡ port s q
  final-ports_keep q hq other_src other_dst = ground (
    arith,
    l.ports_are q,
    k.ports_are q,
    in-new s c w h t cut slots transparent _ _ r m q hq,
    out-new s c w h t cut slots transparent _ _ r m q hq,
    made-port s c w h t cut slots transparent _ _ r m q hq,
    cut.ports_are q,
  )

  source-width : (port t (source_port s c)).width ≡ (port s (source_port s c)).width
  source-width = ground (arith, cut.ports_are (source_port s c))

  in-source : (channel final one.0).src ≡ source_port s c
  in-source = ap Channel.src in-channel ∙ k.src_is

  out-target : (channel final two.0).dst ≡ target_port s c
  out-target = ground (arith, final-channel two.0, l.dst_is)

  channels-new :
      (d : ℕ) → HasChannel s d → (c == d) ≡ false → ((one.0 == d) ≡ false) × ((two.0 == d) ≡ false)
  channels-new d hd other = (
    ground (arith, k.fresh, cut-kept d hd other),
    ground (arith, l.fresh, one-kept d (cut-kept d hd other)),
  )

  in-Joins : Joins final one.0 (source_port s c) m.inp
  in-Joins =
      let here : HasChannel final one.0 = final-channels_exist one.0 ∙ ground arith in
      let j = final-formed.joins one.0 here in
      let e2 : (channel final one.0).dst ≡ m.inp = ap Channel.dst in-channel ∙ k.dst_is in
      subst (λ x. Joins final one.0 x m.inp) in-source
        (subst (Joins final one.0 (channel final one.0).src) e2 j)

  out-Joins : Joins final two.0 m.outp (target_port s c)
  out-Joins =
      let here : HasChannel final two.0 = final-channels_exist two.0 ∙ ground arith in
      let j = final-formed.joins two.0 here in
      let e1 : (channel final two.0).src ≡ m.outp = ground (arith, final-channel two.0, l.src_is) in
      subst (λ x. Joins final two.0 x (target_port s c)) e1
        (subst (Joins final two.0 (channel final two.0).src) out-target j)

  pub final-Inserts : Inserts s c slots transparent (some m.eb, final)
  final-Inserts = record {
    eb = m.eb;
    inp = m.inp;
    outp = m.outp;
    c_in = one.0;
    c_out = two.0;
    result = refl;
    formed = final-formed;
    fresh = ap (λ x. mem m.eb x.live) (sym cut.blocks_keep) ∙ m.fresh;
    blocks_exist = final-blocks_exist;
    blocks_keep = λ b hb.
        final-blocks b
        ∙ (m.blocks_keep b (ap (λ x. mem b x.live) cut.blocks_keep ∙ hb)
            ∙ ap (λ x. at block_zero x b) cut.blocks_keep);
    type_set = ap Block.type (final-blocks m.eb) ∙ m.type_set;
    in_ports = ap Block.in_ports (final-blocks m.eb) ∙ m.in_ports;
    out_ports = ap Block.out_ports (final-blocks m.eb) ∙ m.out_ports;
    slots_set = ap (λ b. b.attrs.slots) (final-blocks m.eb) ∙ m.slots_set;
    transparent_set = ap (λ b. b.attrs.transparent) (final-blocks m.eb) ∙ m.transparent_set;
    basic_block_set = ap (λ b. b.attrs.basic_block) (final-blocks m.eb) ∙ m.basic_block_set;
    ports_exist = final-ports_exist;
    ports_keep = final-ports_keep;
    in_fresh = sym (ap (mem m.inp) cut.ports_live) ∙ m.in_fresh;
    out_fresh = sym (ap (mem m.outp) cut.ports_live) ∙ m.out_fresh;
    in_width = final-width m.inp ∙ (m.in_width ∙ source-width);
    out_width = final-width m.outp ∙ (m.out_width ∙ source-width);
    channels_exist = final-channels_exist;
    channels_keep = final-channels_keep;
    channels_apart = ground (arith, channels-differ);
    channels_new = channels-new;
    in_source = in-source;
    out_target = out-target;
    in_joins = in-Joins;
    out_joins = out-Joins;
    in_slots = ap Channel.slots in-channel ∙ k.slots_are;
    out_slots = ground (arith, final-channel two.0, l.slots_are);
    in_forward = ap Channel.back_edge in-channel ∙ k.forward;
    out_back = ground (arith, final-channel two.0);
  }
