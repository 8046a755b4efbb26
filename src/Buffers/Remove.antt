-- ===== src/Buffers/Remove.antt =====
-- Taking a buffer away (`removeBuffer`): the block is removed and the two ports that it stood
-- between are joined by a new channel.
use fpt2022_artifact.Common.{ℕ, ◌≡◌, refl, sym, ap, subst, ◌∙◌, inl, inr, arith, Bool-cases}
use fpt2022_artifact.Common.{Option-cases, true, false, not, ◌&&◌, ◌||◌, Option, none, some}
use fpt2022_artifact.Common.{◌==◌, [], ◌∷◌}
use fpt2022_artifact.Common.Int.{pos}
use fpt2022_artifact.Common.Sets.{mem, mem-insert}
use fpt2022_artifact.Netlist.Types.{Net, Port, bind-runs, look-then}
use fpt2022_artifact.Slab.{at}
use fpt2022_artifact.Netlist.Types.{block, port, channel, elastic_buffer, block_zero}
use fpt2022_artifact.Netlist.Channels.{connect}
use fpt2022_artifact.Netlist.Channels.{get_connected_channel}
use fpt2022_artifact.Netlist.Blocks.{read_block}
use fpt2022_artifact.Netlist.PortAttributes.{get_in_port, get_out_port}
use fpt2022_artifact.Netlist.Invariant.{IsWellFormed, HasBlock, HasPort, HasChannel, Joins, IsLink}
use fpt2022_artifact.Netlist.Invariant.Frame.{HasPort-valid}
use fpt2022_artifact.Netlist.Invariant.Link.{CanConnect, Connects}
use fpt2022_artifact.Netlist.Invariant.Unblock.{Removes, remove_block-Removes}
use fpt2022_artifact.Netlist.Safety.{create_channel-Connects}
use fpt2022_artifact.Buffers.{remove_buffer, assert_buffer, is_elastic_buffer}
use fpt2022_artifact.Buffers.Rewire.{get_src_port-reads, get_dst_port-reads}

-- An elastic buffer with one input and one output, which are at the ends of two channels.
pub record IsPlaced (s : Net) (b inp outp c_in c_out : ℕ) : Type 0 where
  pub exists : HasBlock s b
  pub type_is : (block s b).type ≡ elastic_buffer
  pub in_ports : (block s b).in_ports ≡ inp ∷ []
  pub out_ports : (block s b).out_ports ≡ outp ∷ []
  pub in_channel : (port s inp).channel ≡ some c_in
  pub out_channel : (port s outp).channel ≡ some c_out
  pub no_loop : (c_in == c_out) ≡ false

-- A channel without a buffer joins the ports that the buffer stood between.
pub record Rejoins (s : Net) (b c_in c_out : ℕ) (r : ℕ × Net) : Type 0 where
  pub formed : IsWellFormed r.1
  pub blocks_left : (d : ℕ) → mem d r.1.blocks.live ≡ (not (b == d) && mem d s.blocks.live)
  pub blocks_keep : (d : ℕ) → (b == d) ≡ false → block r.1 d ≡ block s d
  pub ports_left :
      (q : ℕ) → mem q r.1.ports.live ≡ (not (mem q (block s b).all_ports) && mem q s.ports.live)
  pub ports_keep : (q : ℕ) → HasPort r.1 q → port r.1 q ≡ connect (port r.1 q).channel (port s q)
  pub joins : Joins r.1 r.0 (channel s c_in).src (channel s c_out).dst
  pub src_is : (channel r.1 r.0).src ≡ (channel s c_in).src
  pub dst_is : (channel r.1 r.0).dst ≡ (channel s c_out).dst
  pub slots_are : (channel r.1 r.0).slots ≡ pos 0
  pub transparent_is : (channel r.1 r.0).transparent ≡ true
  pub forward : (channel r.1 r.0).back_edge ≡ false
  pub channels_left :
      (d : ℕ)
      → mem d r.1.channels.live
        ≡ ((r.0 == d) || (not (c_in == d) && (not (c_out == d) && mem d s.channels.live)))
  pub channels_keep :
      (d : ℕ)
      → HasChannel s d
      → (c_in == d) ≡ false
      → (c_out == d) ≡ false
      → channel r.1 d ≡ channel s d

module _ (s : Net) (b inp outp c_in c_out : ℕ) (w : IsWellFormed s)
    (at_place : IsPlaced s b inp outp c_in c_out) where
  abbrev src : ℕ
  src = (channel s c_in).src

  abbrev dst : ℕ
  dst = (channel s c_out).dst

  -- The ports of the block are the two.
  pub two-ports : (q : ℕ) → mem q (block s b).all_ports ≡ ((inp == q) || (outp == q))
  unfolding mem
  two-ports q =
      let o = w.ownership.owns b at_place.exists in
      ground (
        arith,
        ap (mem q) at_place.in_ports,
        ap (mem q) at_place.out_ports,
        o.inputs q,
        o.outputs q,
      )

  in-input : (port s inp).is_input ≡ true
  unfolding mem
  in-input =
      let o = w.ownership.owns b at_place.exists in
      ground (arith, ap (mem inp) at_place.in_ports, o.inputs inp)

  out-output : (port s outp).is_input ≡ false
  unfolding mem
  out-output =
      let o = w.ownership.owns b at_place.exists in
      ground (arith, ap (mem outp) at_place.out_ports, o.outputs outp)

  in-HasPort : HasPort s inp
  in-HasPort = (w.ownership.owns b at_place.exists).exists inp (two-ports inp ∙ ground arith)

  out-HasPort : HasPort s outp
  out-HasPort = (w.ownership.owns b at_place.exists).exists outp (two-ports outp ∙ ground arith)

  in-IsLink : IsLink s inp (some c_in)
  in-IsLink = subst (IsLink s inp) at_place.in_channel (w.links inp in-HasPort)

  out-IsLink : IsLink s outp (some c_out)
  out-IsLink = subst (IsLink s outp) at_place.out_channel (w.links outp out-HasPort)

  in-Joins : Joins s c_in src (channel s c_in).dst
  in-Joins = w.joins c_in in-IsLink.0

  out-Joins : Joins s c_out (channel s c_out).src dst
  out-Joins = w.joins c_out out-IsLink.0

  in-target : (channel s c_in).dst ≡ inp
  in-target = ground (arith, in-IsLink.1, in-Joins.src_output, in-input)

  out-source : (channel s c_out).src ≡ outp
  out-source = ground (arith, out-IsLink.1, out-Joins.dst_input, out-output)

  -- The two outer ports are not the block's.
  src-outside : mem src (block s b).all_ports ≡ false
  src-outside = ground (
    arith,
    two-ports src,
    in-Joins.src_output,
    in-Joins.src_names,
    in-input,
    at_place.out_channel,
    at_place.no_loop,
  )

  dst-outside : mem dst (block s b).all_ports ≡ false
  dst-outside = ground (
    arith,
    two-ports dst,
    out-Joins.dst_input,
    out-Joins.dst_names,
    out-output,
    at_place.in_channel,
    at_place.no_loop,
  )

  -- A channel of the netlist at one of the ports of the block is one of the two.
  channels-of :
      (d : ℕ)
      → HasChannel s d
      → (mem (channel s d).src (block s b).all_ports || mem (channel s d).dst (block s b).all_ports)
        ≡ ((c_in == d) || (c_out == d))
  channels-of d h = ground (
    arith,
    two-ports (channel s d).src,
    two-ports (channel s d).dst,
    (w.joins d h).src_names,
    (w.joins d h).dst_names,
    at_place.in_channel,
    at_place.out_channel,
    in-target,
    out-source,
  )

  module _ (r : Option (Unit {0} × Net)) (gone : Removes s b r) where
    after-HasPort :
        (q : ℕ) → HasPort s q → mem q (block s b).all_ports ≡ false → HasPort gone.after q
    after-HasPort q h out = gone.ports_left q ∙ ground (arith, h, out)

    after-channels :
        (d : ℕ)
        → mem d gone.after.channels.live
          ≡ (not (c_in == d) && (not (c_out == d) && mem d s.channels.live))
    after-channels d = elim (Bool-cases (mem d s.channels.live)) [
      | inl h ↦ ground (arith, gone.channels_left d, channels-of d h)
      | inr lacks ↦ ground (arith, gone.channels_left d)
    ]

    -- A port whose channel was one of the two has none.
    after-free :
        (q c : ℕ)
        → HasPort gone.after q
        → (port s q).channel ≡ some c
        → ((c_in == c) || (c_out == c)) ≡ true
        → (port gone.after q).channel ≡ none
    after-free q c h names either = elim (Option-cases (port gone.after q).channel) [
      | inl none_left ↦ none_left
      | inr (d, e) ↦
          let link : IsLink gone.after q (some d) =
            subst (IsLink gone.after q) e (gone.formed.links q h) in
          let here : HasChannel s d = ground (arith, after-channels d, link.0) in
          absurd (
            ground (
              arith,
              after-channels d,
              link,
              gone.channels_keep d link.0,
              (w.joins d here).src_names,
              (w.joins d here).dst_names,
              names,
            ))
    ]

    after-CanConnect : CanConnect gone.after src dst
    after-CanConnect =
        let has_src = after-HasPort src in-Joins.src_exists src-outside in
        let has_dst = after-HasPort dst out-Joins.dst_exists dst-outside in
        record {
          src_exists = has_src;
          dst_exists = has_dst;
          src_output = ap Port.is_input (gone.ports_keep src has_src) ∙ in-Joins.src_output;
          dst_input = ap Port.is_input (gone.ports_keep dst has_dst) ∙ out-Joins.dst_input;
          src_free = after-free src c_in has_src in-Joins.src_names (ground arith);
          dst_free = after-free dst c_out has_dst out-Joins.dst_names (ground arith);
        }

    module _ (t : ℕ × Net) (k : Connects gone.after src dst (pos 0) true t) where
      joined-port : (q : ℕ) → HasPort t.1 q → port t.1 q ≡ connect (port t.1 q).channel (port s q)
      joined-port q h =
          let before : HasPort gone.after q = sym (ap (mem q) k.ports_live) ∙ h in
          ground (arith, k.ports_are q, gone.ports_keep q before)

      joined-channels_left :
          (d : ℕ)
          → mem d t.1.channels.live
            ≡ ((t.0 == d) || (not (c_in == d) && (not (c_out == d) && mem d s.channels.live)))
      joined-channels_left d =
          ground
            (arith, ap (mem d) k.live, mem-insert t.0 d gone.after.channels.live, after-channels d)

      joined-channels_keep :
          (d : ℕ)
          → HasChannel s d
          → (c_in == d) ≡ false
          → (c_out == d) ≡ false
          → channel t.1 d ≡ channel s d
      joined-channels_keep d h not_in not_out =
          let kept : HasChannel gone.after d = ground (arith, after-channels d) in
          k.channels_keep d kept ∙ gone.channels_keep d kept

      joined-Rejoins : Rejoins s b c_in c_out t
      joined-Rejoins = record {
        formed = k.formed;
        blocks_left = λ d. ap (λ bs. mem d bs.live) k.blocks_keep ∙ gone.blocks_left d;
        blocks_keep =
            λ d other. ap (λ bs. at block_zero bs d) k.blocks_keep ∙ gone.others_keep d other;
        ports_left = λ q. ap (mem q) k.ports_live ∙ gone.ports_left q;
        ports_keep = joined-port;
        joins = k.joins;
        src_is = k.src_is;
        dst_is = k.dst_is;
        slots_are = k.slots_are;
        transparent_is = k.transparent_is;
        forward = k.forward;
        channels_left = joined-channels_left;
        channels_keep = joined-channels_keep;
      }

  -- The reads of `removeBuffer`.
  assert_buffer-reads : assert_buffer (some b) s ≡ some tt
  unfolding assert_buffer read_block is_elastic_buffer
  assert_buffer-reads =
      rw (w.ownership.block_ids b ∙ at_place.exists, assert_buffer, read_block)
        (rw at_place.type_is refl)

  in-reads : get_connected_channel (get_in_port b s) s ≡ some (some c_in)
  unfolding get_connected_channel
  in-reads =
      rw at_place.in_ports
        (rw (HasPort-valid s inp w in-HasPort, get_connected_channel) (ap some at_place.in_channel))

  out-reads : get_connected_channel (get_out_port b s) s ≡ some (some c_out)
  unfolding get_connected_channel
  out-reads = rw at_place.out_ports (
      rw (HasPort-valid s outp w out-HasPort, get_connected_channel) (ap some at_place.out_channel))

-- `removeBuffer` on an elastic buffer with one input and one output, each at the end of a channel,
-- and not looped back to itself, returns. The block, its ports and the two channels are gone, and a
-- new channel, without slots and transparent, joins the source of the first channel to the target
-- of the second; it is no back edge, even if one of the two was. Every other block and channel
-- stays as it was, every other port does up to its channel, and the netlist stays well formed.
pub remove_buffer-Rejoins :
    (s : Net) (b inp outp c_in c_out : ℕ)
    → IsWellFormed s
    → IsPlaced s b inp outp c_in c_out
    → (r : ℕ × Net) × (remove_buffer (some b) s ≡ some r) × Rejoins s b c_in c_out r
unfolding remove_buffer
remove_buffer-Rejoins s b inp outp c_in c_out w placed =
    let gone = remove_block-Removes s b w placed.exists in
    let can = after-CanConnect s b inp outp c_in c_out w placed _ gone in
    let (t, e, k) =
      create_channel-Connects gone.after (channel s c_in).src (channel s c_out).dst (pos 0) true
        gone.formed can in
    let first_in = in-IsLink s b inp outp c_in c_out w placed in
    let first_out = out-IsLink s b inp outp c_in c_out w placed in
    (
      t,
      look-then _ _ s _ _ (assert_buffer-reads s b inp outp c_in c_out w placed) (
          look-then _ _ s _ _ refl (
            look-then _ _ s _ _ (in-reads s b inp outp c_in c_out w placed) (
              look-then _ _ s _ _ (get_src_port-reads s c_in w first_in.0) (
                look-then _ _ s _ _ refl (
                  look-then _ _ s _ _ (out-reads s b inp outp c_in c_out w placed) (
                    look-then _ _ s _ _ (get_dst_port-reads s c_out w first_out.0)
                      (bind-runs _ _ s gone.after tt gone.returns ∙ e))))))),
      joined-Rejoins s b inp outp c_in c_out w placed _ gone t k,
    )
