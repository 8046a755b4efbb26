-- ===== src/Buffers/Rewire.antt =====
-- The reads of `insertBuffer` and the channels that it creates (Buffers/src/DFnetlist_buffers.cpp).
use fpt2022_artifact.Common.{ℕ, ◌≡◌, refl, ap, ◌∙◌, arith}
use fpt2022_artifact.Common.{Bool, true, false, Option, some}
use fpt2022_artifact.Common.{◌==◌}
use fpt2022_artifact.Common.Int.{ℤ, pos}
use fpt2022_artifact.Common.Sets.{mem}
use fpt2022_artifact.Slab.{put}
use fpt2022_artifact.Netlist.Types.{Net, Port}
use fpt2022_artifact.Netlist.Types.{block, port, channel}
use fpt2022_artifact.Netlist.Channels.{get_src_port, get_dst_port}
use fpt2022_artifact.Netlist.Channels.{
  get_src_block, get_block_from_port, read_channel, is_back_edge,
}
use fpt2022_artifact.Netlist.Channels.{set_back_edge, update_channel}
use fpt2022_artifact.Netlist.Blocks.{read_block}
use fpt2022_artifact.Netlist.Attributes.{get_basic_block}
use fpt2022_artifact.Netlist.PortAttributes.{read_port, get_port_width}
use fpt2022_artifact.Netlist.Invariant.{IsWellFormed, HasPort, HasChannel}
use fpt2022_artifact.Netlist.Invariant.Frame.{HasPort-valid}
use fpt2022_artifact.Netlist.Invariant.Link.{CanConnect, Connects}
use fpt2022_artifact.Netlist.Invariant.Cut.{Disconnects}
use fpt2022_artifact.Netlist.Invariant.Updates.{KeepsEnds}
use fpt2022_artifact.Buffers.Make.{MakesBuffer}

-- The source port of a channel, its owner, and the basic block of that.
abbrev pub source_port : Net → ℕ → ℕ
source_port s c = (channel s c).src

abbrev pub target_port : Net → ℕ → ℕ
target_port s c = (channel s c).dst

abbrev pub source_block : Net → ℕ → ℕ
source_block s c = (port s (source_port s c)).block

-- The reads at the start of `insertBuffer`.
module _ (s : Net) (c : ℕ) (w : IsWellFormed s) (h : HasChannel s c) where
  pub get_src_port-reads : get_src_port (some c) s ≡ some (source_port s c)
  unfolding get_src_port
  get_src_port-reads = rw (w.channel_ids c ∙ h, get_src_port) refl

  pub get_dst_port-reads : get_dst_port (some c) s ≡ some (target_port s c)
  unfolding get_dst_port
  get_dst_port-reads = rw (w.channel_ids c ∙ h, get_dst_port) refl

  pub is_back_edge-reads : is_back_edge (some c) s ≡ some (channel s c).back_edge
  unfolding read_channel
  is_back_edge-reads = rw (w.channel_ids c ∙ h, read_channel) refl

  pub get_src_block-reads : get_src_block (some c) s ≡ some (source_block s c)
  unfolding get_src_block get_block_from_port
  get_src_block-reads =
      rw (get_src_port-reads, get_src_block)
        (rw (HasPort-valid s (source_port s c) w (w.joins c h).src_exists, get_block_from_port)
          refl)

  pub get_basic_block-reads :
      get_basic_block (some (source_block s c)) s
      ≡ some (block s (source_block s c)).attrs.basic_block
  unfolding read_block
  get_basic_block-reads =
      let o = w.ownership.owned (source_port s c) (w.joins c h).src_exists in
      rw (w.ownership.block_ids (source_block s c) ∙ o.0, read_block) refl

pub get_port_width-reads :
    (t : Net) (p : ℕ)
    → IsWellFormed t
    → HasPort t p
    → get_port_width (some p) t ≡ some (port t p).width
unfolding read_port
get_port_width-reads t p w h = rw (HasPort-valid t p w h, read_port) refl

-- `setBackEdge` on a channel of the netlist.
pub set_back_edge-KeepsEnds : (value : Bool) → KeepsEnds (λ ch. record ch { back_edge = value })
set_back_edge-KeepsEnds value = record { id = λ c. refl; src = λ c. refl; dst = λ c. refl }

abbrev pub mark_back : Net → ℕ → Bool → Net
mark_back s c value = record s {
  channels = put c (λ ch. record ch { back_edge = value }) s.channels;
}

pub set_back_edge-runs :
    (s : Net) (c : ℕ) (value : Bool)
    → IsWellFormed s
    → HasChannel s c
    → set_back_edge (some c) value s ≡ some (tt, mark_back s c value)
unfolding update_channel
set_back_edge-runs s c value w h = rw (w.channel_ids c ∙ h, update_channel) refl

-- Once the channel is removed and the block is made, its two channels can be created.
module _ (s : Net) (c : ℕ) (w : IsWellFormed s) (h : HasChannel s c) (t : Net)
    (cut : Disconnects s c t) (slots : ℤ) (transparent : Bool) (bb : Option ℕ) (width : ℤ)
    (r : (Option ℕ × Option ℕ × Option ℕ) × Net)
    (m : MakesBuffer t slots transparent bb width r) where
  abbrev src : ℕ
  src = source_port s c

  abbrev dst : ℕ
  dst = target_port s c

  cut-HasPort : (q : ℕ) → HasPort s q → HasPort t q
  cut-HasPort q k = ap (mem q) cut.ports_live ∙ k

  made-HasPort : (q : ℕ) → HasPort s q → HasPort r.1 q
  made-HasPort q k = m.ports_exist q ∙ ground (arith, cut-HasPort q k)

  pub made-port : (q : ℕ) → HasPort s q → port r.1 q ≡ port t q
  made-port q k = m.ports_keep q (cut-HasPort q k)

  pub in-new : (q : ℕ) → HasPort s q → (m.inp == q) ≡ false
  in-new q k = ground (arith, m.in_fresh, cut-HasPort q k)

  pub out-new : (q : ℕ) → HasPort s q → (m.outp == q) ≡ false
  out-new q k = ground (arith, m.out_fresh, cut-HasPort q k)

  src-dst : (src == dst) ≡ false
  src-dst = ground (arith, (w.joins c h).src_output, (w.joins c h).dst_input)

  pub in-CanConnect : CanConnect r.1 src m.inp
  in-CanConnect =
      let j = w.joins c h in
      record {
        src_exists = made-HasPort src j.src_exists;
        dst_exists = m.ports_exist m.inp ∙ ground arith;
        src_output = ground (arith, made-port src j.src_exists, cut.ports_are src, j.src_output);
        dst_input = m.in_direction;
        src_free = ground (arith, made-port src j.src_exists, cut.ports_are src);
        dst_free = m.in_unlinked;
      }

  module _ (one : ℕ × Net) (k : Connects r.1 src m.inp (pos 0) true one) where
    pub out-CanConnect : CanConnect one.1 m.outp dst
    out-CanConnect =
        let j = w.joins c h in
        let out_same : port one.1 m.outp ≡ port r.1 m.outp =
          ground (arith, k.ports_are m.outp, out-new src j.src_exists, m.differ) in
        let dst_same : port one.1 dst ≡ port t dst =
          ground (
            arith,
            k.ports_are dst,
            in-new dst j.dst_exists,
            src-dst,
            made-port dst j.dst_exists,
          ) in
        record {
          src_exists = ap (mem m.outp) k.ports_live ∙ (m.ports_exist m.outp ∙ ground arith);
          dst_exists = ap (mem dst) k.ports_live ∙ made-HasPort dst j.dst_exists;
          src_output = ap Port.is_input out_same ∙ m.out_direction;
          dst_input = ap Port.is_input dst_same ∙ ground (arith, cut.ports_are dst, j.dst_input);
          src_free = ap Port.channel out_same ∙ m.out_unlinked;
          dst_free = ap Port.channel dst_same ∙ ground (arith, cut.ports_are dst);
        }
