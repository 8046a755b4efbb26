-- ===== src/Netlist/Invariant/Unslot.antt =====
-- Giving back the slot of a block without ports, at the end of `removeBlock`, keeps a netlist well
-- formed.
use fpt2022_artifact.Common.{ℕ, ◌≡◌, ◌<◌, refl, sym, ap, subst, ◌∙◌, true, false, not, ◌&&◌}
use fpt2022_artifact.Common.{Option, none, some, inl, inr, if◌then◌else◌, ◌==◌, arith, length}
use fpt2022_artifact.Common.{Bool-cases, ==→eq, []}
use fpt2022_artifact.Common.Sets.{mem, mem-erase, IsOrdered}
use fpt2022_artifact.Slab.{IsSound}
use fpt2022_artifact.Slab.Laws.{release-IsSound, at-release, live-release, length-release}
use fpt2022_artifact.Netlist.Types.{Net, Block, Port, Channel, block_zero, port_zero, channel_zero}
use fpt2022_artifact.Netlist.Types.{block, port, channel, valid_block, valid_channel}
use fpt2022_artifact.Netlist.Blocks.{reset_block, free_block}
use fpt2022_artifact.Netlist.Invariant.{IsWellFormed, IsOwned, HasBlock, HasPort, HasChannel, Joins}
use fpt2022_artifact.Netlist.Invariant.{IsLink, Owns, IsVacant}

-- A block without ports is removed.
module _ (s : Net) (b : ℕ) (w : IsWellFormed s) (h : HasBlock s b)
    (bare : (block s b).all_ports ≡ []) where
  abbrev out : Net
  out = free_block b s

  pub out-block :
      (c : ℕ) → block out c ≡ (if b == c then reset_block s.blocks.free (block s c) else block s c)
  unfolding free_block
  out-block c = at-release block_zero Block.next_free b c reset_block s.blocks w.blocks_sound h

  pub out-live : (c : ℕ) → mem c out.blocks.live ≡ (not (b == c) && mem c s.blocks.live)
  unfolding free_block
  out-live c = ap (mem c) (live-release b reset_block s.blocks) ∙ mem-erase b c s.blocks.live

  out-length : length out.blocks.slots ≡ length s.blocks.slots
  unfolding free_block
  out-length = length-release b reset_block s.blocks

  pub out-ports : out.ports ≡ s.ports
  unfolding free_block
  out-ports = refl

  pub out-channels : out.channels ≡ s.channels
  unfolding free_block
  out-channels = refl

  out-port : (q : ℕ) → port out q ≡ port s q
  unfolding free_block
  out-port q = refl

  out-HasPort : (q : ℕ) → mem q out.ports.live ≡ mem q s.ports.live
  unfolding free_block
  out-HasPort q = refl

  out-Joins : (c x y : ℕ) → Joins s c x y → Joins out c x y
  unfolding free_block
  out-Joins c x y j = record {
    src_exists = j.src_exists;
    dst_exists = j.dst_exists;
    src_output = j.src_output;
    dst_input = j.dst_input;
    src_names = j.src_names;
    dst_names = j.dst_names;
  }

  out-IsLink : (q : ℕ) (c : Option ℕ) → IsLink s q c → IsLink out q c
  unfolding free_block
  out-IsLink q none k = tt
  out-IsLink q (some c) k = k

  -- No port of the netlist belongs to the block.
  out-stranger : (q : ℕ) → HasPort s q → (b == (port s q).block) ≡ false
  unfolding mem
  out-stranger q k = elim (Bool-cases (b == (port s q).block)) [
    | inl same ↦
        let there = (w.ownership.owned q k).1 in
        let gone : mem q (block s (port s q).block).all_ports ≡ false =
          ap (λ c. mem q (block s c).all_ports) (sym (==→eq b _ same)) ∙ ap (mem q) bare in
        absurd (ground arith)
    | inr other ↦ other
  ]

  out-block_ids : (c : ℕ) → valid_block out (some c) ≡ mem c out.blocks.live
  unfolding valid_block
  out-block_ids c = ground (arith, out-block c, w.ownership.block_ids c, out-live c, out-length)

  out-has : (c : ℕ) → HasBlock out c → HasBlock s c × (block out c ≡ block s c)
  out-has c k = ground (arith, out-live c, out-block c)

  out-Owns : (c : ℕ) → HasBlock out c → Owns out c
  out-Owns c k =
      let (old, e) = out-has c k in
      let o = w.ownership.owns c old in
      record {
        exists = λ q m. ground (arith, e, o.exists q, out-HasPort q);
        owner = λ q m. ground (arith, e, o.owner q, out-port q);
        inputs = λ q. ground (arith, e, o.inputs q, out-port q);
        outputs = λ q. ground (arith, e, o.outputs q, out-port q);
      }

  out-owned :
      (q : ℕ)
      → HasPort s q
      → HasBlock out (port s q).block × (mem q (block out (port s q).block).all_ports ≡ true)
  out-owned q k = ground (
    arith,
    w.ownership.owned q k,
    out-live (port s q).block,
    out-block (port s q).block,
    out-stranger q k,
  )

  reset-IsVacant : (link : Option ℕ) (x : Block) → IsVacant (reset_block link x)
  reset-IsVacant link x = record { no_ports = refl; no_inputs = refl; no_outputs = refl }

  out-IsVacant : (c : ℕ) → mem c out.blocks.live ≡ false → IsVacant (block out c)
  out-IsVacant c k = elim (Bool-cases (b == c)) [
    | inl same ↦
        let now : block out c ≡ reset_block s.blocks.free (block s c) =
          ground (arith, out-block c, same) in
        rw now (reset-IsVacant s.blocks.free (block s c))
    | inr other ↦
        let old : block out c ≡ block s c = ground (arith, out-block c, other) in
        rw old (w.ownership.vacant c (ground (arith, out-live c)))
  ]

  out-IsOwned : IsOwned out
  out-IsOwned = record {
    block_ids = out-block_ids;
    port_ids = λ q k. ground (arith, out-HasPort q, out-port q, w.ownership.port_ids q);
    removed_ids = λ q gone lt.
        ap Port.id (out-port q)
        ∙ w.ownership.removed_ids q (sym (out-HasPort q) ∙ gone)
            (subst (λ ps. q < length ps.slots) out-ports lt);
    owned = λ q k.
        subst (λ x. HasBlock out x.block × (mem q (block out x.block).all_ports ≡ true))
          (sym (out-port q)) (out-owned q (sym (out-HasPort q) ∙ k));
    owns = out-Owns;
    vacant = out-IsVacant;
    ordered = λ c k.
        subst (λ x. IsOrdered x.all_ports) (sym (out-has c k).1)
          (w.ownership.ordered c (out-has c k).0);
  }

  out-channel_ids : (c : ℕ) → valid_channel out (some c) ≡ mem c out.channels.live
  unfolding free_block valid_channel
  out-channel_ids = w.channel_ids

  out-links : (q : ℕ) → HasPort out q → IsLink out q (port out q).channel
  unfolding free_block
  out-links q k = out-IsLink q (port s q).channel (w.links q k)

  out-Joins_all : (c : ℕ) → HasChannel out c → Joins out c (channel out c).src (channel out c).dst
  unfolding free_block
  out-Joins_all c k = out-Joins c (channel s c).src (channel s c).dst (w.joins c k)

  out-blocks-IsSound : IsSound block_zero Block.next_free out.blocks
  unfolding free_block
  out-blocks-IsSound =
      release-IsSound block_zero Block.next_free b reset_block s.blocks (λ link x. refl) h
        w.blocks_sound

  pub free_block-IsWellFormed : IsWellFormed out
  free_block-IsWellFormed = record {
    blocks_sound = out-blocks-IsSound;
    ports_sound = subst (IsSound port_zero Port.next_free) (sym out-ports) w.ports_sound;
    channels_sound =
        subst (IsSound channel_zero Channel.next_free) (sym out-channels) w.channels_sound;
    channel_ids = out-channel_ids;
    joins = out-Joins_all;
    links = out-links;
    ownership = out-IsOwned;
  }
