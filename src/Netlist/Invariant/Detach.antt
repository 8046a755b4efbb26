-- ===== src/Netlist/Invariant/Detach.antt =====
-- A port without a channel is taken from its block and its slot (`removePort`).
use fpt2022_artifact.Common.{ℕ, ◌≡◌, refl, sym, ap, ◌∙◌, Bool, false, not, ◌&&◌}
use fpt2022_artifact.Common.{Option, none, some, inl, inr, if◌then◌else◌, ◌==◌, arith, length}
use fpt2022_artifact.Common.{Bool-cases}
use fpt2022_artifact.Common.Sets.{mem, erase, mem-erase, erase-IsOrdered}
use fpt2022_artifact.Common.Text.{remove}
use fpt2022_artifact.Slab.{put, release}
use fpt2022_artifact.Slab.Laws.{
  put-IsSound, release-IsSound, at-put, at-release, live-put, live-release,
}
use fpt2022_artifact.Slab.Laws.{length-put, length-release}
use fpt2022_artifact.Netlist.Types.{Net, Block, Port, block_zero, port_zero}
use fpt2022_artifact.Netlist.Types.{block, port, channel, valid_block, valid_channel}
use fpt2022_artifact.Netlist.Ports.{disown_port, reset_port}
use fpt2022_artifact.Netlist.Invariant.{IsWellFormed, IsOwned, HasPort, Joins}
use fpt2022_artifact.Netlist.Invariant.{IsLink, Owns}

-- The state when the channel is gone: the owner `b` forgets the port, and its slot is freed.
abbrev pub detach : ℕ → Bool → ℕ → Net → Net
detach b is_input p s = record s {
  blocks = put b (disown_port p is_input) s.blocks;
  name2port = remove (port s p).full_name s.name2port;
  ports = release p reset_port s.ports;
}

module _ (s : Net) (p : ℕ) (w : IsWellFormed s) (h : HasPort s p)
    (free : (port s p).channel ≡ none) where
  abbrev b : ℕ
  b = (port s p).block

  abbrev i : Bool
  i = (port s p).is_input

  abbrev out : Net
  out = detach b i p s

  pub out-port :
      (q : ℕ) → port out q ≡ (if p == q then reset_port s.ports.free (port s q) else port s q)
  out-port q = at-release port_zero Port.next_free p q reset_port s.ports w.ports_sound h

  pub out-block :
      (c : ℕ) → block out c ≡ (if b == c then disown_port p i (block s c) else block s c)
  out-block c =
      at-put block_zero Block.next_free b c (disown_port p i) s.blocks w.blocks_sound
        (w.ownership.owned p h).0

  pub out-live : (q : ℕ) → mem q out.ports.live ≡ (not (p == q) && mem q s.ports.live)
  out-live q = ap (mem q) (live-release p reset_port s.ports) ∙ mem-erase p q s.ports.live

  pub out-blocks_live : (c : ℕ) → mem c out.blocks.live ≡ mem c s.blocks.live
  out-blocks_live c = ap (mem c) (live-put b (disown_port p i) s.blocks)

  out-Joins : (c x y : ℕ) → Joins s c x y → Joins out c x y
  out-Joins c x y j = record {
    src_exists = ground (arith, out-live x, j.src_exists, j.src_names);
    dst_exists = ground (arith, out-live y, j.dst_exists, j.dst_names);
    src_output = ground (arith, out-port x, j.src_names);
    dst_input = ground (arith, out-port y, j.dst_names);
    src_names = ground (arith, out-port x);
    dst_names = ground (arith, out-port y);
  }

  out-keeps : (q : ℕ) → HasPort out q → HasPort s q × (port out q ≡ port s q) × ((p == q) ≡ false)
  out-keeps q k = ground (arith, out-live q, out-port q)

  out-IsLink : (q : ℕ) (c : Option ℕ) → IsLink s q c → IsLink out q c
  out-IsLink q none k = tt
  out-IsLink q (some c) k = k

  out-length : length out.ports.slots ≡ length s.ports.slots
  out-length = length-release p reset_port s.ports

  out-Owns : (c : ℕ) → Owns s c → Owns out c
  out-Owns c o = record {
    exists = λ q k. ground (
      arith,
      out-block c,
      out-live q,
      o.exists q,
      o.owner q,
      mem-erase p q (block s c).all_ports,
    );
    owner = λ q k.
        ground (arith, out-block c, out-port q, o.owner q, mem-erase p q (block s c).all_ports);
    inputs = λ q. ground (
      arith,
      out-block c,
      out-port q,
      o.inputs q,
      o.owner q,
      mem-erase p q (block s c).all_ports,
      mem-erase p q (block s c).in_ports,
    );
    outputs = λ q. ground (
      arith,
      out-block c,
      out-port q,
      o.outputs q,
      o.owner q,
      mem-erase p q (block s c).all_ports,
      mem-erase p q (block s c).out_ports,
    );
  }

  out-block_ids : (c : ℕ) → valid_block out (some c) ≡ mem c out.blocks.live
  unfolding valid_block
  out-block_ids c = ground (
    arith,
    out-block c,
    w.ownership.block_ids c,
    out-blocks_live c,
    length-put b (disown_port p i) s.blocks,
  )

  out-IsOwned : IsOwned out
  out-IsOwned = record {
    block_ids = out-block_ids;
    port_ids = λ q k. ground (arith, out-keeps q k, w.ownership.port_ids q);
    removed_ids =
        λ q gone lt. ground (arith, out-live q, out-port q, w.ownership.removed_ids q, out-length);
    owned = λ q k. ground (
      arith,
      out-keeps q k,
      w.ownership.owned q,
      out-blocks_live (port s q).block,
      out-block (port s q).block,
      mem-erase p q (block s (port s q).block).all_ports,
    );
    owns = λ c k. out-Owns c (w.ownership.owns c (sym (out-blocks_live c) ∙ k));
    vacant = λ c k.
        ground
          (arith, out-block c, out-blocks_live c, w.ownership.vacant c, (w.ownership.owned p h).0);
    ordered = λ c k. elim (Bool-cases (b == c)) [
      | inl same ↦
          let new : (block out c).all_ports ≡ erase p (block s c).all_ports =
            ground (arith, out-block c, same) in
          rw new (
            erase-IsOrdered p (block s c).all_ports
              (w.ownership.ordered c (sym (out-blocks_live c) ∙ k)))
      | inr other ↦
          let old : block out c ≡ block s c = ground (arith, out-block c, other) in
          rw old (w.ownership.ordered c (sym (out-blocks_live c) ∙ k))
    ];
  }

  pub detach-IsWellFormed : IsWellFormed out
  detach-IsWellFormed = record {
    blocks_sound =
        put-IsSound block_zero Block.next_free b (disown_port p i) s.blocks
          (w.ownership.owned p h).0 w.blocks_sound;
    ports_sound =
        release-IsSound port_zero Port.next_free p reset_port s.ports (λ link q. refl) h
          w.ports_sound;
    channels_sound = w.channels_sound;
    channel_ids = out-channel_ids;
    joins = λ c k. out-Joins c (channel s c).src (channel s c).dst (w.joins c k);
    links = λ q k.
        let (old, same, _) = out-keeps q k in
        rw same (out-IsLink q (port s q).channel (w.links q old));
    ownership = out-IsOwned;
  }
    where
      out-channel_ids : (c : ℕ) → valid_channel out (some c) ≡ mem c out.channels.live
      out-channel_ids c = unfold valid_channel in w.channel_ids c
