-- ===== src/Netlist/Invariant/Unblock.antt =====
-- Removing a block (`removeBlock`): the loop over its ports ends, and the netlist stays well formed.
use fpt2022_artifact.Common.{ℕ, zero, suc, ◌≡◌, ◌≤◌, refl, ap, ◌∙◌, true, false, not, ◌&&◌, ◌||◌}
use fpt2022_artifact.Common.{Option, some, ◌==◌, arith, length}
use fpt2022_artifact.Common.{List, [], ◌∷◌}
use fpt2022_artifact.Common.Sets.{mem, erase, mem-erase, length-erase}
use fpt2022_artifact.Netlist.Types.{Net}
use fpt2022_artifact.Netlist.Types.{block, port, channel, valid_port}
use fpt2022_artifact.Netlist.Ports.{drop_port, remove_port}
use fpt2022_artifact.Netlist.Blocks.{free_block, remove_ports, remove_block}
use fpt2022_artifact.Netlist.Invariant.{IsWellFormed, HasBlock, HasPort, HasChannel}
use fpt2022_artifact.Netlist.Invariant.Frame.{HasPort-valid}
use fpt2022_artifact.Netlist.Invariant.Unport.{
  drop_port-IsWellFormed, drop_port-live, drop_port-blocks,
}
use fpt2022_artifact.Netlist.Invariant.Unport.{
  drop_port-channels, drop_port-channel, drop_port-port,
}
use fpt2022_artifact.Netlist.Channels.{connect}
use fpt2022_artifact.Netlist.Invariant.Unport.{drop_port-block}
use fpt2022_artifact.Netlist.Invariant.Unslot.{
  free_block-IsWellFormed, out-live, out-ports, out-channels, out-block,
}

-- The loop over the ports of `b` returns, with all of them removed and no other port.
pub record Strips (s : Net) (b : ℕ) (r : Option (Unit {0} × Net)) : Type 0 where
  pub after : Net
  pub returns : r ≡ some (tt, after)
  pub formed : IsWellFormed after
  pub bare : (block after b).all_ports ≡ []
  pub blocks_keep : (c : ℕ) → mem c after.blocks.live ≡ mem c s.blocks.live
  pub ports_left :
      (q : ℕ) → mem q after.ports.live ≡ (not (mem q (block s b).all_ports) && mem q s.ports.live)
  pub others_keep : (c : ℕ) → (b == c) ≡ false → block after c ≡ block s c
  pub channels_left :
      (d : ℕ)
      → mem d after.channels.live ≡ (
          not (
            mem (channel s d).src (block s b).all_ports
            || mem (channel s d).dst (block s b).all_ports)
          && mem d s.channels.live)
  pub channels_keep : (d : ℕ) → HasChannel after d → channel after d ≡ channel s d
  pub ports_keep :
      (q : ℕ) → HasPort after q → port after q ≡ connect (port after q).channel (port s q)

remove_ports-none :
    (fuel b : ℕ) (s : Net) → (block s b).all_ports ≡ [] → remove_ports fuel b s ≡ some (tt, s)
unfolding remove_ports
remove_ports-none zero b s e = rw (e, remove_ports)
remove_ports-none (suc fuel) b s e = rw (e, remove_ports)

remove_ports-step :
    (fuel b p : ℕ) (ps : List ℕ) (s : Net)
    → (block s b).all_ports ≡ p ∷ ps
    → valid_port s (some p) ≡ true
    → remove_ports (suc fuel) b s ≡ remove_ports fuel b (drop_port p s)
unfolding remove_ports remove_port
remove_ports-step fuel b p ps s e v = rw (e, remove_ports) (rw (v, remove_port) refl)

-- The first port of a block, as a port of the netlist that the block owns.
module _ (s : Net) (b p : ℕ) (ps : List ℕ) (w : IsWellFormed s) (h : HasBlock s b)
    (e : (block s b).all_ports ≡ p ∷ ps) where
  head-mem : mem p (block s b).all_ports ≡ true
  unfolding mem
  head-mem = ap (mem p) e ∙ ground arith

  head-HasPort : HasPort s p
  head-HasPort = (w.ownership.owns b h).exists p head-mem

  head-owner : (port s p).block ≡ b
  head-owner = (w.ownership.owns b h).owner p head-mem

  head-erased : (block (drop_port p s) b).all_ports ≡ erase p (block s b).all_ports
  head-erased = ground (arith, drop_port-block s p w head-HasPort b, head-owner)

  head-shorter : suc (length (block (drop_port p s) b).all_ports) ≡ length (block s b).all_ports
  head-shorter =
      ap (λ l. suc (length l)) head-erased
      ∙ ground (arith, length-erase p (block s b).all_ports (w.ownership.ordered b h), head-mem)

  -- The channels that one round and the rest of the loop leave.
  module _ (after : Net)
      (left : (d : ℕ)
        → mem d after.channels.live ≡ (
            not (
              mem (channel (drop_port p s) d).src (block (drop_port p s) b).all_ports
              || mem (channel (drop_port p s) d).dst (block (drop_port p s) b).all_ports)
            && mem d (drop_port p s).channels.live)) where
    strip-HasChannel : (d : ℕ) → HasChannel after d → HasChannel (drop_port p s) d
    strip-HasChannel d k = ground (arith, left d)

    strip-channels :
        (d : ℕ)
        → mem d after.channels.live ≡ (
            not (
              mem (channel s d).src (block s b).all_ports
              || mem (channel s d).dst (block s b).all_ports)
            && mem d s.channels.live)
    strip-channels d = ground (
      arith,
      left d,
      drop_port-channel s p w head-HasPort d,
      drop_port-channels s p w head-HasPort d,
      head-erased,
      head-mem,
      mem-erase p (channel s d).src (block s b).all_ports,
      mem-erase p (channel s d).dst (block s b).all_ports,
    )

-- The loop ends if its fuel is at least the number of ports.
pub remove_ports-Strips :
    (fuel b : ℕ) (s : Net) (ps : List ℕ)
    → (block s b).all_ports ≡ ps
    → IsWellFormed s
    → HasBlock s b
    → length (block s b).all_ports ≤ fuel
    → Strips s b (remove_ports fuel b s)
unfolding mem
remove_ports-Strips fuel b s [] e w h enough = record {
  after = s;
  returns = remove_ports-none fuel b s e;
  formed = w;
  bare = e;
  blocks_keep = λ c. refl;
  ports_left = λ q. rw e refl;
  others_keep = λ c other. refl;
  channels_left = λ d. rw e refl;
  channels_keep = λ d k. refl;
  ports_keep = λ q k. refl;
}
remove_ports-Strips zero b s (p ∷ ps) e w h enough = absurd (omega (arith, ap length e))
remove_ports-Strips (suc fuel) b s (p ∷ ps) e w h enough =
    let hp = head-HasPort s b p ps w h e in
    let rest =
      remove_ports-Strips fuel b (drop_port p s) _ refl (drop_port-IsWellFormed s p w hp)
        (drop_port-blocks s p w hp b ∙ h) (omega (arith, head-shorter s b p ps w h e)) in
    record {
      after = rest.after;
      returns = remove_ports-step fuel b p ps s e (HasPort-valid s p w hp) ∙ rest.returns;
      formed = rest.formed;
      bare = rest.bare;
      blocks_keep = λ c. rest.blocks_keep c ∙ drop_port-blocks s p w hp c;
      ports_left = λ q. ground (
        arith,
        rest.ports_left q,
        drop_port-live s p w hp q,
        head-erased s b p ps w h e,
        mem-erase p q (block s b).all_ports,
        head-mem s b p ps w h e,
      );
      others_keep = λ c other.
          rest.others_keep c other
          ∙ ground (arith, drop_port-block s p w hp c, head-owner s b p ps w h e);
      channels_left = λ d. strip-channels s b p ps w h e rest.after rest.channels_left d;
      channels_keep = λ d k.
          let before = strip-HasChannel s b p ps w h e rest.after rest.channels_left d k in
          rest.channels_keep d k ∙ drop_port-channel s p w hp d before;
      ports_keep = λ q k.
          let before : HasPort (drop_port p s) q = ground (arith, rest.ports_left q) in
          rest.ports_keep q k
          ∙ ap (connect (port rest.after q).channel) (drop_port-port s p w hp q before);
    }

-- What the removal of a block leaves: a well-formed netlist without the block, its ports and the
-- channels at these, and with every other block, port and channel; only the channel field of a port
-- may change.
pub record Removes (s : Net) (b : ℕ) (r : Option (Unit {0} × Net)) : Type 0 where
  pub after : Net
  pub returns : r ≡ some (tt, after)
  pub formed : IsWellFormed after
  pub blocks_left : (c : ℕ) → mem c after.blocks.live ≡ (not (b == c) && mem c s.blocks.live)
  pub ports_left :
      (q : ℕ) → mem q after.ports.live ≡ (not (mem q (block s b).all_ports) && mem q s.ports.live)
  pub others_keep : (c : ℕ) → (b == c) ≡ false → block after c ≡ block s c
  pub channels_left :
      (d : ℕ)
      → mem d after.channels.live ≡ (
          not (
            mem (channel s d).src (block s b).all_ports
            || mem (channel s d).dst (block s b).all_ports)
          && mem d s.channels.live)
  pub channels_keep : (d : ℕ) → HasChannel after d → channel after d ≡ channel s d
  pub ports_keep :
      (q : ℕ) → HasPort after q → port after q ≡ connect (port after q).channel (port s q)

pub remove_block-Removes :
    (s : Net) (b : ℕ) → IsWellFormed s → HasBlock s b → Removes s b (remove_block (some b) s)
unfolding remove_block
remove_block-Removes s b w h =
    let r = remove_ports-Strips (length (block s b).all_ports) b s _ refl w h (omega arith) in
    let there = r.blocks_keep b ∙ h in
    record {
      after = free_block b r.after;
      returns = rw (w.ownership.block_ids b ∙ h, remove_block) (rw r.returns refl);
      formed = free_block-IsWellFormed r.after b r.formed there r.bare;
      blocks_left = λ c.
          out-live r.after b r.formed there r.bare c
          ∙ ap (λ m. not (b == c) && m) (r.blocks_keep c);
      ports_left = λ q.
          ap (λ ps. mem q ps.live) (out-ports r.after b r.formed there r.bare) ∙ r.ports_left q;
      others_keep = λ c other.
          ground (arith, out-block r.after b r.formed there r.bare c, r.others_keep c other);
      channels_left = λ d.
          ap (λ cs. mem d cs.live) (out-channels r.after b r.formed there r.bare)
          ∙ r.channels_left d;
      channels_keep = unfold free_block in r.channels_keep;
      ports_keep = unfold free_block in r.ports_keep;
    }
