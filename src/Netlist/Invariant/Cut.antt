-- ===== src/Netlist/Invariant/Cut.antt =====
-- Removing a channel (`removeChannel`) keeps a netlist well formed.
use fpt2022_artifact.Common.{ℕ, ◌≡◌, refl, ◌∙◌, inl, inr, false}
use fpt2022_artifact.Common.{◌||◌, Option, none, some, if◌then◌else◌, ◌==◌, opt_eq, arith, length}
use fpt2022_artifact.Common.{Bool-cases, ==→eq}
use fpt2022_artifact.Common.Sets.{mem, erase, mem-erase}
use fpt2022_artifact.Slab.{IsSound, put}
use fpt2022_artifact.Slab.Laws.{release-IsSound}
use fpt2022_artifact.Slab.Laws.{at-release, length-put, length-release}
use fpt2022_artifact.Slab.Laws.{live-put, live-release}
use fpt2022_artifact.Netlist.Invariant.Frame.{KeepsOwners, keeps-IsOwned}
use fpt2022_artifact.Netlist.Types.{Net, Port, Channel, port_zero, channel_zero}
use fpt2022_artifact.Netlist.Types.{port, channel, valid_channel}
use fpt2022_artifact.Netlist.Channels.{connect, drop_channel, reset_channel}
use fpt2022_artifact.Netlist.Invariant.{IsWellFormed, HasPort, HasChannel, Joins, IsLink}
use fpt2022_artifact.Netlist.Invariant.Connect.{at-connect, connect-IsSound}

-- The removal of a channel of the netlist.
module _ (s : Net) (c : ℕ) (w : IsWellFormed s) (h : HasChannel s c) where
  abbrev cut : Net
  cut = drop_channel c s

  abbrev src_port : ℕ
  src_port = (channel s c).src

  abbrev dst_port : ℕ
  dst_port = (channel s c).dst

  pub cut-port :
      (p : ℕ)
      → port cut p
        ≡ (if (src_port == p) || (dst_port == p) then connect none (port s p) else port s p)
  unfolding drop_channel
  cut-port p =
      at-connect none src_port dst_port p s.ports w.ports_sound (w.joins c h).src_exists
        (w.joins c h).dst_exists

  pub cut-channel :
      (d : ℕ)
      → channel cut d
        ≡ (if c == d then reset_channel s.channels.free (channel s d) else channel s d)
  unfolding drop_channel
  cut-channel d =
      at-release channel_zero Channel.next_free c d reset_channel s.channels w.channels_sound h

  pub cut-live : cut.channels.live ≡ erase c s.channels.live
  unfolding drop_channel
  cut-live = live-release c reset_channel s.channels

  cut-length : length cut.channels.slots ≡ length s.channels.slots
  unfolding drop_channel
  cut-length = length-release c reset_channel s.channels

  cut-channels-IsSound : IsSound channel_zero Channel.next_free cut.channels
  unfolding drop_channel
  cut-channels-IsSound =
      release-IsSound channel_zero Channel.next_free c reset_channel s.channels (λ link ch. refl) h
        w.channels_sound

  cut-ports-IsSound : IsSound port_zero Port.next_free cut.ports
  unfolding drop_channel
  cut-ports-IsSound =
      connect-IsSound none src_port dst_port s.ports w.ports_sound (w.joins c h).src_exists
        (w.joins c h).dst_exists

  pub cut-KeepsOwners : KeepsOwners s cut
  unfolding drop_channel
  cut-KeepsOwners = record {
    blocks = refl;
    ports_live =
        live-put src_port (connect none) (put dst_port (connect none) s.ports)
        ∙ live-put dst_port (connect none) s.ports;
    ports_length =
        length-put src_port (connect none) (put dst_port (connect none) s.ports)
        ∙ length-put dst_port (connect none) s.ports;
    same_block = λ p. ground (arith, cut-port p);
    same_input = λ p. ground (arith, cut-port p);
    same_id = λ p. ground (arith, cut-port p);
  }

  cut-has : (d : ℕ) → HasChannel cut d → HasChannel s d × ((c == d) ≡ false)
  cut-has d k = ground (arith, cut-live, mem-erase c d s.channels.live)

  cut-channel_ids : (d : ℕ) → valid_channel cut (some d) ≡ mem d cut.channels.live
  unfolding valid_channel
  cut-channel_ids d =
      ground
        (arith, cut-channel d, w.channel_ids d, cut-length, cut-live, mem-erase c d s.channels.live)

  -- A port names one channel, so the ends of another channel are other ports.
  cut-Joins : (d p q : ℕ) → (c == d) ≡ false → Joins s d p q → Joins cut d p q
  cut-Joins d p q other j = record {
    src_exists = ground (arith, cut-KeepsOwners.ports_live);
    dst_exists = ground (arith, cut-KeepsOwners.ports_live);
    src_output = cut-KeepsOwners.same_input p ∙ j.src_output;
    dst_input = cut-KeepsOwners.same_input q ∙ j.dst_input;
    src_names = ground (arith, cut-port p, w.joins c h);
    dst_names = ground (arith, cut-port q, w.joins c h);
  }

  cut-Joins_all : (d : ℕ) → HasChannel cut d → Joins cut d (channel cut d).src (channel cut d).dst
  cut-Joins_all d k =
      let (old, other) = cut-has d k in
      let same : channel cut d ≡ channel s d = ground (arith, cut-channel d) in
      rw same (cut-Joins d (channel s d).src (channel s d).dst other (w.joins d old))

  cut-IsLink : (p : ℕ) (e : Option ℕ) → opt_eq e (some c) ≡ false → IsLink s p e → IsLink cut p e
  cut-IsLink p none other k = tt
  cut-IsLink p (some d) other k =
      let same : channel cut d ≡ channel s d = ground (arith, cut-channel d) in
      (ground (arith, cut-live, mem-erase c d s.channels.live), rw same k.1)

  -- A port that names the channel is one of its ends.
  cut-end :
      (p : ℕ) (e : Option ℕ)
      → IsLink s p e
      → ((src_port == p) || (dst_port == p)) ≡ false
      → opt_eq e (some c) ≡ false
  cut-end p none k far = refl
  cut-end p (some d) k far = elim (Bool-cases (d == c)) [
    | inl same ↦ absurd (ground (arith, rw (==→eq d c same) at k.1))
    | inr other ↦ other
  ]

  cut-links : (p : ℕ) → HasPort cut p → IsLink cut p (port cut p).channel
  cut-links p k = elim (Bool-cases ((src_port == p) || (dst_port == p))) [
    | inl end ↦
        let written : (port cut p).channel ≡ none = ground (arith, cut-port p, end) in rw written tt
    | inr far ↦
        let kept : port cut p ≡ port s p = ground (arith, cut-port p, far) in
        let old = w.links p (ground (arith, cut-KeepsOwners.ports_live)) in
        rw kept (cut-IsLink p (port s p).channel (cut-end p (port s p).channel old far) old)
  ]

  -- Removing a channel of the netlist keeps it well formed.
  pub drop_channel-IsWellFormed : IsWellFormed cut
  drop_channel-IsWellFormed = record {
    blocks_sound = rw cut-KeepsOwners.blocks w.blocks_sound;
    ports_sound = cut-ports-IsSound;
    channels_sound = cut-channels-IsSound;
    channel_ids = cut-channel_ids;
    joins = cut-Joins_all;
    links = cut-links;
    ownership = keeps-IsOwned s cut w.ownership cut-KeepsOwners;
  }

-- The channel is gone, its two ports have none, and nothing else changes.
pub record Disconnects (s : Net) (c : ℕ) (t : Net) : Type 0 where
  pub formed : IsWellFormed t
  pub live : t.channels.live ≡ erase c s.channels.live
  pub channels_keep : (d : ℕ) → (c == d) ≡ false → channel t d ≡ channel s d
  pub ports_are :
      (p : ℕ)
      → port t p ≡ (
          if ((channel s c).src == p) || ((channel s c).dst == p)
          then connect none (port s p)
          else port s p)
  pub ports_live : t.ports.live ≡ s.ports.live
  pub blocks_keep : t.blocks ≡ s.blocks
  pub block_names_keep : t.name2block ≡ s.name2block
  pub port_names_keep : t.name2port ≡ s.name2port
  -- The counters, the lists of the function and the error message are in the rest.
  pub frame : t ≡ record s { channels = t.channels; ports = t.ports }

pub drop_channel-Disconnects :
    (s : Net) (c : ℕ) → IsWellFormed s → HasChannel s c → Disconnects s c (drop_channel c s)
drop_channel-Disconnects s c w h = record {
  formed = drop_channel-IsWellFormed s c w h;
  live = cut-live s c w h;
  channels_keep = λ d other. ground (arith, cut-channel s c w h d);
  ports_are = cut-port s c w h;
  ports_live = (cut-KeepsOwners s c w h).ports_live;
  blocks_keep = (cut-KeepsOwners s c w h).blocks;
  block_names_keep = unfold drop_channel in refl;
  port_names_keep = unfold drop_channel in refl;
  frame = unfold drop_channel in refl;
}
