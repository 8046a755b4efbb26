-- ===== src/Netlist/Invariant/Link.antt =====
-- Creating a channel (`createChannel`) keeps a netlist well formed.
use fpt2022_artifact.Common.{ℕ, ◌≡◌, refl, ◌∙◌, ap, inl, inr, Bool, true, false}
use fpt2022_artifact.Common.{◌||◌, Option, none, some, if◌then◌else◌, ◌==◌, arith, length}
use fpt2022_artifact.Common.{Bool-cases, ==→eq}
use fpt2022_artifact.Common.Int.{ℤ}
use fpt2022_artifact.Common.Sets.{mem, insert, mem-insert}
use fpt2022_artifact.Slab.{Slab, IsSound, at, put, alloc}
use fpt2022_artifact.Slab.Laws.{put-IsSound, Allocates, alloc-Allocates, live-lt}
use fpt2022_artifact.Slab.Laws.{at-put, length-put}
use fpt2022_artifact.Netlist.Invariant.Frame.{KeepsOwners, keeps-IsOwned}
use fpt2022_artifact.Netlist.Types.{Net, Port, Channel, port_zero, channel_zero}
use fpt2022_artifact.Netlist.Types.{port, channel, valid_channel}
use fpt2022_artifact.Netlist.Channels.{connect, link_ports, init_channel}
use fpt2022_artifact.Netlist.Invariant.{IsWellFormed, HasPort, HasChannel, Joins, IsLink}
use fpt2022_artifact.Netlist.Invariant.Connect.{at-connect, connect-IsSound}

-- A new channel between two ports of the netlist that have none.
module _ (s : Net) (src dst : ℕ) (slots : ℤ) (transparent : Bool) (w : IsWellFormed s)
    (hs : HasPort s src) (hd : HasPort s dst) where
  abbrev linked : Net
  linked = (link_ports src dst slots transparent s).1

  abbrev id : ℕ
  id = (alloc channel_zero Channel.next_free s.channels).0

  link-Allocates :
      Allocates channel_zero Channel.next_free s.channels
        (alloc channel_zero Channel.next_free s.channels)
  link-Allocates = alloc-Allocates channel_zero Channel.next_free s.channels w.channels_sound

  link-live : linked.channels.live ≡ insert id s.channels.live
  unfolding link_ports put
  link-live = link-Allocates.live

  link-ports_live : linked.ports.live ≡ s.ports.live
  unfolding link_ports put
  link-ports_live = refl

  link-vacant : mem id s.channels.live ≡ false
  unfolding link_ports
  link-vacant = link-Allocates.vacant

  link-has : mem id (alloc channel_zero Channel.next_free s.channels).1.live ≡ true
  unfolding link_ports
  link-has = rw link-Allocates.live (mem-insert id id s.channels.live ∙ ground arith)

  pub link-port :
      (p : ℕ)
      → port linked p
        ≡ (if (src == p) || (dst == p) then connect (some id) (port s p) else port s p)
  unfolding link_ports
  link-port p = at-connect (some id) src dst p s.ports w.ports_sound hs hd

  abbrev grown : Slab Channel
  grown = (alloc channel_zero Channel.next_free s.channels).1

  link-channel_new :
      channel linked id ≡ init_channel id src dst slots transparent (at channel_zero grown id)
  unfolding link_ports
  link-channel_new =
      at-put channel_zero Channel.next_free id id (init_channel id src dst slots transparent) grown
        link-Allocates.sound link-has
      ∙ ground arith

  link-channel_old : (c : ℕ) → (id == c) ≡ false → channel linked c ≡ channel s c
  unfolding link_ports
  link-channel_old c other =
      at-put channel_zero Channel.next_free id c (init_channel id src dst slots transparent) grown
        link-Allocates.sound link-has
      ∙ ground (arith, link-Allocates.keeps c)

  link-channels-IsSound : IsSound channel_zero Channel.next_free linked.channels
  unfolding link_ports
  link-channels-IsSound =
      put-IsSound channel_zero Channel.next_free id (init_channel id src dst slots transparent)
        (alloc channel_zero Channel.next_free s.channels).1 link-has link-Allocates.sound

  link-length : length linked.channels.slots ≡ length grown.slots
  unfolding link_ports
  link-length = length-put id (init_channel id src dst slots transparent) grown

  link-channel_ids : (c : ℕ) → valid_channel linked (some c) ≡ mem c linked.channels.live
  unfolding valid_channel
  link-channel_ids c = elim (Bool-cases (id == c)) [
    | inl same ↦ ground (
      arith,
      link-channel_new,
      live-lt channel_zero Channel.next_free linked.channels id link-channels-IsSound,
      link-live,
      mem-insert id id s.channels.live,
      same,
    )
    | inr other ↦ ground (
      arith,
      link-channel_old c other,
      w.channel_ids c,
      link-length,
      link-live,
      link-Allocates.range c other,
      mem-insert id c s.channels.live,
      other,
    )
  ]

  link-blocks : linked.blocks ≡ s.blocks
  unfolding link_ports
  link-blocks = refl

  link-ports-IsSound : IsSound port_zero Port.next_free linked.ports
  unfolding link_ports
  link-ports-IsSound = connect-IsSound (some id) src dst s.ports w.ports_sound hs hd

  link-ports_length : length linked.ports.slots ≡ length s.ports.slots
  unfolding link_ports
  link-ports_length =
      length-put src (connect (some id)) (put dst (connect (some id)) s.ports)
      ∙ length-put dst (connect (some id)) s.ports

  link-HasPort : (p : ℕ) → HasPort s p → HasPort linked p
  link-HasPort p h = ground (arith, link-ports_live)

  link-other : (c : ℕ) → HasChannel s c → (id == c) ≡ false
  link-other c h = ground (arith, link-vacant)

  linked-IsLink : (p : ℕ) (c : Option ℕ) → IsLink s p c → IsLink linked p c
  linked-IsLink p none h = tt
  linked-IsLink p (some c) h = (
    ground (arith, h.0, link-live, mem-insert id c s.channels.live),
    rw (link-channel_old c (link-other c h.0)) h.1,
  )

  linked-IsLink_all : (p : ℕ) → HasPort linked p → IsLink linked p (port linked p).channel
  linked-IsLink_all p h = elim (Bool-cases ((src == p) || (dst == p))) [
    | inl end ↦
        let written : (port linked p).channel ≡ some id = ground (arith, link-port p, end) in
        rw written (
          ground (arith, link-live, mem-insert id id s.channels.live),
          ground (arith, link-channel_new, end),
        )
    | inr other ↦
        let kept : port linked p ≡ port s p = ground (arith, link-port p, other) in
        rw kept (linked-IsLink p (port s p).channel (w.links p (ground (arith, link-ports_live))))
  ]

  -- What the sets of a block say of a port does not change.
  link-same :
      (p : ℕ)
      → ((port linked p).block ≡ (port s p).block)
        × ((port linked p).is_input ≡ (port s p).is_input)
        × ((port linked p).id ≡ (port s p).id)
  link-same p = ground (arith, link-port p)

  module _ (src_free : (port s src).channel ≡ none) (dst_free : (port s dst).channel ≡ none)
      (src_out : (port s src).is_input ≡ false) (dst_in : (port s dst).is_input ≡ true) where
    link-Joins_new : Joins linked id src dst
    link-Joins_new = record {
      src_exists = link-HasPort src hs;
      dst_exists = link-HasPort dst hd;
      src_output = ground (arith, link-same src);
      dst_input = ground (arith, link-same dst);
      src_names = ground (arith, link-port src);
      dst_names = ground (arith, link-port dst);
    }

    link-Joins_old : (c p q : ℕ) → Joins s c p q → Joins linked c p q
    link-Joins_old c p q j = record {
      src_exists = link-HasPort p j.src_exists;
      dst_exists = link-HasPort q j.dst_exists;
      src_output = ground (arith, link-same p);
      dst_input = ground (arith, link-same q);
      src_names = ground (arith, link-port p);
      dst_names = ground (arith, link-port q);
    }

    linked-Joins_all :
        (c : ℕ) → HasChannel linked c → Joins linked c (channel linked c).src (channel linked c).dst
    linked-Joins_all c h = elim (Bool-cases (id == c)) [
      | inl same ↦ rw (← ==→eq id c same) (
          rw (ap Channel.src link-channel_new)
            (rw (ap Channel.dst link-channel_new) link-Joins_new))
      | inr other ↦ rw (link-channel_old c other) (
          link-Joins_old c (channel s c).src (channel s c).dst
            (w.joins c (ground (arith, link-live, mem-insert id c s.channels.live))))
    ]

  link-KeepsOwners : KeepsOwners s linked
  link-KeepsOwners = record {
    blocks = link-blocks;
    ports_live = link-ports_live;
    ports_length = link-ports_length;
    same_block = λ p. (link-same p).0;
    same_input = λ p. (link-same p).1;
    same_id = λ p. (link-same p).2;
  }

  -- Linking two ports that have no channel, an output to an input, keeps the netlist well formed.
  pub link_ports-IsWellFormed :
      (port s src).channel ≡ none
      → (port s dst).channel ≡ none
      → (port s src).is_input ≡ false
      → (port s dst).is_input ≡ true
      → IsWellFormed linked
  link_ports-IsWellFormed fs fd out inp = record {
    blocks_sound = rw link-blocks w.blocks_sound;
    ports_sound = link-ports-IsSound;
    channels_sound = link-channels-IsSound;
    channel_ids = link-channel_ids;
    joins = linked-Joins_all fs fd out inp;
    links = linked-IsLink_all;
    ownership = keeps-IsOwned s linked w.ownership link-KeepsOwners;
  }

-- Two ports can be connected: an output and an input that exist and have no channel.
pub record CanConnect (s : Net) (src dst : ℕ) : Type 0 where
  pub src_exists : HasPort s src
  pub dst_exists : HasPort s dst
  pub src_output : (port s src).is_input ≡ false
  pub dst_input : (port s dst).is_input ≡ true
  pub src_free : (port s src).channel ≡ none
  pub dst_free : (port s dst).channel ≡ none

-- A new channel joins the two ports, with the slots and transparency asked for; nothing else
-- changes.
pub record Connects (s : Net) (src dst : ℕ) (slots : ℤ) (transparent : Bool) (r : ℕ × Net)
    : Type 0 where
  pub formed : IsWellFormed r.1
  pub fresh : mem r.0 s.channels.live ≡ false
  pub live : r.1.channels.live ≡ insert r.0 s.channels.live
  pub src_is : (channel r.1 r.0).src ≡ src
  pub dst_is : (channel r.1 r.0).dst ≡ dst
  pub slots_are : (channel r.1 r.0).slots ≡ slots
  pub transparent_is : (channel r.1 r.0).transparent ≡ transparent
  pub forward : (channel r.1 r.0).back_edge ≡ false
  pub joins : Joins r.1 r.0 src dst
  pub channels_keep : (c : ℕ) → HasChannel s c → channel r.1 c ≡ channel s c
  pub ports_are :
      (p : ℕ)
      → port r.1 p ≡ (if (src == p) || (dst == p) then connect (some r.0) (port s p) else port s p)
  pub ports_live : r.1.ports.live ≡ s.ports.live
  pub blocks_keep : r.1.blocks ≡ s.blocks

pub link_ports-Connects :
    (s : Net) (src dst : ℕ) (slots : ℤ) (transparent : Bool)
    → IsWellFormed s
    → CanConnect s src dst
    → Connects s src dst slots transparent (link_ports src dst slots transparent s)
link_ports-Connects s src dst slots transparent w k =
    let hs = k.src_exists in
    let hd = k.dst_exists in
    let new = link-channel_new s src dst slots transparent w hs hd in
    unfold link_ports in
    record {
      formed =
          link_ports-IsWellFormed s src dst slots transparent w hs hd k.src_free k.dst_free
            k.src_output k.dst_input;
      fresh = link-vacant s src dst slots transparent w hs hd;
      live = link-live s src dst slots transparent w hs hd;
      src_is = ap Channel.src new;
      dst_is = ap Channel.dst new;
      slots_are = ap Channel.slots new;
      transparent_is = ap Channel.transparent new;
      forward = ap Channel.back_edge new;
      joins =
          link-Joins_new s src dst slots transparent w hs hd k.src_free k.dst_free k.src_output
            k.dst_input;
      channels_keep = λ c h.
          link-channel_old s src dst slots transparent w hs hd c
            (link-other s src dst slots transparent w hs hd c h);
      ports_are = link-port s src dst slots transparent w hs hd;
      ports_live = link-ports_live s src dst slots transparent w hs hd;
      blocks_keep = link-blocks s src dst slots transparent w hs hd;
    }
