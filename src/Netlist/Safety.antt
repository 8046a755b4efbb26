-- ===== src/Netlist/Safety.antt =====
-- The operations of a netlist, assertions included, on well-formed netlists: they return, they keep
-- the netlist well formed, and so every netlist that they build from the empty one is well formed.
use fpt2022_artifact.Common.{
  ◌||◌, if◌then◌else◌, ℕ, ◌≡◌, refl, ◌∙◌, Bool, true, false, not, ◌&&◌, ◌⊎◌,
}
use fpt2022_artifact.Common.{Option, none, some, inl, inr, ◌==◌, Bool-cases}
use fpt2022_artifact.Common.{Option-cases, [], ◌++◌, is_some, ◌↔◌}
use fpt2022_artifact.Common.Int.{ℤ}
use fpt2022_artifact.Common.Sets.{mem}
use fpt2022_artifact.Common.Text.{Str, codes, lookup, is_empty, remove}
use fpt2022_artifact.Netlist.Types.{Net, BlockType, PortType, block, port, channel}
use fpt2022_artifact.Netlist.Names.{gen_block_name, gen_block_name-IsFresh}
use fpt2022_artifact.Netlist.Names.{gen_fresh_port_name-IsFresh}
use fpt2022_artifact.Netlist.Names.{gen_fresh_port_name}
use fpt2022_artifact.Netlist.Channels.{
  connect, create_channel, remove_channel, link_ports, drop_channel,
}
use fpt2022_artifact.Netlist.Ports.{
  create_port, create_named_port, duplicated_port, is_demux, remove_port, drop_port, disown_port,
}
use fpt2022_artifact.Netlist.Blocks.{get_block, create_block, duplicated_block, add_block}
use fpt2022_artifact.Netlist.Invariant.{IsWellFormed, HasBlock, HasPort, HasChannel}
use fpt2022_artifact.Netlist.Invariant.Frame.{HasPort-valid}
use fpt2022_artifact.Netlist.Invariant.Link.{CanConnect, Connects, link_ports-Connects}
use fpt2022_artifact.Netlist.Invariant.Cut.{Disconnects, drop_channel-Disconnects}
use fpt2022_artifact.Netlist.Invariant.Unport.{
  drop_port-IsWellFormed, drop_port-live, drop_port-port, drop_port-channels, drop_port-channel,
  drop_port-links, drop_port-blocks, drop_port-block, drop_port-names, drop_port-frame,
}
use fpt2022_artifact.Netlist.Invariant.NewPort.{MakesPort, add_port-MakesPort, add_port_total}
use fpt2022_artifact.Netlist.Invariant.NewBlock.{MakesBlock, add_block-MakesBlock}

-- `createChannel` on an output and an input port of the netlist that have no channel passes its
-- assertions, joins them by a new channel, and keeps the netlist well formed.
pub create_channel-Connects :
    (s : Net) (src dst : ℕ) (slots : ℤ) (transparent : Bool)
    → IsWellFormed s
    → CanConnect s src dst
    → (r : ℕ × Net) × (create_channel (some src) (some dst) slots transparent s ≡ some r)
      × Connects s src dst slots transparent r
unfolding create_channel
create_channel-Connects s src dst slots transparent w k =
    let vs = HasPort-valid s src w k.src_exists in
    let vd = HasPort-valid s dst w k.dst_exists in
    (
      link_ports src dst slots transparent s,
      rw (vs, create_channel) (rw (vd, k.src_output, k.dst_input) refl),
      link_ports-Connects s src dst slots transparent w k,
    )

-- `removeChannel` on a channel of the netlist passes its assertion, takes the channel away from the
-- netlist and from its two ports, changes nothing else, and keeps the netlist well formed.
pub remove_channel-Disconnects :
    (s : Net) (c : ℕ)
    → IsWellFormed s
    → HasChannel s c
    → (t : Net) × (remove_channel (some c) s ≡ some (tt, t)) × Disconnects s c t
unfolding remove_channel
remove_channel-Disconnects s c w h = (
  drop_channel c s,
  rw (w.channel_ids c ∙ h, remove_channel) refl,
  drop_channel-Disconnects s c w h,
)

-- A channel identifier is valid exactly when `allChannels` has it; `removeChannel` fails its
-- assertion on any other.
pub remove_channel_invalid :
    (s : Net) (c : ℕ)
    → IsWellFormed s
    → mem c s.channels.live ≡ false
    → remove_channel (some c) s ≡ none
unfolding remove_channel
remove_channel_invalid s c w gone = rw (w.channel_ids c ∙ gone, remove_channel) refl

-- What is left without a port.
pub record LosesPort (s : Net) (p : ℕ) (t : Net) : Type 0 where
  pub formed : IsWellFormed t
  pub ports_left : (q : ℕ) → mem q t.ports.live ≡ (not (p == q) && mem q s.ports.live)
  pub ports_keep : (q : ℕ) → HasPort t q → port t q ≡ connect (port t q).channel (port s q)
  pub links_keep :
      (q d : ℕ)
      → HasPort t q
      → ((port t q).channel ≡ some d) ↔ (((port s q).channel ≡ some d) × HasChannel t d)
  pub channels_left :
      (d : ℕ)
      → mem d t.channels.live
        ≡ (not (((channel s d).src == p) || ((channel s d).dst == p)) && mem d s.channels.live)
  pub channels_keep : (d : ℕ) → HasChannel t d → channel t d ≡ channel s d
  pub blocks_left : (c : ℕ) → mem c t.blocks.live ≡ mem c s.blocks.live
  pub blocks_are :
      (c : ℕ)
      → block t c ≡ (
          if (port s p).block == c
          then disown_port p (port s p).is_input (block s c)
          else block s c)
  pub names : t.name2port ≡ remove (port s p).full_name s.name2port
  pub frame : t ≡ record s {
    blocks = t.blocks;
    ports = t.ports;
    channels = t.channels;
    name2port = t.name2port;
  }

-- `removePort` on a port of a well-formed netlist returns; the netlist stays well formed, and it has
-- lost this port, the entry of its full name, its place in the port sets of its block, and the
-- channels at the port, which the port at the other end no longer names. Every other port, channel
-- and block, and everything else, stays.
pub remove_port-LosesPort :
    (s : Net) (p : ℕ)
    → IsWellFormed s
    → HasPort s p
    → (t : Net) × (remove_port (some p) s ≡ some (tt, t)) × LosesPort s p t
unfolding remove_port
remove_port-LosesPort s p w h = (
  drop_port p s,
  rw (HasPort-valid s p w h, remove_port) refl,
  record {
    formed = drop_port-IsWellFormed s p w h;
    ports_left = drop_port-live s p w h;
    ports_keep = drop_port-port s p w h;
    links_keep = drop_port-links s p w h;
    channels_left = drop_port-channels s p w h;
    channels_keep = drop_port-channel s p w h;
    blocks_left = drop_port-blocks s p w h;
    blocks_are = drop_port-block s p w h;
    names = drop_port-names s p w h;
    frame = drop_port-frame s p;
  },
)

-- The two ways in which `createPort` returns: the full name is taken, and only the error message
-- changes; or the port is made.
pub data PortOutcome (s : Net) (b : ℕ) (is_input : Bool) (name : Str) (width : ℤ) (type : PortType)
    (r : Option ℕ × Net) : Type 0 where
  taken :
      is_some (lookup ((block s b).name ++ codes ":" ++ name) s.name2port) ≡ true
      → r ≡ (none, duplicated_port ((block s b).name ++ codes ":" ++ name) s)
      → PortOutcome s b is_input name width type r
  made :
      lookup ((block s b).name ++ codes ":" ++ name) s.name2port ≡ none
      → MakesPort s b is_input name ((block s b).name ++ codes ":" ++ name) width type r
      → PortOutcome s b is_input name width type r

-- With an empty name, `createPort` on a block of a well-formed netlist, not a demux, ends its search
-- for a name, and makes the port under the generated local name, whose full name no port of the
-- netlist has.
pub create_port_generated :
    (s : Net) (b : ℕ) (is_input : Bool) (width : ℤ) (type : PortType)
    → IsWellFormed s
    → HasBlock s b
    → is_demux (block s b).type ≡ false
    → (r : Option ℕ × Net) × (localname : Str) × (create_port (some b) is_input [] width type s
        ≡ some r)
      × (gen_fresh_port_name (block s b).name is_input s ≡ some localname)
      × (lookup ((block s b).name ++ codes ":" ++ localname) s.name2port ≡ none)
      × MakesPort s b is_input localname ((block s b).name ++ codes ":" ++ localname) width type r
unfolding create_port create_named_port
create_port_generated s b is_input width type w h plain =
    let f = gen_fresh_port_name-IsFresh (block s b).name is_input s in
    let full = (block s b).name ++ codes ":" ++ f.name in
    let (r, e) = add_port_total s b is_input f.name full width type w h plain in
    (
      r,
      f.name,
      rw (w.ownership.block_ids b ∙ h, create_port)
          (rw f.result (rw (f.unused, create_named_port) e)),
      f.result,
      f.unused,
      add_port-MakesPort s b is_input f.name full width type w h r e,
    )

-- The two ways in which `createBlock` returns.
pub data BlockOutcome (s : Net) (type : BlockType) (name : Str) (r : Option ℕ × Net) : Type 0 where
  duplicated :
      is_some (lookup name s.name2block) ≡ true
      → r ≡ (none, duplicated_block name s)
      → BlockOutcome s type name r
  created :
      (gname : Str) (idx : ℕ)
      → r.0 ≡ some idx
      → ((is_empty name ≡ true) × (gen_block_name type s ≡ some gname))
        ⊎ ((is_empty name ≡ false) × (gname ≡ name))
      → lookup gname s.name2block ≡ none
      → MakesBlock s type gname idx r.1
      → BlockOutcome s type name r

-- `createBlock` on a well-formed netlist always returns: either the name is taken,
-- `invalidDataflowID` is returned and only the error message changes, or there is a new block of the
-- type without ports, under the name that was asked for or, if that is empty, under a generated one;
-- the name was not taken and is entered for the block. Every other block and entry, and everything
-- else but the number of blocks, which is one more, stays, and the netlist stays well formed.
pub create_block-BlockOutcome :
    (s : Net) (type : BlockType) (name : Str)
    → IsWellFormed s
    → (r : Option ℕ × Net) × (create_block type name s ≡ some r) × BlockOutcome s type name r
unfolding create_block get_block
create_block-BlockOutcome s type name w = elim (Option-cases (lookup name s.name2block)) [
  | inr (v, dup) ↦ (
    (none, duplicated_block name s),
    rw (dup, create_block, get_block) refl,
    duplicated (rw dup refl) refl,
  )
  | inl new ↦ elim (Bool-cases (is_empty name)) [
    | inl empty ↦
        let f = gen_block_name-IsFresh type s in
        let t = add_block type f.name s in
        (
          (some t.0, t.1),
          rw (new, create_block, get_block) (rw empty (rw f.result refl)),
          created f.name t.0 refl (inl (empty, f.result)) f.unused
              (add_block-MakesBlock s type f.name w),
        )
    | inr named ↦
        let t = add_block type name s in
        (
          (some t.0, t.1),
          rw (new, create_block, get_block) (rw named refl),
          created name t.0 refl (inr (named, refl)) new (add_block-MakesBlock s type name w),
        )
  ]
]
