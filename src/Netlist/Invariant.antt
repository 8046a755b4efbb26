-- ===== src/Netlist/Invariant.antt =====
-- What holds of every netlist that the operations of `DFnetlist_Impl` build: the three slot
-- vectors are sound, an identifier in a set of existing objects is valid, each channel and its two
-- ports name one another, and each port and its owner name one another.
pub mod Frame
pub mod Connect
pub mod Link
pub mod Cut
pub mod Detach
pub mod Unport
pub mod Pairing
pub mod Install
pub mod NewPort
pub mod NewBlock
pub mod Unslot
pub mod Unblock
pub mod Updates
use fpt2022_artifact.Common.{
  ℕ, suc, ◌≡◌, ◌⊎◌, Bool, true, false, not, ◌&&◌, Option, none, some, [], ◌<◌, length,
}
use fpt2022_artifact.Common.Sets.{mem, IsOrdered}
use fpt2022_artifact.Slab.{IsSound}
use fpt2022_artifact.Netlist.Types.{Net, Block, Port, Channel, block_zero, port_zero, channel_zero}
use fpt2022_artifact.Netlist.Types.{block, port, channel, valid_block, valid_port, valid_channel}

-- The set `allBlocks`, `allPorts` or `allChannels` has the identifier.
abbrev pub HasBlock : Net → ℕ → Type 0
HasBlock s b = mem b s.blocks.live ≡ true

abbrev pub HasPort : Net → ℕ → Type 0
HasPort s p = mem p s.ports.live ≡ true

abbrev pub HasChannel : Net → ℕ → Type 0
HasChannel s c = mem c s.channels.live ≡ true

-- The two ports of a channel exist, point in the right directions, and name the channel.
pub record Joins (s : Net) (c src dst : ℕ) : Type 0 where
  pub src_exists : HasPort s src
  pub dst_exists : HasPort s dst
  pub src_output : (port s src).is_input ≡ false
  pub dst_input : (port s dst).is_input ≡ true
  pub src_names : (port s src).channel ≡ some c
  pub dst_names : (port s dst).channel ≡ some c

-- What the channel field of a port says: none, or a channel that has the port at one end.
abbrev pub IsLink : Net → ℕ → Option ℕ → Type 0
IsLink s p none = Unit
IsLink s p (some c) = HasChannel s c × (((channel s c).src ≡ p) ⊎ ((channel s c).dst ≡ p))

-- A port set of a block has the ports of the block in one direction.
pub record Owns (s : Net) (b : ℕ) : Type 0 where
  pub exists : (p : ℕ) → mem p (block s b).all_ports ≡ true → HasPort s p
  pub owner : (p : ℕ) → mem p (block s b).all_ports ≡ true → (port s p).block ≡ b
  pub inputs :
      (p : ℕ) → mem p (block s b).in_ports ≡ (mem p (block s b).all_ports && (port s p).is_input)
  pub outputs :
      (p : ℕ)
      → mem p (block s b).out_ports ≡ (mem p (block s b).all_ports && not (port s p).is_input)

-- The slot of a block that does not exist has no ports.
pub record IsVacant (b : Block) : Type 0 where
  pub no_ports : b.all_ports ≡ []
  pub no_inputs : b.in_ports ≡ []
  pub no_outputs : b.out_ports ≡ []

-- Blocks and ports name one another.
pub record IsOwned (s : Net) : Type 0 where
  pub block_ids : (b : ℕ) → valid_block s (some b) ≡ mem b s.blocks.live
  pub port_ids : (p : ℕ) → HasPort s p → (port s p).id ≡ p
  -- The slot of a removed port keeps the identifier 0.
  pub removed_ids :
      (p : ℕ) → mem p s.ports.live ≡ false → p < length s.ports.slots → (port s p).id ≡ 0
  pub owned :
      (p : ℕ)
      → HasPort s p
      → HasBlock s (port s p).block × (mem p (block s (port s p).block).all_ports ≡ true)
  pub owns : (b : ℕ) → HasBlock s b → Owns s b
  pub vacant : (b : ℕ) → mem b s.blocks.live ≡ false → IsVacant (block s b)
  pub ordered : (b : ℕ) → HasBlock s b → IsOrdered (block s b).all_ports

pub record IsWellFormed (s : Net) : Type 0 where
  pub blocks_sound : IsSound block_zero Block.next_free s.blocks
  pub ports_sound : IsSound port_zero Port.next_free s.ports
  pub channels_sound : IsSound channel_zero Channel.next_free s.channels
  pub channel_ids : (c : ℕ) → valid_channel s (some c) ≡ mem c s.channels.live
  pub joins : (c : ℕ) → HasChannel s c → Joins s c (channel s c).src (channel s c).dst
  pub links : (p : ℕ) → HasPort s p → IsLink s p (port s p).channel
  pub ownership : IsOwned s
