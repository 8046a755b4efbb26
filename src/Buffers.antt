-- ===== src/Buffers.antt =====
-- Elastic buffers (Buffers/src/DFnetlist_buffers.cpp): a buffer is a property of a channel (its
-- slots and its transparency) or a block between two channels, and these methods change the one
-- into the other.
pub mod Parts
pub mod Make
pub mod Rewire
pub mod Outcome
pub mod Insert
pub mod Instantiate
pub mod Remove
pub mod RoundTrip
mod Tests
use fpt2022_artifact.Common.{ℕ, Bool, true, false, ◌&&◌, ◌||◌, Option, none, some, List, [], ◌∷◌}
use fpt2022_artifact.Common.{if◌then◌else◌, ltb}
use fpt2022_artifact.Common.Int.{ℤ, pos, eqb_ℤ}
use fpt2022_artifact.Common.Text.{codes}
use fpt2022_artifact.Netlist.Types.{Net, BlockType, elastic_buffer, mux, merge}
use fpt2022_artifact.Netlist.Types.{generic_port, Op, ◌>>=◌, ◌>>◌, ret, look}
use fpt2022_artifact.Netlist.Channels.{create_channel, remove_channel, get_src_port, get_dst_port}
use fpt2022_artifact.Netlist.Channels.{
  get_src_block, get_connected_channel, is_back_edge, set_back_edge,
}
use fpt2022_artifact.Netlist.Channels.{has_buffer, get_channel_buffer_size, is_channel_transparent}
use fpt2022_artifact.Netlist.Channels.{set_channel_buffer_size, set_channel_transparency}
use fpt2022_artifact.Netlist.Ports.{create_port}
use fpt2022_artifact.Netlist.Blocks.{create_block, remove_block}
use fpt2022_artifact.Netlist.Attributes.{get_basic_block, set_basic_block, set_buffer_size}
use fpt2022_artifact.Netlist.Attributes.{set_buffer_transparency, get_block_type, get_buffer_size}
use fpt2022_artifact.Netlist.Attributes.{is_buffer_transparent}
use fpt2022_artifact.Netlist.PortAttributes.{
  get_port_width, get_in_port, get_out_port, num_in_ports,
}

-- The part of `insertBuffer` that makes the block: its slots, transparency and basic block, and its
-- two ports. A block or port that could not be created is `none`, as for -1.
unfoldable pub make_buffer : ℤ → Bool → Option ℕ → ℤ → Op (Option ℕ × Option ℕ × Option ℕ)
make_buffer slots transparent bb width = do
  eb ← create_block elastic_buffer []
  set_buffer_size eb slots
  set_buffer_transparency eb transparent
  set_basic_block eb bb
  in_buf ← create_port eb true (codes "in1") width generic_port
  out_buf ← create_port eb false (codes "out1") width generic_port
  ret (eb, in_buf, out_buf)

-- `insertBuffer`
unfoldable pub insert_buffer : Option ℕ → ℤ → Bool → Op (Option ℕ)
insert_buffer c slots transparent = do
  src ← look (get_src_port c)
  dst ← look (get_dst_port c)
  back ← look (is_back_edge c)
  b_src ← look (get_src_block c)
  bb_src ← look (get_basic_block (some b_src))
  remove_channel c
  width ← look (get_port_width (some src))
  made ← make_buffer slots transparent bb_src width
  c_in ← create_channel (some src) made.1 (pos 0) true
  new_c ← create_channel made.2 (some dst) (pos 0) true
  set_back_edge (some new_c) back
  ret made.0

unfoldable pub is_elastic_buffer : BlockType → Bool
is_elastic_buffer elastic_buffer = true
is_elastic_buffer other = false

-- `assert(getBlockType(buf) == ELASTIC_BUFFER)`
unfoldable pub assert_buffer : Option ℕ → Net → Option (Unit {0})
assert_buffer buf s = elim (get_block_type buf s) [
  | none ↦ none
  | some t ↦ if is_elastic_buffer t then some tt else none
]

-- The first input and output port of a block (`getInPort`, `getOutPort`).
abbrev pub in_port_of : Option ℕ → Net → Option (Option ℕ)
in_port_of none s = none
in_port_of (some b) s = some (get_in_port b s)

abbrev pub out_port_of : Option ℕ → Net → Option (Option ℕ)
out_port_of none s = none
out_port_of (some b) s = some (get_out_port b s)

-- `removeBuffer`; it returns the new channel.
unfoldable pub remove_buffer : Option ℕ → Op ℕ
remove_buffer buf = do
  look (assert_buffer buf)
  inp ← look (in_port_of buf)
  c_in ← look (get_connected_channel inp)
  in_port ← look (get_src_port c_in)
  outp ← look (out_port_of buf)
  c_out ← look (get_connected_channel outp)
  out_port ← look (get_dst_port c_out)
  remove_block buf
  create_channel (some in_port) (some out_port) (pos 0) true

-- The channels with a buffer, in the order of `allChannels`.
unfoldable pub buffered : List ℕ → Net → Option (List ℕ)
buffered [] s = some []
buffered (c ∷ cs) s = elim (has_buffer (some c) s) [
  | none ↦ none
  | some b ↦ elim (buffered cs s) [ none ↦ none | some rest ↦ some (if b then c ∷ rest else rest) ]
]

abbrev pub is_mux : BlockType → Bool
is_mux mux = true
is_mux other = false

abbrev pub is_merge : BlockType → Bool
is_merge merge = true
is_merge other = false

-- Muxes, and merges with more than one input, have an internal buffer.
abbrev pub has_internal_buffer : BlockType → ℕ → Bool
has_internal_buffer t inputs = is_mux t || (is_merge t && ltb 1 inputs)

-- One round of `instantiateElasticBuffers`.
unfoldable pub instantiate_buffer : ℕ → Op (Unit {0})
instantiate_buffer c = do
  src ← look (get_src_block (some c))
  t ← look (get_block_type (some src))
  inputs ← look (num_in_ports (some src))
  slots ← look (get_channel_buffer_size (some c))
  transparent ← look (is_channel_transparent (some c))
  if has_internal_buffer t inputs && (eqb_ℤ slots (pos 1) && transparent)
      then ret tt
      else if has_internal_buffer t inputs && eqb_ℤ slots (pos 2)
      then insert_buffer (some c) (pos 1) transparent >>= (λ _. ret tt)
      else insert_buffer (some c) slots transparent >>= (λ _. ret tt)

unfoldable pub for_each : (ℕ → Op (Unit {0})) → List ℕ → Op (Unit {0})
for_each f [] = ret tt
for_each f (c ∷ cs) = f c >> for_each f cs

unfoldable pub instantiate_elastic_buffers : Op (Unit {0})
instantiate_elastic_buffers s =
    (look (buffered s.channels.live) >>= λ ebs. for_each instantiate_buffer ebs) s

-- The elastic buffers, in the order of `allBlocks`.
unfoldable pub buffer_blocks : List ℕ → Net → Option (List ℕ)
buffer_blocks [] s = some []
buffer_blocks (b ∷ bs) s = elim (get_block_type (some b) s) [
  | none ↦ none
  | some t ↦ elim (buffer_blocks bs s) [
    | none ↦ none
    | some rest ↦ some (if is_elastic_buffer t then b ∷ rest else rest)
  ]
]

-- One round of `hideElasticBuffers`.
unfoldable pub hide_buffer : ℕ → Op (Unit {0})
hide_buffer b = do
  slots ← look (get_buffer_size (some b))
  transparent ← look (is_buffer_transparent (some b))
  c ← remove_buffer (some b)
  set_channel_buffer_size (some c) slots
  set_channel_transparency (some c) transparent

unfoldable pub hide_elastic_buffers : Op (Unit {0})
hide_elastic_buffers s = (look (buffer_blocks s.blocks.live) >>= λ bls. for_each hide_buffer bls) s

unfoldable pub clean_channel : ℕ → Op (Unit {0})
clean_channel c = do
  set_channel_buffer_size (some c) (pos 0)
  set_channel_transparency (some c) true

unfoldable pub clean_elastic_buffers : Op (Unit {0})
clean_elastic_buffers = hide_elastic_buffers >>= λ _ s. for_each clean_channel s.channels.live s
