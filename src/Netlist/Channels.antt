-- ===== src/Netlist/Channels.antt =====
-- Channels of a netlist (Buffers/src/DFnetlist.cpp): creation, removal and the links that they
-- keep between two ports.
use fpt2022_artifact.Common.{ℕ, ◌+◌, Bool, false, not, ◌&&◌, Option, none, some}
use fpt2022_artifact.Common.{if◌then◌else◌, is_some}
use fpt2022_artifact.Common.Int.{ℤ, is_positive}
use fpt2022_artifact.Slab.{alloc, put, release}
use fpt2022_artifact.Netlist.Types.{Net, Port, Channel, channel_zero, port, channel, Op}
use fpt2022_artifact.Netlist.Types.{valid_port, valid_channel}

-- `isInputPort`, `isOutputPort`, after their assertions.
abbrev pub is_input_port : Net → ℕ → Bool
is_input_port s p = (port s p).is_input

abbrev pub is_output_port : Net → ℕ → Bool
is_output_port s p = not (port s p).is_input

abbrev pub init_channel : ℕ → ℕ → ℕ → ℤ → Bool → Channel → Channel
init_channel id src dst slots transparent c = record c {
  id = some id;
  src = src;
  dst = dst;
  slots = slots;
  transparent = transparent;
  back_edge = false;
  next_free = none;
}

abbrev pub connect : Option ℕ → Port → Port
connect c p = record p { channel = c }

-- The body of `createChannel`, after its assertions.
unfoldable pub link_ports : ℕ → ℕ → ℤ → Bool → Net → ℕ × Net
link_ports src dst slots transparent s =
    let (id, cs) = alloc channel_zero Channel.next_free s.channels in
    (
      id,
      record s {
        n_channels = s.n_channels + 1;
        channels = put id (init_channel id src dst slots transparent) cs;
        ports = put src (connect (some id)) (put dst (connect (some id)) s.ports);
      },
    )

unfoldable pub create_channel : Option ℕ → Option ℕ → ℤ → Bool → Op ℕ
create_channel (some src) (some dst) slots transparent s =
    if valid_port s (some src)
      && valid_port s (some dst)
      && is_output_port s src
      && is_input_port s dst
    then some (link_ports src dst slots transparent s)
    else none
create_channel (some src) none slots transparent s = none
create_channel none dst slots transparent s = none

abbrev pub reset_channel : Option ℕ → Channel → Channel
reset_channel link c = record c { id = none; next_free = link }

-- The body of `removeChannel`, after its assertion. `nChannels` keeps its value.
unfoldable pub drop_channel : ℕ → Net → Net
drop_channel c s =
    let ch = channel s c in
    record s {
      channels = release c reset_channel s.channels;
      ports = put ch.src (connect none) (put ch.dst (connect none) s.ports);
    }

unfoldable pub remove_channel : Option ℕ → Op (Unit {0})
remove_channel none s = none
remove_channel (some c) s = if valid_channel s (some c) then some (tt, drop_channel c s) else none

-- `getConnectedChannel`
unfoldable pub get_connected_channel : Option ℕ → Net → Option (Option ℕ)
get_connected_channel none s = none
get_connected_channel (some p) s = if valid_port s (some p) then some (port s p).channel else none

-- `isPortConnected`
unfoldable pub is_port_connected : Option ℕ → Net → Option Bool
is_port_connected p s = elim (get_connected_channel p s) [ none ↦ none | some c ↦ some (is_some c) ]

-- `getSrcPort` and `getDstPort`
unfoldable pub get_src_port : Option ℕ → Net → Option ℕ
get_src_port none s = none
get_src_port (some c) s = if valid_channel s (some c) then some (channel s c).src else none

unfoldable pub get_dst_port : Option ℕ → Net → Option ℕ
get_dst_port none s = none
get_dst_port (some c) s = if valid_channel s (some c) then some (channel s c).dst else none

-- `getConnectedPort`: the port at the other end of the channel.
unfoldable pub get_connected_port : Option ℕ → Net → Option ℕ
get_connected_port none s = none
get_connected_port (some p) s =
    if valid_port s (some p)
    then if is_input_port s p
      then get_src_port (port s p).channel s
      else get_dst_port (port s p).channel s
    else none

-- `getBlockFromPort`, `getSrcBlock` and `getDstBlock`
unfoldable pub get_block_from_port : Option ℕ → Net → Option ℕ
get_block_from_port none s = none
get_block_from_port (some p) s = if valid_port s (some p) then some (port s p).block else none

unfoldable pub get_src_block : Option ℕ → Net → Option ℕ
get_src_block c s = elim (get_src_port c s) [
  | none ↦ none
  | some p ↦ get_block_from_port (some p) s
]

unfoldable pub get_dst_block : Option ℕ → Net → Option ℕ
get_dst_block c s = elim (get_dst_port c s) [
  | none ↦ none
  | some p ↦ get_block_from_port (some p) s
]

-- Updates of one channel: `setChannelBufferSize`, `setChannelTransparency`, `setBackEdge`,
-- `setChannelFrequency` and `markChannel` assert that the channel is valid and write one field.
unfoldable pub update_channel : (Channel → Channel) → Option ℕ → Op (Unit {0})
update_channel f none s = none
update_channel f (some c) s =
    if valid_channel s (some c) then some (tt, record s { channels = put c f s.channels }) else none

abbrev pub set_channel_buffer_size : Option ℕ → ℤ → Op (Unit {0})
set_channel_buffer_size c slots = update_channel (λ ch. record ch { slots = slots }) c

abbrev pub set_channel_transparency : Option ℕ → Bool → Op (Unit {0})
set_channel_transparency c value = update_channel (λ ch. record ch { transparent = value }) c

abbrev pub set_channel_frequency : Option ℕ → ℕ → Op (Unit {0})
set_channel_frequency c value = update_channel (λ ch. record ch { freq = value }) c

abbrev pub set_back_edge : Option ℕ → Bool → Op (Unit {0})
set_back_edge c value = update_channel (λ ch. record ch { back_edge = value }) c

abbrev pub mark_channel : Option ℕ → Bool → Op (Unit {0})
mark_channel c value = update_channel (λ ch. record ch { mark = value }) c

-- A read of one channel, after the assertion that it is valid.
unfoldable pub read_channel : {A : Type 0} → (Channel → A) → Option ℕ → Net → Option A
read_channel f none s = none
read_channel f (some c) s = if valid_channel s (some c) then some (f (channel s c)) else none

abbrev pub get_channel_buffer_size : Option ℕ → Net → Option ℤ
get_channel_buffer_size = read_channel Channel.slots

abbrev pub is_channel_transparent : Option ℕ → Net → Option Bool
is_channel_transparent = read_channel Channel.transparent

abbrev pub get_channel_frequency : Option ℕ → Net → Option ℕ
get_channel_frequency = read_channel Channel.freq

abbrev pub is_back_edge : Option ℕ → Net → Option Bool
is_back_edge = read_channel Channel.back_edge

abbrev pub is_channel_marked : Option ℕ → Net → Option Bool
is_channel_marked = read_channel Channel.mark

abbrev pub has_buffer : Option ℕ → Net → Option Bool
has_buffer = read_channel (λ ch. is_positive ch.slots)
