-- ===== src/Netlist/PortAttributes.antt =====
-- The access methods for ports (Buffers/src/DFnetlist.cpp and DFnetlist.h).
use fpt2022_artifact.Common.{
  ℕ, ◌+◌, Bool, true, false, not, ◌&&◌, Option, none, some, List, [], ◌∷◌,
}
use fpt2022_artifact.Common.{if◌then◌else◌, ◌==◌, length}
use fpt2022_artifact.Common.Int.{ℤ, pos, eqb_ℤ}
use fpt2022_artifact.Common.Text.{Str}
use fpt2022_artifact.Slab.{put}
use fpt2022_artifact.Netlist.Types.{Net, Port, BlockType, PortType, Op, block, port}
use fpt2022_artifact.Netlist.Types.{valid_block, valid_port, branch, demux, first}
use fpt2022_artifact.Netlist.Blocks.{read_block}

unfoldable pub update_port : (Port → Port) → Option ℕ → Op (Unit {0})
update_port f none s = none
update_port f (some p) s =
    if valid_port s (some p) then some (tt, record s { ports = put p f s.ports }) else none

unfoldable pub read_port : {A : Type 0} → (Port → A) → Option ℕ → Net → Option A
read_port f none s = none
read_port f (some p) s = if valid_port s (some p) then some (f (port s p)) else none

-- `getPortName`
abbrev pub get_port_name : Option ℕ → Bool → Net → Option Str
get_port_name p full = read_port (λ q. if full then q.full_name else q.short_name) p

abbrev pub get_port_type : Option ℕ → Net → Option PortType
get_port_type = read_port Port.type

abbrev pub is_input : Option ℕ → Net → Option Bool
is_input = read_port Port.is_input

abbrev pub is_output : Option ℕ → Net → Option Bool
is_output = read_port (λ q. not q.is_input)

abbrev pub set_port_width : Option ℕ → ℤ → Op (Unit {0})
set_port_width p width = update_port (λ q. record q { width = width }) p

abbrev pub get_port_width : Option ℕ → Net → Option ℤ
get_port_width = read_port Port.width

abbrev pub is_boolean_port : Option ℕ → Net → Option Bool
is_boolean_port = read_port (λ q. eqb_ℤ q.width (pos 1))

abbrev pub is_control_port : Option ℕ → Net → Option Bool
is_control_port = read_port (λ q. eqb_ℤ q.width (pos 0))

abbrev pub set_port_delay : Option ℕ → ℕ → Op (Unit {0})
set_port_delay p d = update_port (λ q. record q { delay = d }) p

abbrev pub get_port_delay : Option ℕ → Net → Option ℕ
get_port_delay = read_port Port.delay

abbrev pub set_mem_port_suffix : Option ℕ → Str → Op (Unit {0})
set_mem_port_suffix p op = update_port (λ q. record q { mem_port_suffix = op }) p

abbrev pub get_mem_port_suffix : Option ℕ → Net → Option Str
get_mem_port_suffix = read_port Port.mem_port_suffix

abbrev pub get_definitions : Option ℕ → Net → Option (List ℕ)
get_definitions = read_port Port.defs

-- `numInPorts`, `numOutPorts`
abbrev pub num_in_ports : Option ℕ → Net → Option ℕ
num_in_ports = read_block (λ b. length b.in_ports)

abbrev pub num_out_ports : Option ℕ → Net → Option ℕ
num_out_ports = read_block (λ b. length b.out_ports)

-- `getInPort`, `getOutPort`: the port with the least identifier; they assert nothing.
abbrev pub get_in_port : ℕ → Net → Option ℕ
get_in_port b s = first (block s b).in_ports

abbrev pub get_out_port : ℕ → Net → Option ℕ
get_out_port b s = first (block s b).out_ports

abbrev pub get_conditional_port : Option ℕ → Net → Option (Option ℕ)
get_conditional_port = read_block (λ b. b.roles.port_cond)

abbrev pub get_true_port : Option ℕ → Net → Option (Option ℕ)
get_true_port = read_block (λ b. b.roles.port_true)

abbrev pub get_false_port : Option ℕ → Net → Option (Option ℕ)
get_false_port = read_block (λ b. b.roles.port_false)

abbrev has_data_port : BlockType → Bool
has_data_port branch = true
has_data_port demux = true
has_data_port other = false

-- `getDataPort` asserts that the block is a branch or a demux.
unfoldable pub get_data_port : Option ℕ → Net → Option (Option ℕ)
get_data_port none s = none
get_data_port (some b) s =
    if valid_block s (some b) && has_data_port (block s b).type
    then some (block s b).roles.data_port
    else none

abbrev find_pair : ℕ → List (ℕ × ℕ) → Option ℕ
find_pair p [] = none
find_pair p ((j, w) ∷ m) = if j == p then some w else find_pair p m

-- `getDemuxComplementaryPort`
unfoldable pub get_demux_complementary_port : Option ℕ → Net → Option (Option ℕ)
get_demux_complementary_port none s = none
get_demux_complementary_port (some p) s =
    if valid_port s (some p)
    then some (find_pair p (block s (port s p).block).demux_pairs)
    else none

-- `getCombinationalDelay`, with its assertions, in thousandths.
unfoldable pub get_combinational_delay : Option ℕ → Option ℕ → Net → Option ℕ
get_combinational_delay (some inp) (some outp) s =
    let b = (port s inp).block in
    if valid_port s (some inp)
      && valid_port s (some outp)
      && (port s inp).is_input
      && not (port s outp).is_input
      && (b == (port s outp).block)
      && valid_block s (some b)
      && eqb_ℤ (block s b).attrs.latency (pos 0)
    then some ((port s inp).delay + (port s outp).delay + (block s b).attrs.delay)
    else none
get_combinational_delay none outp s = none
get_combinational_delay (some inp) none s = none
