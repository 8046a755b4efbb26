-- ===== src/Netlist/Ports.antt =====
-- Ports of a netlist (Buffers/src/DFnetlist.cpp): creation, with the pairing of the ports of a
-- demux, and removal, with the removal of the channel.
use fpt2022_artifact.Common.{ℕ, ◌+◌, Bool, true, false, Option, none, some, List, [], ◌∷◌, ◌++◌}
use fpt2022_artifact.Common.{if◌then◌else◌, is_some, ◌==◌}
use fpt2022_artifact.Common.Int.{ℤ}
use fpt2022_artifact.Common.Sets.{insert, erase}
use fpt2022_artifact.Common.Text.{Str, codes, is_empty, lookup, emplace, remove}
use fpt2022_artifact.Slab.{alloc, put, release}
use fpt2022_artifact.Netlist.Types.{Net, Block, Port, BlockType, PortType, PortDirection, demux}
use fpt2022_artifact.Netlist.Types.{
  input_ports, output_ports, all_ports, port_zero, block, port, Op,
}
use fpt2022_artifact.Netlist.Types.{valid_block, valid_port, valid_channel, set_error}
use fpt2022_artifact.Netlist.Names.{gen_fresh_port_name}
use fpt2022_artifact.Netlist.Channels.{drop_channel}

-- The port sets of the owner of a new port.
abbrev pub own_port : ℕ → Bool → Block → Block
own_port p is_input b = record b {
  all_ports = insert p b.all_ports;
  in_ports = if is_input then insert p b.in_ports else b.in_ports;
  out_ports = if is_input then b.out_ports else insert p b.out_ports;
}

-- `map.emplace` on the pairs of a demux.
abbrev pub emplace_pair : ℕ → ℕ → List (ℕ × ℕ) → List (ℕ × ℕ)
emplace_pair k v [] = (k, v) ∷ []
emplace_pair k v ((j, w) ∷ m) = if j == k then (j, w) ∷ m else (j, w) ∷ emplace_pair k v m

-- The end of the pairing: the last input port that waits is the data port.
abbrev pub settle_data : List ℕ → Block → Block
settle_data [] b = record b { list_ports = [] }
settle_data (d ∷ []) b = record b { list_ports = []; roles = record b.roles { data_port = some d } }
settle_data (p ∷ q ∷ ps) b = record b { list_ports = p ∷ q ∷ ps }

-- An output port `pid` of a demux is paired with the first input port that waits; there must be
-- one (`assert(not B.listPorts.empty())`).
unfoldable pub pair_output : ℕ → List ℕ → Block → Option Block
pair_output pid [] b = none
pair_output pid (inp ∷ waiting) b = some (
    settle_data waiting
      (record b { demux_pairs = emplace_pair inp pid (emplace_pair pid inp b.demux_pairs) }))

unfoldable pub is_demux : BlockType → Bool
is_demux demux = true
is_demux other = false

-- The special treatment of a demux in `createPort`.
unfoldable pub pair_demux : ℕ → Bool → Block → Option Block
pair_demux pid is_input b =
    if is_demux b.type
    then if is_input
      then some (record b { list_ports = b.list_ports ++ pid ∷ [] })
      else pair_output pid b.list_ports b
    else some b

-- Each field that `createPort` sets. `nextFree`, `defs` and the memory suffix are left alone.
abbrev pub init_port : ℕ → ℕ → Str → Str → Bool → ℤ → PortType → Port → Port
init_port pid b localname fullname is_input width type p = record p {
  id = pid;
  block = b;
  short_name = localname;
  full_name = fullname;
  is_input = is_input;
  width = width;
  delay = 0;
  type = type;
  channel = none;
}

-- `createPort` behind the check for duplication: the new port and its owner `b`, which has been
-- given the port and, if it is a demux, paired it.
abbrev pub install_port : ℕ → ℕ → Block → (Port → Port) → Str → Net → Net
install_port pid b owner set_up fullname s =
    let (_, ps) = alloc port_zero Port.next_free s.ports in
    record s {
      n_ports = s.n_ports + 1;
      name2port = emplace fullname pid s.name2port;
      blocks = put b (λ _. owner) s.blocks;
      ports = put pid set_up ps;
    }

unfoldable pub add_port : ℕ → Bool → Str → Str → ℤ → PortType → Net → Option (Option ℕ × Net)
add_port b is_input localname fullname width type s =
    let pid = (alloc port_zero Port.next_free s.ports).0 in
    elim (pair_demux pid is_input (own_port pid is_input (block s b))) [
      | none ↦ none
      | some owner ↦ some (
        some pid,
        install_port pid b owner (init_port pid b localname fullname is_input width type) fullname
            s,
      )
    ]

unfoldable pub duplicated_port : Str → Net → Net
duplicated_port fullname s =
    set_error (codes "Duplicated port name (" ++ (fullname ++ codes ").")) s

-- `createPort` with the local name chosen.
unfoldable pub create_named_port : ℕ → Bool → Str → ℤ → PortType → Op (Option ℕ)
create_named_port b is_input localname width type s =
    let fullname = (block s b).name ++ codes ":" ++ localname in
    if is_some (lookup fullname s.name2port)
    then some (none, duplicated_port fullname s)
    else add_port b is_input localname fullname width type s

unfoldable pub create_port : Option ℕ → Bool → Str → ℤ → PortType → Op (Option ℕ)
create_port none is_input name width type s = none
create_port (some b) is_input name width type s =
    if valid_block s (some b)
    then if is_empty name
      then elim (gen_fresh_port_name (block s b).name is_input s) [
        | none ↦ none
        | some localname ↦ create_named_port b is_input localname width type s
      ]
      else create_named_port b is_input name width type s
    else none

abbrev pub disown_port : ℕ → Bool → Block → Block
disown_port p is_input b = record b {
  all_ports = erase p b.all_ports;
  in_ports = if is_input then erase p b.in_ports else b.in_ports;
  out_ports = if is_input then b.out_ports else erase p b.out_ports;
}

-- `P = Port{}; P.nextFree = freePort;` leaves `P.id` at 0, not at -1.
abbrev pub reset_port : Option ℕ → Port → Port
reset_port link p = record port_zero { next_free = link }

-- The channel of a removed port is removed, if it is valid.
unfoldable pub drop_channel_of : Option ℕ → Net → Net
drop_channel_of none s = s
drop_channel_of (some c) s = if valid_channel s (some c) then drop_channel c s else s

-- The owner forgets the port.
unfoldable pub forget_port : ℕ → Net → Net
forget_port p s = record s {
  blocks = put (port s p).block (disown_port p (port s p).is_input) s.blocks;
}

-- The slot of the port is given back. `nPorts` keeps its value.
unfoldable pub free_port : ℕ → Net → Net
free_port p s = record s {
  name2port = remove (port s p).full_name s.name2port;
  ports = release p reset_port s.ports;
}

-- The body of `removePort`, after its assertion.
unfoldable pub drop_port : ℕ → Net → Net
drop_port p s = free_port p (drop_channel_of (port s p).channel (forget_port p s))

unfoldable pub remove_port : Option ℕ → Op (Unit {0})
remove_port none s = none
remove_port (some p) s = if valid_port s (some p) then some (tt, drop_port p s) else none

-- `getPort`: a port by the name of its block and its local name.
unfoldable pub get_port : Option ℕ → Str → Net → Option (Option ℕ)
get_port none name s = none
get_port (some b) name s =
    if valid_block s (some b)
    then some (lookup ((block s b).name ++ codes ":" ++ name) s.name2port)
    else none

-- `getPorts`
unfoldable pub get_ports : Option ℕ → PortDirection → Net → Option (List ℕ)
get_ports none dir s = none
get_ports (some b) dir s =
    if valid_block s (some b) then some (select_ports dir (block s b)) else none
  where
    select_ports : PortDirection → Block → List ℕ
    select_ports input_ports b = b.in_ports
    select_ports output_ports b = b.out_ports
    select_ports all_ports b = b.all_ports
