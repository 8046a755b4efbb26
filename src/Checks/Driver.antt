-- ===== src/Checks/Driver.antt =====
-- The check of a whole netlist (Buffers/src/DFnetlist_check.cpp), and the back edges that it computes
-- at its end (Buffers/src/DFnetlist_Connectivity.cpp).
use fpt2022_artifact.Common.{ℕ, Bool, true, false, not, ◌&&◌, ◌||◌, Option, none, some, List, []}
use fpt2022_artifact.Common.{◌∷◌, ◌++◌, if◌then◌else◌, leb}
use fpt2022_artifact.Common.Int.{ℤ, pos, minus_one, is_positive}
use fpt2022_artifact.Common.Text.{codes}
use fpt2022_artifact.Netlist.Types.{Net, BlockType, Op, ◌>>=◌, ◌>>◌, ret, look}
use fpt2022_artifact.Netlist.Types.{operator, elastic_buffer, fork, branch, merge, demux, select}
use fpt2022_artifact.Netlist.Types.{constant, func_entry, func_exit}
use fpt2022_artifact.Netlist.Types.{unknown, generic_port}
use fpt2022_artifact.Netlist.Channels.{
  create_channel, is_port_connected, get_block_from_port, get_src_port, get_dst_port, get_src_block,
  get_dst_block, set_back_edge,
}
use fpt2022_artifact.Netlist.Ports.{create_port, remove_port}
use fpt2022_artifact.Netlist.Blocks.{create_block}
use fpt2022_artifact.Netlist.Attributes.{get_block_type, set_value, get_basic_block}
use fpt2022_artifact.Netlist.PortAttributes.{
  get_in_port, get_port_name, set_port_width, is_input, is_output,
}
use fpt2022_artifact.Widths.{infer_channel_width}
use fpt2022_artifact.Checks.{
  fail, ◌and_also◌, require, check_elastic_buffer, check_fork, check_merge, check_func,
  check_func_entry, check_func_exit, check_constant,
}
use fpt2022_artifact.Checks.Roles.{check_branch, check_select, check_demux}

abbrev pub is_fork : BlockType → Bool
is_fork fork = true
is_fork other = false

abbrev pub is_branch : BlockType → Bool
is_branch branch = true
is_branch other = false

abbrev pub is_entry : BlockType → Bool
is_entry func_entry = true
is_entry other = false

-- The forks whose input is not connected.
unfoldable pub orphan_forks : List ℕ → Net → Option (List ℕ)
orphan_forks [] s = some []
orphan_forks (b ∷ bs) s = elim (get_block_type (some b) s) [
  | none ↦ none
  | some t ↦ elim (if is_fork t then is_port_connected (get_in_port b s) s else some true) [
    | none ↦ none
    | some joined ↦ elim (orphan_forks bs s) [
      | none ↦ none
      | some rest ↦ some (if joined then rest else b ∷ rest)
    ]
  ]
]

-- A constant for the input of an orphan fork.
unfoldable pub feed_fork : ℕ → Op (Unit {0})
feed_fork b = do
  k ← create_block constant []
  p ← create_port k false [] minus_one generic_port
  set_port_width p (pos 1)
  set_value k 1
  into ← look (λ s. some (get_in_port b s))
  _ ← create_channel p into (pos 0) true
  ret tt

unfoldable pub each : (ℕ → Op (Unit {0})) → List ℕ → Op (Unit {0})
each f [] = ret tt
each f (x ∷ xs) = f x >> each f xs

-- The loop of `checkPortsConnected`: the ports to remove, or `none` after an error.
unfoldable pub open_port : ℕ → Op (Option Bool)
open_port p = do
  joined ← look (is_port_connected (some p))
  if joined then ret (some false) else do
    b ← look (get_block_from_port (some p))
    t ← look (get_block_type (some b))
    into ← look (is_input (some p))
    if (is_branch t && not into) || (is_entry t && into) then ret (some true) else do
      name ← look (get_port_name (some p) true)
      _ ← fail (codes "Port " ++ name ++ codes " not connected.")
      ret none

unfoldable pub prepend : ℕ → Bool → Option (List ℕ) → Option (List ℕ)
prepend p keep none = none
prepend p keep (some ps) = some (if keep then p ∷ ps else ps)

unfoldable pub open_ports : List ℕ → Op (Option (List ℕ))
open_ports [] = ret (some [])
open_ports (p ∷ ps) = open_port p >>= λ o. elim o [
  | none ↦ ret none
  | some keep ↦ open_ports ps >>= λ rest. ret (prepend p keep rest)
]

-- `checkPortsConnected()`, on all ports.
unfoldable pub remove_open : Option (List ℕ) → Op Bool
remove_open none = ret false
remove_open (some ps) = each (λ p. remove_port (some p)) ps >> ret true

unfoldable pub check_ports_connected : Op Bool
check_ports_connected s = (open_ports s.ports.live >>= remove_open) s

-- The `switch` of `check`. `status` keeps its value on the types that have no case or an empty one.
unfoldable pub check_type : BlockType → ℕ → Bool → Op Bool
check_type elastic_buffer b status = check_elastic_buffer b
check_type fork b status = check_fork b
check_type branch b status = check_branch b
check_type merge b status = check_merge b
check_type select b status = check_select b
check_type operator b status = check_func b
check_type constant b status = check_constant b
check_type func_entry b status = check_func_entry b
check_type func_exit b status = check_func_exit b
check_type demux b status = check_demux b
check_type unknown b status = look (λ s. none)
check_type other b status = ret status

unfoldable pub check_blocks : List ℕ → Bool → Op Bool
check_blocks [] status = ret true
check_blocks (b ∷ bs) status = do
  t ← look (get_block_type (some b))
  next ← check_type t b status
  if next then check_blocks bs next else ret false

-- The direction of the channels.
unfoldable pub check_channel : ℕ → Op Bool
check_channel c = do
  src ← look (get_src_port (some c))
  dst ← look (get_dst_port (some c))
  back ← look (is_input (some src))
  ahead ← look (is_output (some dst))
  src_name ← look (get_port_name (some src) true)
  dst_name ← look (get_port_name (some dst) true)
  require (not (back || ahead)) (
      fail (
        codes "Channel "
        ++ src_name
        ++ codes " -> "
        ++ dst_name
        ++ codes " is not well-formed: wrong port direction."))

unfoldable pub check_channels : List ℕ → Op Bool
check_channels [] = ret true
check_channels (c ∷ cs) = check_channel c and_also check_channels cs

-- `src >= dst` on numbers of basic blocks, where -1 is none.
abbrev pub at_least : Option ℕ → Option ℕ → Bool
at_least x none = true
at_least none (some b) = false
at_least (some a) (some b) = leb b a

-- `calculateBackEdges`: from a branch to the same or an earlier basic block.
unfoldable pub back_edge : ℕ → Op (Unit {0})
back_edge c = do
  bb ← look (get_src_block (some c))
  src ← look (get_basic_block (some bb))
  to ← look (get_dst_block (some c))
  dst ← look (get_basic_block (some to))
  t ← look (get_block_type (some bb))
  set_back_edge (some c) (is_branch t && at_least src dst)

unfoldable pub calculate_back_edges : Op (Unit {0})
calculate_back_edges s = each back_edge s.channels.live s

-- `check`, after the ports are connected. `garbage` is the block number that the width inference
-- reads before it is set, and `status` the flag that the first block may read before it is set.
unfoldable pub check_entry : Op Bool
check_entry s = elim s.entry_control [
  | none ↦ fail (codes "Missing Entry control module.") s
  | some b ↦ some (true, s)
]

abbrev pub inferred_width : ℤ → ℤ
inferred_width width = if is_positive width then width else pos 32

unfoldable pub check_rest : Option ℕ → Bool → Op Bool
check_rest garbage status =
    ((λ s. infer_channel_width garbage (inferred_width s.default_width) s) >> ret true)
    and_also (λ s. check_blocks s.blocks.live status s)
    and_also check_entry
    and_also (λ s. check_channels s.channels.live s)
    and_also (calculate_back_edges >> ret true)

-- `check`
unfoldable pub check : Option ℕ → Bool → Op Bool
check garbage status = do
  forks ← λ s. look (orphan_forks s.blocks.live) s
  each feed_fork forks
  check_ports_connected and_also check_rest garbage status
