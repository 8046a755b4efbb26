-- ===== src/Checks.antt =====
-- The checks of single blocks (Buffers/src/DFnetlist_check.cpp). A check answers whether it passes,
-- and sets the error message if it does not.
pub mod Decides
pub mod Blocks
pub mod Constants
pub mod Roles
pub mod Driver
pub mod Functions
pub mod Marking
pub mod BackEdges
mod Tests
use fpt2022_artifact.Common.{ℕ, zero, suc, ◌+◌, ◌-◌, ◌*◌, ◌/◌, ◌%◌, ◌^◌, Bool, true, false, not}
use fpt2022_artifact.Common.{◌&&◌, ◌||◌, Option, none, some, List, [], ◌∷◌, ◌++◌, length}
use fpt2022_artifact.Common.{if◌then◌else◌, ◌==◌, ltb, leb}
use fpt2022_artifact.Common.Int.{ℤ, pos, negsuc, minus_one, eqb_ℤ, is_neg, is_positive}
use fpt2022_artifact.Common.Sets.{insert}
use fpt2022_artifact.Common.Text.{Str, codes, str_eq, to_string}
use fpt2022_artifact.Netlist.Types.{
  Net, BlockRoles, PortType, PortDirection, Op, ◌>>=◌, ◌>>◌, ret, look,
}
use fpt2022_artifact.Netlist.Types.{block, valid_port, set_error, BlockType, operator}
use fpt2022_artifact.Netlist.Types.{generic_port, selection_port, true_port, false_port}
use fpt2022_artifact.Netlist.Types.{input_ports, output_ports, all_ports}
use fpt2022_artifact.Netlist.Channels.{get_block_from_port}
use fpt2022_artifact.Netlist.Ports.{get_ports}
use fpt2022_artifact.Netlist.Blocks.{update_block}
use fpt2022_artifact.Netlist.Attributes.{
  get_block_name, get_block_type, get_buffer_size, get_operation, get_value, set_value,
}
use fpt2022_artifact.Netlist.PortAttributes.{
  get_port_width, get_port_name, get_port_type, num_in_ports, num_out_ports, get_in_port,
  get_out_port, is_control_port, is_boolean_port,
}

-- `setError(err); return false;`
unfoldable pub fail : Str → Op Bool
fail err s = some (false, set_error err s)

-- `if (not check) return false;` and what follows.
infixr 6 ◌and_also◌
unfoldable pub ◌and_also◌ : Op Bool → Op Bool → Op Bool
m and_also k = do c ← m; if c then k else ret false

-- `if (test) { setError(...); return false; } return true;`
unfoldable pub require : Bool → Op Bool → Op Bool
require test otherwise = if test then ret true else otherwise

-- "Block <name><text>"
unfoldable pub fail_block : ℕ → Str → Op Bool
fail_block b text = do name ← look (get_block_name (some b)); fail (codes "Block " ++ name ++ text)

-- `std::to_string` of an `int`.
abbrev pub show_int : ℤ → Str
show_int (pos n) = to_string n
show_int (negsuc n) = codes "-" ++ to_string (suc n)

-- `checkNumPorts`: a negative number allows any number of ports.
unfoldable pub check_num_ports : ℕ → ℤ → ℤ → Op Bool
check_num_ports b nin nout = do
  n ← look (num_in_ports (some b))
  m ← look (num_out_ports (some b))
  require (is_neg nin || eqb_ℤ (pos n) nin) (fail_block b (codes ": incorrect number of ports."))
      and_also require (is_neg nout || eqb_ℤ (pos m) nout)
          (fail_block b (codes ": incorrect number of ports."))

abbrev pub is_generic : PortType → Bool
is_generic generic_port = true
is_generic other = false

-- `checkGenericPorts`
unfoldable pub all_generic : List ℕ → Op Bool
all_generic [] = ret true
all_generic (p ∷ ps) =
    (do
      t ← look (get_port_type (some p))
      name ← look (get_port_name (some p) true)
      require (is_generic t) (fail (codes "Incorrect type for port " ++ name ++ codes ".")))
    and_also all_generic ps

unfoldable pub check_generic_ports : ℕ → Op Bool
check_generic_ports b = look (get_ports (some b) all_ports) >>= all_generic

-- `checkSamePortWidth` of a set of ports
unfoldable pub fail_width : ℕ → Op Bool
fail_width p = do
  b ← look (get_block_from_port (some p))
  name ← look (get_block_name (some b))
  fail (codes "Inconsistent port width in block " ++ name ++ codes ".")

unfoldable pub all_of_width : ℤ → List ℕ → Op Bool
all_of_width width [] = ret true
all_of_width width (p ∷ ps) =
    (do w ← look (get_port_width (some p)); require (eqb_ℤ w width) (fail_width p))
    and_also all_of_width width ps

unfoldable pub check_same_widths : List ℕ → Op Bool
check_same_widths [] = ret true
check_same_widths (p ∷ []) = ret true
check_same_widths (p ∷ q ∷ ps) =
    look (get_port_width (some p)) >>= λ width. all_of_width width (p ∷ q ∷ ps)

-- `checkSamePortWidth` of two ports
unfoldable pub check_same_width : Option ℕ → Option ℕ → Op Bool
check_same_width p q = do
  v ← look (get_port_width p)
  w ← look (get_port_width q)
  a ← look (get_port_name p true)
  b ← look (get_port_name q true)
  require (eqb_ℤ v w) (
      fail (
        codes "Inconsistent port width between "
        ++ a
        ++ codes " ("
        ++ show_int v
        ++ codes ") and "
        ++ b
        ++ codes " ("
        ++ show_int w
        ++ codes ")."))

-- `checkElasticBuffer`
unfoldable pub check_slots : ℕ → Op Bool
check_slots b = do
  slots ← look (get_buffer_size (some b))
  name ← look (get_block_name (some b))
  require (is_positive slots)
      (fail (codes "Wrong number of slots for elastic buffer " ++ name ++ codes "."))

-- The check of the first input and output port, which are read when the check is reached.
unfoldable pub check_in_out : ℕ → Op Bool
check_in_out b s = check_same_width (get_in_port b s) (get_out_port b s) s

unfoldable pub check_elastic_buffer : ℕ → Op Bool
check_elastic_buffer b =
    check_generic_ports b
    and_also check_num_ports b (pos 1) (pos 1)
    and_also check_in_out b
    and_also check_slots b

unfoldable pub check_all_widths : ℕ → Op Bool
check_all_widths b = look (get_ports (some b) all_ports) >>= check_same_widths

-- `checkFork`
unfoldable pub check_fork : ℕ → Op Bool
check_fork b =
    check_generic_ports b and_also check_num_ports b (pos 1) minus_one and_also check_all_widths b

-- `checkMerge`
unfoldable pub check_merge : ℕ → Op Bool
check_merge b =
    check_generic_ports b and_also check_num_ports b minus_one (pos 1) and_also check_all_widths b

abbrev pub is_operator : BlockType → Bool
is_operator operator = true
is_operator other = false

-- `checkFunc`
unfoldable pub check_func : ℕ → Op Bool
check_func b = do
  n ← look (num_in_ports (some b))
  require (not (n == 0)) (fail_block b (codes " has no input ports.")) and_also (do
    t ← look (get_block_type (some b))
    op ← look (get_operation (some b))
    if is_operator t && str_eq op (codes "select_op") then ret true else check_generic_ports b)

-- `checkFuncEntry`
unfoldable pub enter : ℕ → Bool → Op Bool
enter b true s = elim s.entry_control [
  | none ↦ some (true, record s { entry_control = some b })
  | some e ↦ fail (codes "There is more than one entry control block.") s
]
enter b false s = some (true, record s { parameters = insert b s.parameters })

unfoldable pub check_func_entry : ℕ → Op Bool
check_func_entry b =
    check_num_ports b (pos 0) (pos 1)
    and_also (look (λ s. is_control_port (get_out_port b s) s) >>= enter b)
    and_also check_generic_ports b

-- `checkFuncExit`
unfoldable pub leave : ℕ → Bool → Op Bool
leave b true s = some (true, record s { exit_control = insert b s.exit_control })
leave b false s = some (true, record s { results = insert b s.results })

unfoldable pub check_func_exit : ℕ → Op Bool
check_func_exit b =
    (look (λ s. is_control_port (get_in_port b s) s) >>= leave b) and_also check_generic_ports b

-- The sign extension in `checkConstant`, on the 64-bit pattern `v`. The mask `1 << (width - 1)` is an
-- `int`: it has one bit for the widths below 32, and for 32 its sign extends it to the upper half of
-- the 64 bits. For other widths the shift is undefined.
unfoldable pub sign_bits : ℕ → ℕ → Option Bool
sign_bits w v =
    if ltb 0 w && ltb w 32
    then some ((v / 2 ^ (w - 1)) % 2 == 1)
    else if w == 32
    then some (not (v / 2 ^ 31 == 0))
    else none

unfoldable pub extend_sign : ℤ → ℕ → Option ℕ
extend_sign (negsuc n) v = none
extend_sign (pos w) v = elim (sign_bits w v) [
  | none ↦ none
  | some on ↦ some (if on then (v + (2 ^ 64 - 2 ^ w)) % 2 ^ 64 else v)
]

-- `checkConstant`
unfoldable pub normalize : ℕ → Op Bool
normalize b = do
  width ← look (λ s. get_port_width (get_out_port b s) s)
  v ← look (get_value (some b))
  v' ← look (λ s. extend_sign width v)
  set_value (some b) v'
  ret true

unfoldable pub check_constant : ℕ → Op Bool
check_constant b = do
  n_in ← look (num_in_ports (some b))
  name ← look (get_block_name (some b))
  require (leb n_in 1)
        (fail (codes "Too many input ports for constant block " ++ name ++ codes "."))
      and_also check_num_ports b minus_one (pos 1)
      and_also normalize b
