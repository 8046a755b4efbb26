-- ===== src/Netlist/Attributes.antt =====
-- The access methods for the annotations of blocks and ports (Buffers/src/DFnetlist.cpp). Each
-- asserts that the object is valid, and reads or writes one field.
use fpt2022_artifact.Common.{ℕ, ◌/◌, Bool, not, ◌&&◌, Option, none, some, List}
use fpt2022_artifact.Common.{if◌then◌else◌, ◌==◌, ltb, length}
use fpt2022_artifact.Common.Int.{ℤ}
use fpt2022_artifact.Common.Text.{Str}
use fpt2022_artifact.Slab.{put}
use fpt2022_artifact.Netlist.Types.{Net, Block, BlockType, BlockAttrs, Op}
use fpt2022_artifact.Netlist.Types.{valid_port}
use fpt2022_artifact.Netlist.Blocks.{update_attrs, read_attrs, read_block}

abbrev pub get_block_name : Option ℕ → Net → Option Str
get_block_name = read_block Block.name

abbrev pub get_block_type : Option ℕ → Net → Option BlockType
get_block_type = read_block Block.type

abbrev pub set_basic_block : Option ℕ → Option ℕ → Op (Unit {0})
set_basic_block id v = update_attrs (λ a. record a { basic_block = v }) id

abbrev pub get_basic_block : Option ℕ → Net → Option (Option ℕ)
get_basic_block = read_attrs BlockAttrs.basic_block

abbrev pub set_block_delay : Option ℕ → ℕ → Op (Unit {0})
set_block_delay id v = update_attrs (λ a. record a { delay = v }) id

abbrev pub get_block_delay : Option ℕ → Net → Option ℕ
get_block_delay = read_attrs BlockAttrs.delay

abbrev pub set_block_retiming_diff : Option ℕ → ℤ → Op (Unit {0})
set_block_retiming_diff id v = update_attrs (λ a. record a { retiming_diff = v }) id

abbrev pub get_block_retiming_diff : Option ℕ → Net → Option ℤ
get_block_retiming_diff = read_attrs BlockAttrs.retiming_diff

abbrev pub set_latency : Option ℕ → ℤ → Op (Unit {0})
set_latency id v = update_attrs (λ a. record a { latency = v }) id

abbrev pub get_latency : Option ℕ → Net → Option ℤ
get_latency = read_attrs BlockAttrs.latency

abbrev pub set_initiation_interval : Option ℕ → ℤ → Op (Unit {0})
set_initiation_interval id v = update_attrs (λ a. record a { ii = v }) id

abbrev pub get_initiation_interval : Option ℕ → Net → Option ℤ
get_initiation_interval = read_attrs BlockAttrs.ii

abbrev pub set_true_frac : Option ℕ → ℕ → Op (Unit {0})
set_true_frac id v = update_attrs (λ a. record a { frac = v }) id

abbrev pub get_true_frac : Option ℕ → Net → Option ℕ
get_true_frac = read_attrs BlockAttrs.frac

abbrev pub set_operation : Option ℕ → Str → Op (Unit {0})
set_operation id v = update_attrs (λ a. record a { operation = v }) id

abbrev pub get_operation : Option ℕ → Net → Option Str
get_operation = read_attrs BlockAttrs.operation

abbrev pub set_func_name : Option ℕ → Str → Op (Unit {0})
set_func_name id v = update_attrs (λ a. record a { func_name = v }) id

abbrev pub get_func_name : Option ℕ → Net → Option Str
get_func_name = read_attrs BlockAttrs.func_name

abbrev pub set_mem_port_id : Option ℕ → ℤ → Op (Unit {0})
set_mem_port_id id v = update_attrs (λ a. record a { mem_port_id = v }) id

abbrev pub get_mem_port_id : Option ℕ → Net → Option ℤ
get_mem_port_id = read_attrs BlockAttrs.mem_port_id

abbrev pub set_mem_offset : Option ℕ → ℤ → Op (Unit {0})
set_mem_offset id v = update_attrs (λ a. record a { mem_offset = v }) id

abbrev pub get_mem_offset : Option ℕ → Net → Option ℤ
get_mem_offset = read_attrs BlockAttrs.mem_offset

abbrev pub set_mem_bb_count : Option ℕ → ℤ → Op (Unit {0})
set_mem_bb_count id v = update_attrs (λ a. record a { mem_bb_count = v }) id

abbrev pub get_mem_bb_count : Option ℕ → Net → Option ℤ
get_mem_bb_count = read_attrs BlockAttrs.mem_bb_count

abbrev pub set_mem_ld_count : Option ℕ → ℤ → Op (Unit {0})
set_mem_ld_count id v = update_attrs (λ a. record a { mem_ld_count = v }) id

abbrev pub get_mem_ld_count : Option ℕ → Net → Option ℤ
get_mem_ld_count = read_attrs BlockAttrs.mem_ld_count

abbrev pub set_mem_st_count : Option ℕ → ℤ → Op (Unit {0})
set_mem_st_count id v = update_attrs (λ a. record a { mem_st_count = v }) id

abbrev pub get_mem_st_count : Option ℕ → Net → Option ℤ
get_mem_st_count = read_attrs BlockAttrs.mem_st_count

abbrev pub set_mem_name : Option ℕ → Str → Op (Unit {0})
set_mem_name id v = update_attrs (λ a. record a { mem_name = v }) id

abbrev pub get_mem_name : Option ℕ → Net → Option Str
get_mem_name = read_attrs BlockAttrs.mem_name

abbrev pub set_lsq_depth : Option ℕ → ℤ → Op (Unit {0})
set_lsq_depth id v = update_attrs (λ a. record a { fifo_depth = v }) id

abbrev pub get_lsq_depth : Option ℕ → Net → Option ℤ
get_lsq_depth = read_attrs BlockAttrs.fifo_depth

abbrev pub set_buffer_size : Option ℕ → ℤ → Op (Unit {0})
set_buffer_size id v = update_attrs (λ a. record a { slots = v }) id

abbrev pub get_buffer_size : Option ℕ → Net → Option ℤ
get_buffer_size = read_attrs BlockAttrs.slots

abbrev pub set_buffer_transparency : Option ℕ → Bool → Op (Unit {0})
set_buffer_transparency id v = update_attrs (λ a. record a { transparent = v }) id

abbrev pub is_buffer_transparent : Option ℕ → Net → Option Bool
is_buffer_transparent = read_attrs BlockAttrs.transparent

abbrev pub set_get_ptr_const : Option ℕ → ℤ → Op (Unit {0})
set_get_ptr_const id v = update_attrs (λ a. record a { getptrc = v }) id

abbrev pub get_get_ptr_const : Option ℕ → Net → Option ℤ
get_get_ptr_const = read_attrs BlockAttrs.getptrc

abbrev pub set_dfs_order : Option ℕ → ℤ → Op (Unit {0})
set_dfs_order id v = update_attrs (λ a. record a { dfs_order = v }) id

abbrev pub get_dfs_order : Option ℕ → Net → Option ℤ
get_dfs_order = read_attrs BlockAttrs.dfs_order

abbrev pub set_execution_frequency : Option ℕ → ℕ → Op (Unit {0})
set_execution_frequency id freq = update_attrs (λ a. record a { freq = freq }) id

-- `getExecutionFrequency` returns an `int`: the fraction is cut off.
abbrev pub get_execution_frequency : Option ℕ → Net → Option ℕ
get_execution_frequency = read_attrs (λ a. a.freq / 1000)

-- `setValue`, on the 64-bit pattern of the value.
abbrev pub set_value : Option ℕ → ℕ → Op (Unit {0})
set_value id value =
    update_attrs (λ a. record a { value = value; bool_value = not (value == 0) }) id

abbrev pub get_value : Option ℕ → Net → Option ℕ
get_value = read_attrs BlockAttrs.value

abbrev pub get_bool_value : Option ℕ → Net → Option Bool
get_bool_value = read_attrs BlockAttrs.bool_value

abbrev pub set_orderings : Option ℕ → List (ℤ × List ℤ) → Op (Unit {0})
set_orderings id value = update_attrs (λ a. record a { orderings = value }) id

abbrev pub mark_block : Option ℕ → Bool → Op (Unit {0})
mark_block id value = update_attrs (λ a. record a { mark = value }) id

abbrev pub is_block_marked : Option ℕ → Net → Option Bool
is_block_marked = read_attrs BlockAttrs.mark

abbrev pub get_block_scc_no : Option ℕ → Net → Option ℤ
get_block_scc_no = read_attrs BlockAttrs.scc_number

-- The setters of the LSQ configuration assert `validPort(id)` although `id` is a block, and then
-- write to `blocks[id]`; a write out of range is a failure of the model.
unfoldable pub update_lsq : (BlockAttrs → BlockAttrs) → Option ℕ → Op (Unit {0})
update_lsq f none s = none
update_lsq f (some id) s =
    if valid_port s (some id) && ltb id (length s.blocks.slots)
    then some (tt, record s { blocks = put id (λ b. record b { attrs = f b.attrs }) s.blocks })
    else none

abbrev pub set_num_loads : Option ℕ → Str → Op (Unit {0})
set_num_loads id v = update_lsq (λ a. record a { num_loads = v }) id

abbrev pub get_num_loads : Option ℕ → Net → Option Str
get_num_loads = read_attrs BlockAttrs.num_loads

abbrev pub set_num_stores : Option ℕ → Str → Op (Unit {0})
set_num_stores id v = update_lsq (λ a. record a { num_stores = v }) id

abbrev pub get_num_stores : Option ℕ → Net → Option Str
get_num_stores = read_attrs BlockAttrs.num_stores

abbrev pub set_load_offsets : Option ℕ → Str → Op (Unit {0})
set_load_offsets id v = update_lsq (λ a. record a { load_offsets = v }) id

abbrev pub get_load_offsets : Option ℕ → Net → Option Str
get_load_offsets = read_attrs BlockAttrs.load_offsets

abbrev pub set_store_offsets : Option ℕ → Str → Op (Unit {0})
set_store_offsets id v = update_lsq (λ a. record a { store_offsets = v }) id

abbrev pub get_store_offsets : Option ℕ → Net → Option Str
get_store_offsets = read_attrs BlockAttrs.store_offsets

abbrev pub set_load_ports : Option ℕ → Str → Op (Unit {0})
set_load_ports id v = update_lsq (λ a. record a { load_ports = v }) id

abbrev pub get_load_ports : Option ℕ → Net → Option Str
get_load_ports = read_attrs BlockAttrs.load_ports

abbrev pub set_store_ports : Option ℕ → Str → Op (Unit {0})
set_store_ports id v = update_lsq (λ a. record a { store_ports = v }) id

abbrev pub get_store_ports : Option ℕ → Net → Option Str
get_store_ports = read_attrs BlockAttrs.store_ports
