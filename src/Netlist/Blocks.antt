-- ===== src/Netlist/Blocks.antt =====
-- Blocks of a netlist (Buffers/src/DFnetlist.cpp): creation with a chosen or a generated name, and
-- removal with all ports and their channels.
use fpt2022_artifact.Common.{ℕ, zero, suc, ◌+◌, ◌-◌, true, false, Option, none, some, [], ◌∷◌}
use fpt2022_artifact.Common.{◌++◌, if◌then◌else◌, is_some, length}
use fpt2022_artifact.Common.Int.{pos, minus_one}
use fpt2022_artifact.Common.Text.{Str, codes, is_empty, lookup, assign, remove}
use fpt2022_artifact.Slab.{alloc, put, release}
use fpt2022_artifact.Netlist.Types.{Net, Block, BlockType, BlockAttrs, block_zero, block}
use fpt2022_artifact.Netlist.Types.{Op, valid_block, set_error}
use fpt2022_artifact.Netlist.Names.{gen_block_name}
use fpt2022_artifact.Netlist.Ports.{remove_port}

-- `getBlock`: a block by its name, `none` for `invalidDataflowID`.
unfoldable pub get_block : Str → Net → Option ℕ
get_block name s = lookup name s.name2block

-- The fields that `createBlock` sets; the flags and the memory annotations are left alone.
abbrev pub init_block : ℕ → Str → BlockType → Block → Block
init_block idx name type b = record b {
  id = some idx;
  name = name;
  type = type;
  next_free = none;
  roles = record {
    port_cond = none;
    port_true = none;
    port_false = none;
    data_port = none;
    src_cond = none;
  };
  attrs = record b.attrs {
    value = 0;
    bool_value = false;
    basic_block = none;
    dfs_order = minus_one;
    delay = 0;
    latency = pos 0;
    ii = pos 0;
    slots = pos 0;
    transparent = true;
    freq = 0;
  };
}

-- `createBlock` with the name chosen.
unfoldable pub add_block : BlockType → Str → Net → ℕ × Net
add_block type gname s =
    let (idx, bs) = alloc block_zero Block.next_free s.blocks in
    (
      idx,
      record s {
        n_blocks = s.n_blocks + 1;
        name2block = assign gname idx s.name2block;
        blocks = put idx (init_block idx gname type) bs;
      },
    )

unfoldable pub duplicated_block : Str → Net → Net
duplicated_block name s = set_error (codes "Duplicated block name: " ++ (name ++ codes ".")) s

abbrev pub created : ℕ × Net → Option ℕ × Net
created (idx, s) = (some idx, s)

unfoldable pub create_block : BlockType → Str → Op (Option ℕ)
create_block type name s =
    if is_some (get_block name s)
    then some (none, duplicated_block name s)
    else if is_empty name
    then elim (gen_block_name type s) [
      | none ↦ none
      | some gname ↦ some (created (add_block type gname s))
    ]
    else some (created (add_block type name s))

-- `while (not B.allPorts.empty()) removePort(*(B.allPorts.begin()));` with fuel; `none` when it
-- runs out, as for a failed assertion.
unfoldable pub remove_ports : ℕ → ℕ → Op (Unit {0})
remove_ports zero b s = elim (block s b).all_ports [ [] ↦ some (tt, s) | p ∷ ps ↦ none ]
remove_ports (suc fuel) b s = elim (block s b).all_ports [
  | [] ↦ some (tt, s)
  | p ∷ ps ↦ elim (remove_port (some p) s) [ none ↦ none | some (_, s') ↦ remove_ports fuel b s' ]
]

-- `B = Block{invalidDataflowID}; B.nextFree = freeBlock;`
abbrev pub reset_block : Option ℕ → Block → Block
reset_block link b = record block_zero { id = none; next_free = link }

unfoldable pub free_block : ℕ → Net → Net
free_block b s = record s {
  name2block = remove (block s b).name s.name2block;
  n_blocks = s.n_blocks - 1;
  blocks = release b reset_block s.blocks;
}

-- One round for each port of the block is enough.
unfoldable pub remove_block : Option ℕ → Op (Unit {0})
remove_block none s = none
remove_block (some b) s =
    if valid_block s (some b)
    then elim (remove_ports (length (block s b).all_ports) b s) [
      | none ↦ none
      | some (_, s') ↦ some (tt, free_block b s')
    ]
    else none

-- Updates and reads of one block, after the assertion that it is valid.
unfoldable pub update_block : (Block → Block) → Option ℕ → Op (Unit {0})
update_block f none s = none
update_block f (some b) s =
    if valid_block s (some b) then some (tt, record s { blocks = put b f s.blocks }) else none

unfoldable pub read_block : {A : Type 0} → (Block → A) → Option ℕ → Net → Option A
read_block f none s = none
read_block f (some b) s = if valid_block s (some b) then some (f (block s b)) else none

-- The annotations alone.
abbrev pub update_attrs : (BlockAttrs → BlockAttrs) → Option ℕ → Op (Unit {0})
update_attrs f = update_block (λ b. record b { attrs = f b.attrs })

abbrev pub read_attrs : {A : Type 0} → (BlockAttrs → A) → Option ℕ → Net → Option A
read_attrs f = read_block (λ b. f b.attrs)
