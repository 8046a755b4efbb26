-- ===== src/Netlist/Types.antt =====
-- The data of a netlist (Buffers/src/Dataflow.h and the private part of DFnetlist.h).
--
-- An identifier is an `int` that is at least 0, or -1 (`invalidDataflowID`) for "none": it is an
-- `Option ℕ` here where -1 can occur, and a number where the code stores checked identifiers only.
-- Delays and frequencies (`double`) are counted in thousandths. `long long` values are their 64-bit
-- patterns. A failed `assert` is `none` of the operation.
use fpt2022_artifact.Common.{ℕ, Bool, true, false, ◌&&◌, Option, none, some, ◌≡◌, ◌∙◌, refl}
use fpt2022_artifact.Common.{List, [], ◌∷◌, ltb, ◌==◌, opt_eq, length}
use fpt2022_artifact.Common.Int.{ℤ, pos}
use fpt2022_artifact.Common.Text.{Str, Dict, codes}
use fpt2022_artifact.Slab.{Slab, at, empty_slab}

pub data BlockType : Type 0 where
  operator elastic_buffer fork branch merge demux select constant : BlockType
  func_entry func_exit source sink mux cntrl_mg lsq mc : BlockType
  smc_fifo smc_sel smc_cntrl distributor selector unknown : BlockType

pub data PortType : Type 0 where
  generic_port selection_port true_port false_port : PortType

pub data PortDirection : Type 0 where
  input_ports output_ports all_ports : PortDirection

-- The annotations of a block that no structural operation reads.
pub record BlockAttrs : Type 0 where
  pub value : ℕ
  pub bool_value : Bool
  pub basic_block : Option ℕ
  pub delay : ℕ
  pub latency : ℤ
  pub ii : ℤ
  pub slots : ℤ
  pub transparent : Bool
  pub freq : ℕ
  pub frac : ℕ
  pub retiming_diff : ℤ
  pub mark : Bool
  pub scc_number : ℤ
  pub dfs_order : ℤ
  pub operation : Str
  pub mem_port_id : ℤ
  pub mem_offset : ℤ
  pub mem_bb_count : ℤ
  pub mem_ld_count : ℤ
  pub mem_st_count : ℤ
  pub mem_name : Str
  pub func_name : Str
  pub fifo_depth : ℤ
  pub num_loads : Str
  pub num_stores : Str
  pub load_offsets : Str
  pub store_offsets : Str
  pub load_ports : Str
  pub store_ports : Str
  pub getptrc : ℤ
  pub orderings : List (ℤ × List ℤ)

-- The ports of a branch, select or demux that have a role of their own.
pub record BlockRoles : Type 0 where
  pub port_cond : Option ℕ
  pub port_true : Option ℕ
  pub port_false : Option ℕ
  pub data_port : Option ℕ
  pub src_cond : Option ℕ

pub record Block : Type 0 where
  pub id : Option ℕ
  pub name : Str
  pub type : BlockType
  pub next_free : Option ℕ
  pub in_ports : List ℕ
  pub out_ports : List ℕ
  pub all_ports : List ℕ
  -- The input ports of a demux that wait for their output port, and the pairs made so far.
  pub list_ports : List ℕ
  pub demux_pairs : List (ℕ × ℕ)
  pub roles : BlockRoles
  pub attrs : BlockAttrs

pub record Port : Type 0 where
  pub id : ℕ
  pub short_name : Str
  pub full_name : Str
  pub block : ℕ
  pub next_free : Option ℕ
  pub is_input : Bool
  -- -1: undefined, 0: control, 1: boolean, more: data.
  pub width : ℤ
  pub delay : ℕ
  pub type : PortType
  pub channel : Option ℕ
  pub defs : List ℕ
  pub mem_port_suffix : Str

pub record Channel : Type 0 where
  pub id : Option ℕ
  pub src : ℕ
  pub dst : ℕ
  pub slots : ℤ
  pub transparent : Bool
  pub back_edge : Bool
  pub next_free : Option ℕ
  pub mark : Bool
  pub freq : ℕ

abbrev pub attrs_zero : BlockAttrs
attrs_zero = record {
  value = 0;
  bool_value = false;
  basic_block = some 0;
  delay = 0;
  latency = pos 0;
  ii = pos 0;
  slots = pos 0;
  transparent = false;
  freq = 0;
  frac = 0;
  retiming_diff = pos 0;
  mark = false;
  scc_number = pos 0;
  dfs_order = pos 0;
  operation = [];
  mem_port_id = pos 0;
  mem_offset = pos 0;
  mem_bb_count = pos 0;
  mem_ld_count = pos 0;
  mem_st_count = pos 0;
  mem_name = [];
  func_name = [];
  fifo_depth = pos 0;
  num_loads = [];
  num_stores = [];
  load_offsets = [];
  store_offsets = [];
  load_ports = [];
  store_ports = [];
  getptrc = pos 0;
  orderings = [];
}

abbrev pub roles_zero : BlockRoles
roles_zero = record {
  port_cond = some 0;
  port_true = some 0;
  port_false = some 0;
  data_port = some 0;
  src_cond = some 0;
}

-- `Block{}`, `Port{}` and `Channel{}`: value initialisation sets every number to 0, identifiers too.
abbrev pub block_zero : Block
block_zero = record {
  id = some 0;
  name = [];
  type = operator;
  next_free = some 0;
  in_ports = [];
  out_ports = [];
  all_ports = [];
  list_ports = [];
  demux_pairs = [];
  roles = roles_zero;
  attrs = attrs_zero;
}

abbrev pub port_zero : Port
port_zero = record {
  id = 0;
  short_name = [];
  full_name = [];
  block = 0;
  next_free = some 0;
  is_input = false;
  width = pos 0;
  delay = 0;
  type = generic_port;
  channel = some 0;
  defs = [];
  mem_port_suffix = [];
}

abbrev pub channel_zero : Channel
channel_zero = record {
  id = some 0;
  src = 0;
  dst = 0;
  slots = pos 0;
  transparent = false;
  back_edge = false;
  next_free = some 0;
  mark = false;
  freq = 0;
}

-- The state of a netlist. Each slab is a vector (`blocks`), the head of its free list
-- (`freeBlock`) and the set of identifiers that exist (`allBlocks`).
pub record Net : Type 0 where
  pub net_name : Str
  pub default_width : ℤ
  pub error : Str
  pub n_blocks : ℕ
  pub n_channels : ℕ
  pub n_ports : ℕ
  pub blocks : Slab Block
  pub ports : Slab Port
  pub channels : Slab Channel
  pub parameters : List ℕ
  pub results : List ℕ
  pub entry_control : Option ℕ
  pub exit_control : List ℕ
  pub milp_solver : Str
  pub name2block : Dict
  pub name2port : Dict

-- `init` with `setMilpSolver` at its default, on a netlist that was just constructed.
abbrev pub init : Net
init = record {
  net_name = [];
  default_width = pos 0;
  error = [];
  n_blocks = 0;
  n_channels = 0;
  n_ports = 0;
  blocks = empty_slab;
  ports = empty_slab;
  channels = empty_slab;
  parameters = [];
  results = [];
  entry_control = none;
  exit_control = [];
  milp_solver = codes "cbc";
  name2block = [];
  name2port = [];
}

abbrev pub block : Net → ℕ → Block
block s b = at block_zero s.blocks b

abbrev pub port : Net → ℕ → Port
port s p = at port_zero s.ports p

abbrev pub channel : Net → ℕ → Channel
channel s c = at channel_zero s.channels c

unfoldable pub valid_block : Net → Option ℕ → Bool
valid_block s none = false
valid_block s (some b) = ltb b (length s.blocks.slots) && opt_eq (block s b).id (some b)

unfoldable pub valid_port : Net → Option ℕ → Bool
valid_port s none = false
valid_port s (some p) = ltb p (length s.ports.slots) && ((port s p).id == p)

unfoldable pub valid_channel : Net → Option ℕ → Bool
valid_channel s none = false
valid_channel s (some c) = ltb c (length s.channels.slots) && opt_eq (channel s c).id (some c)

-- A method: `none` is a failed assertion.
abbrev pub Op : Type 0 → Type 0
Op A = Net → Option (A × Net)

infixl 5 ◌>>=◌ ◌>>◌
unfoldable pub ◌>>=◌ : {A B : Type 0} → Op A → (A → Op B) → Op B
◌>>=◌ m f s = elim (m s) [ none ↦ none | some (a, s') ↦ f a s' ]

abbrev pub ◌>>◌ : {B : Type 0} → Op (Unit {0}) → Op B → Op B
m >> k = m >>= λ _. k

abbrev pub ret : {A : Type 0} → A → Op A
ret a s = some (a, s)

-- A method that only reads.
unfoldable pub look : {A : Type 0} → (Net → Option A) → Op A
look f s = elim (f s) [ none ↦ none | some a ↦ some (a, s) ]

-- A call that returns passes its answer and its netlist on.
pub bind-runs :
    {A B : Type 0} (m : Op A) (f : A → Op B) (s u : Net) (a : A)
    → m s ≡ some (a, u)
    → (m >>= f) s ≡ f a u
unfolding ◌>>=◌
bind-runs m f s u a e = rw (e, ◌>>=◌) refl

pub bind-fails :
    {A B : Type 0} (m : Op A) (f : A → Op B) (s : Net) → m s ≡ none → (m >>= f) s ≡ none
unfolding ◌>>=◌
bind-fails m f s e = rw (e, ◌>>=◌) refl

pub look-runs :
    {A B : Type 0} (g : Net → Option A) (f : A → Op B) (s : Net) (a : A)
    → g s ≡ some a
    → (look g >>= f) s ≡ f a s
unfolding look
look-runs g f s a e = bind-runs (look g) f s s a (rw (e, look) refl)

-- The same with the rest of the method run.
pub look-then :
    {A B : Type 0} (g : Net → Option A) (f : A → Op B) (s : Net) (a : A) (r : Option (B × Net))
    → g s ≡ some a
    → f a s ≡ r
    → (look g >>= f) s ≡ r
look-then g f s a r e h = look-runs g f s a e ∙ h

-- `error.set(err)`
unfoldable pub set_error : Str → Net → Net
set_error err s = record s { error = err }

unfoldable pub get_error : Net → Str
get_error s = s.error

unfoldable pub clear_error : Net → Net
clear_error s = record s { error = [] }

unfoldable pub has_error : Net → Bool
has_error s = elim s.error [ [] ↦ false | c ∷ cs ↦ true ]

-- The head of a set of ports (`*begin()`), or -1 of an empty one.
abbrev pub first : List ℕ → Option ℕ
first [] = none
first (p ∷ ps) = some p
