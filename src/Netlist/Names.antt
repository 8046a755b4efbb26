-- ===== src/Netlist/Names.antt =====
-- Fresh names: `genBlockName` and `genFreshPortName` (Buffers/src/DFnetlist.cpp), and the names of
-- the block types.
use fpt2022_artifact.Common.{ℕ, zero, suc, ◌+◌, ◌<◌, ◌≤◌, ◌≡◌, refl, sym, ◌∙◌, ◌≢◌, Bool}
use fpt2022_artifact.Common.{Option, none, some, [], ◌∷◌, ◌++◌, length, is_some}
use fpt2022_artifact.Common.{if◌then◌else◌, Option-cases, arith, inl, inr}
use fpt2022_artifact.Common.Text.{Str, Dict, codes, lookup, remove, to_string, prefix_injective}
use fpt2022_artifact.Common.Text.{append-cancel, str_eq_iff, lookup-remove}
use fpt2022_artifact.Netlist.Types.{Net}
use fpt2022_artifact.Netlist.Types.{BlockType, operator, elastic_buffer, fork, branch, merge, demux}
use fpt2022_artifact.Netlist.Types.{select, constant, func_entry, func_exit, source, sink, mux}
use fpt2022_artifact.Netlist.Types.{cntrl_mg, lsq, mc, smc_fifo, smc_sel, smc_cntrl, distributor}
use fpt2022_artifact.Netlist.Types.{selector, unknown}

-- `BlockType2String[type]`; the table has no entry for UNKNOWN, so the lookup gives the empty text.
unfoldable pub block_type_to_string : BlockType → Str
block_type_to_string elastic_buffer = codes "Buffer"
block_type_to_string fork = codes "Fork"
block_type_to_string branch = codes "Branch"
block_type_to_string demux = codes "Demux"
block_type_to_string merge = codes "Merge"
block_type_to_string select = codes "Select"
block_type_to_string operator = codes "Operator"
block_type_to_string constant = codes "Constant"
block_type_to_string func_entry = codes "Entry"
block_type_to_string func_exit = codes "Exit"
block_type_to_string source = codes "Source"
block_type_to_string sink = codes "Sink"
block_type_to_string cntrl_mg = codes "CntrlMerge"
block_type_to_string mux = codes "Mux"
block_type_to_string lsq = codes "LSQ"
block_type_to_string mc = codes "MC"
block_type_to_string smc_fifo = codes "smcFifo"
block_type_to_string smc_sel = codes "smcSel"
block_type_to_string smc_cntrl = codes "smcCntrl"
block_type_to_string selector = codes "Selector"
block_type_to_string distributor = codes "Distributor"
block_type_to_string unknown = []

-- `while (name(idx) is taken) ++idx;` with fuel.
unfoldable pub first_free : ℕ → (ℕ → Str) → ℕ → Dict → Option ℕ
first_free zero name idx m = none
first_free (suc fuel) name idx m =
    let rest = first_free fuel name (idx + 1) m in
    if is_some (lookup (name idx) m) then rest else some idx

abbrev pub IsInjective : (ℕ → Str) → Type 0
IsInjective name = (i j : ℕ) → name i ≡ name j → i ≡ j

first_free-remove :
    (fuel k idx : ℕ) (name : ℕ → Str) (m : Dict)
    → IsInjective name
    → k < idx
    → first_free fuel name idx (remove (name k) m) ≡ first_free fuel name idx m
unfolding first_free
first_free-remove zero k idx name m inj h = refl
first_free-remove (suc fuel) k idx name m inj h = ground (
  arith,
  first_free-remove fuel k (idx + 1) name m inj,
  lookup-remove (name k) (name idx) m,
  str_eq_iff (name k) (name idx),
  inj k idx,
)

length-remove-le : (k : Str) (m : Dict) → length (remove k m) ≤ length m
unfolding remove
length-remove-le k [] = omega arith
length-remove-le k ((j, v) ∷ m) = ground (arith, length-remove-le k m)

length-remove-lt : (k : Str) (m : Dict) → lookup k m ≢ none → length (remove k m) < length m
unfolding remove lookup
length-remove-lt k [] h = absurd (h refl)
length-remove-lt k ((j, v) ∷ m) h = ground (arith, length-remove-le k m, length-remove-lt k m)

-- The search ends, at the index of a name that is not taken.
pub record Finds (name : ℕ → Str) (idx : ℕ) (m : Dict) (r : Option ℕ) : Type 0 where
  pub index : ℕ
  pub found : r ≡ some index
  pub above : idx ≤ index
  pub unused : lookup (name index) m ≡ none

-- Fuel above the number of entries of the dictionary is enough.
pub first_free-Finds :
    (fuel idx : ℕ) (name : ℕ → Str) (m : Dict)
    → IsInjective name
    → length m < fuel
    → Finds name idx m (first_free fuel name idx m)
unfolding first_free
first_free-Finds zero idx name m inj h = elim h [ ]
first_free-Finds (suc fuel) idx name m inj h = elim (Option-cases (lookup (name idx) m)) [
  | inl e ↦ record { index = idx; found = rw e; above = omega arith; unused = e }
  | inr (v, e) ↦
      let r =
        first_free-Finds fuel (idx + 1) name (remove (name idx) m) inj
          (ground (arith, length-remove-lt (name idx) m)) in
      record {
        index = r.index;
        found =
            rw e (sym (first_free-remove fuel idx (idx + 1) name m inj (omega arith)) ∙ r.found);
        above = omega (arith, r.above);
        unused = ground (
          arith,
          r.unused,
          r.above,
          lookup-remove (name idx) (name r.index) m,
          str_eq_iff (name idx) (name r.index),
          inj idx r.index,
        );
      }
]

abbrev pub block_prefix : BlockType → Str
block_prefix type = codes "_" ++ block_type_to_string type ++ codes "_"

-- `genBlockName`: `none` never occurs, as `gen_block_name-Finds` shows.
unfoldable pub gen_block_name : BlockType → Net → Option Str
gen_block_name type s =
    elim (first_free (suc (length s.name2block)) (λ i. block_prefix type ++ to_string i) 1
      s.name2block) [ none ↦ none | some idx ↦ some (block_prefix type ++ to_string idx) ]

-- `genFreshPortName`: the local name of a port, such that `block:name` is not taken.
unfoldable pub gen_fresh_port_name : Str → Bool → Net → Option Str
gen_fresh_port_name block_name is_input s =
    let prefix = if is_input then codes "in" else codes "out" in
    elim (first_free (suc (length s.name2port))
      (λ i. (block_name ++ codes ":") ++ (prefix ++ to_string i)) 1 s.name2port) [
        | none ↦ none
        | some idx ↦ some (prefix ++ to_string idx)
      ]

-- A generated name: `r` is a result, and the dictionary has no entry under it behind `prefix`.
pub record IsFresh (prefix : Str) (m : Dict) (r : Option Str) : Type 0 where
  pub name : Str
  pub result : r ≡ some name
  pub unused : lookup (prefix ++ name) m ≡ none

-- `genBlockName` ends for every netlist and block type, with a name that no block of the netlist has.
pub gen_block_name-IsFresh :
    (type : BlockType) (s : Net) → IsFresh [] s.name2block (gen_block_name type s)
unfolding gen_block_name
gen_block_name-IsFresh type s =
    let r =
      first_free-Finds (suc (length s.name2block)) 1 (λ i. block_prefix type ++ to_string i)
        s.name2block (prefix_injective (block_prefix type)) (omega arith) in
    record {
      name = block_prefix type ++ to_string r.index;
      result = rw (r.found, gen_block_name);
      unused = r.unused;
    }

-- `genFreshPortName` ends for every block name and direction, with a local name such that no port
-- of the netlist has the full name that `createPort` builds from it.
pub gen_fresh_port_name-IsFresh :
    (block_name : Str) (is_input : Bool) (s : Net)
    → IsFresh (block_name ++ codes ":") s.name2port (gen_fresh_port_name block_name is_input s)
unfolding gen_fresh_port_name
gen_fresh_port_name-IsFresh block_name is_input s =
    let prefix = if is_input then codes "in" else codes "out" in
    let r =
      first_free-Finds (suc (length s.name2port)) 1
        (λ i. (block_name ++ codes ":") ++ (prefix ++ to_string i)) s.name2port
        (λ i j e. prefix_injective prefix i j (append-cancel (block_name ++ codes ":") _ _ e))
        (omega arith) in
    record {
      name = prefix ++ to_string r.index;
      result = rw (r.found, gen_fresh_port_name);
      unused = r.unused;
    }
