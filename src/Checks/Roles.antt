-- ===== src/Checks/Roles.antt =====
-- The checks of branches, selects and demuxes (Buffers/src/DFnetlist_check.cpp), which also find the
-- ports that have a role of their own.
use fpt2022_artifact.Common.{ℕ, suc, ◌+◌, Bool, true, false, not, ◌&&◌, Option, none, some}
use fpt2022_artifact.Common.{List, [], ◌∷◌, if◌then◌else◌, ◌==◌, ltb}
use fpt2022_artifact.Common.Int.{ℤ, pos, minus_one, eqb_ℤ}
use fpt2022_artifact.Common.Text.{codes}
use fpt2022_artifact.Netlist.Types.{Net, PortType, Op, ◌>>=◌, ◌>>◌, ret, look}
use fpt2022_artifact.Netlist.Types.{block, valid_port, input_ports, output_ports}
use fpt2022_artifact.Netlist.Types.{selection_port, true_port, false_port}
use fpt2022_artifact.Netlist.Ports.{get_ports}
use fpt2022_artifact.Netlist.Blocks.{update_block}
use fpt2022_artifact.Netlist.PortAttributes.{
  get_port_width, get_port_type, num_in_ports, num_out_ports, get_out_port, is_control_port,
  is_boolean_port,
}
use fpt2022_artifact.Checks.{
  fail_block, ◌and_also◌, require, check_num_ports, check_same_width, is_generic,
}

-- The local counters and the role fields of the block, in a scan of its ports.
pub record Scan : Type 0 where
  pub nsel : ℕ
  pub ntrue : ℕ
  pub nfalse : ℕ
  pub cond : Option ℕ
  pub on_true : Option ℕ
  pub on_false : Option ℕ
  pub data_in : Option ℕ

abbrev pub scan_start : Scan
scan_start = record {
  nsel = 0;
  ntrue = 0;
  nfalse = 0;
  cond = none;
  on_true = none;
  on_false = none;
  data_in = none;
}

-- One input port of a branch: the condition, or the data.
unfoldable pub scan_input : ℕ → PortType → Scan → Scan
scan_input p selection_port k = record k { nsel = suc k.nsel; cond = some p }
scan_input p other k = record k { data_in = some p }

-- One output port of a branch.
unfoldable pub scan_output : ℕ → PortType → Scan → Scan
scan_output p true_port k = record k { ntrue = suc k.ntrue; on_true = some p }
scan_output p false_port k = record k { nfalse = suc k.nfalse; on_false = some p }
scan_output p other k = k

-- One input port of a select.
unfoldable pub scan_select : ℕ → PortType → Scan → Scan
scan_select p selection_port k = record k { nsel = suc k.nsel; cond = some p }
scan_select p true_port k = record k { ntrue = suc k.ntrue; on_true = some p }
scan_select p false_port k = record k { nfalse = suc k.nfalse; on_false = some p }
scan_select p other k = k

unfoldable pub scan_ports : (ℕ → PortType → Scan → Scan) → List ℕ → Scan → Net → Option Scan
scan_ports f [] k s = some k
scan_ports f (p ∷ ps) k s = elim (get_port_type (some p) s) [
  | none ↦ none
  | some t ↦ scan_ports f ps (f p t k) s
]

-- The role fields as a scan has them; `srcCond` keeps its value.
unfoldable pub store_roles : ℕ → Scan → Op (Unit {0})
store_roles b k =
    update_block
      (λ x. record x {
        roles = record x.roles {
          port_cond = k.cond;
          port_true = k.on_true;
          port_false = k.on_false;
          data_port = k.data_in;
        };
      })
      (some b)

-- `validPort(p) and not checkSamePortWidth(p, data)` does not hold.
unfoldable pub optional_width : Option ℕ → Option ℕ → Op Bool
optional_width p d s = if valid_port s p then check_same_width p d s else some (true, s)

-- The last test of `checkBranch` and `checkSelect`: its own message replaces the one of the widths.
unfoldable pub or_widths : ℕ → Op Bool → Op Bool
or_widths b m = do same ← m; require same (fail_block b (codes ": inconsistent port widths."))

-- `checkBranch`. The role fields are stored as far as the scans have come when a check fails.
unfoldable pub check_branch : ℕ → Op Bool
check_branch b = check_num_ports b (pos 2) minus_one and_also do
  n_out ← look (num_out_ports (some b))
  require (not (n_out == 0) && not (ltb 2 n_out))
        (fail_block b (codes ": incorrect number of output ports."))
      and_also do
        ins ← look (get_ports (some b) input_ports)
        k ← look (scan_ports scan_input ins scan_start)
        store_roles b k
        require (not (ltb 1 k.nsel)) (fail_block b (codes " has two condition ports."))
            and_also require (not (k.nsel == 0)) (fail_block b (codes " has no condition port."))
            and_also do
              outs ← look (get_ports (some b) output_ports)
              r ← look (scan_ports scan_output outs k)
              store_roles b r
              require
                    ((r.ntrue + r.nfalse == n_out) && (not (ltb 1 r.ntrue) && not (ltb 1 r.nfalse)))
                    (fail_block b (
                      codes ": wrong configuration of output ports for the true/false conditions."))
                  and_also do
                    bool ← look (is_boolean_port r.cond)
                    require bool (fail_block b (codes ": the condition port is not Boolean."))
                        and_also or_widths b (
                            optional_width r.on_true r.data_in
                            and_also optional_width r.on_false r.data_in)

-- `checkSelect`. The data port is the output port.
unfoldable pub store_select : ℕ → Scan → Op (Unit {0})
store_select b k =
    update_block
      (λ x. record x {
        roles = record x.roles {
          port_cond = k.cond;
          port_true = k.on_true;
          port_false = k.on_false;
        };
      })
      (some b)

unfoldable pub store_data : ℕ → Option ℕ → Op (Unit {0})
store_data b d = update_block (λ x. record x { roles = record x.roles { data_port = d } }) (some b)

unfoldable pub check_select : ℕ → Op Bool
check_select b = check_num_ports b (pos 3) (pos 1) and_also do
  ins ← look (get_ports (some b) input_ports)
  k ← look (scan_ports scan_select ins scan_start)
  store_select b k
  require ((k.nsel == 1) && ((k.ntrue == 1) && (k.nfalse == 1)))
        (fail_block b (codes ": wrong configuration of input ports for a select."))
      and_also do
        d ← look (λ s. some (get_out_port b s))
        store_data b d
        t ← look (get_port_type d)
        require (is_generic t) (fail_block b (codes ": output port should be generic.")) and_also do
          bool ← look (is_boolean_port k.cond)
          require bool (fail_block b (codes ": the condition port is not Boolean."))
              and_also or_widths b
                  (check_same_width k.on_true k.on_false and_also check_same_width k.on_true d)

-- The scan of the input ports of a demux: the last port that is not control, and the number of the
-- others.
unfoldable pub scan_control : List ℕ → Option ℕ → ℕ → Net → Option (Option ℕ × ℕ)
scan_control [] d n s = some (d, n)
scan_control (p ∷ ps) d n s = elim (is_control_port (some p) s) [
  | none ↦ none
  | some true ↦ scan_control ps d (suc n) s
  | some false ↦ scan_control ps (some p) n s
]

unfoldable pub all_data_width : ℕ → ℤ → List ℕ → Op Bool
all_data_width b width [] = ret true
all_data_width b width (p ∷ ps) =
    (do
      w ← look (get_port_width (some p))
      require (eqb_ℤ w width) (fail_block b (codes ": Width mismatch of data ports.")))
    and_also all_data_width b width ps

-- One port of each pair must be control.
unfoldable pub all_paired : ℕ → List (ℕ × ℕ) → Op Bool
all_paired b [] = ret true
all_paired b ((p, q) ∷ ps) =
    (do
      first ← look (is_control_port (some p))
      second ← look (λ s. if first then some true else is_control_port (some q) s)
      require second (fail_block b (codes ": Incorrect pairing of control and data ports.")))
    and_also all_paired b ps

-- `checkDemux`
unfoldable pub check_demux : ℕ → Op Bool
check_demux b = do
  nin ← look (num_in_ports (some b))
  nout ← look (num_out_ports (some b))
  require (suc nin == nout) (fail_block b (codes ": Incorrect number of ports.")) and_also do
    ins ← look (get_ports (some b) input_ports)
    found ← look (scan_control ins none 0)
    require (suc found.1 == nin) (fail_block b (codes ": Incorrect number of data ports."))
        and_also do
          width ← look (get_port_width found.0)
          outs ← look (get_ports (some b) output_ports)
          all_data_width b width outs and_also λ s. all_paired b (block s b).demux_pairs s
