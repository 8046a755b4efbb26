-- ===== src/Widths.antt =====
-- The inference of port widths (Buffers/src/DFnetlist_channel_width.cpp): known widths, from 0 up,
-- spread through blocks and channels to the ports whose width is -1.
pub mod Refines
pub mod Reads
pub mod Moves
pub mod Visits
pub mod Rounds
pub mod Inference
pub mod Balance
mod Tests
use fpt2022_artifact.Common.{ℕ, zero, suc, Bool, true, false, not, ◌&&◌, ◌||◌, Option, none, some}
use fpt2022_artifact.Common.{List, [], ◌∷◌, if◌then◌else◌, opt_eq, length}
use fpt2022_artifact.Common.Int.{ℤ, pos, minus_one, eqb_ℤ, is_neg, max_ℤ}
use fpt2022_artifact.Netlist.Types.{Net, BlockType, PortType, Op, ◌>>=◌, ◌>>◌, ret, look, block}
use fpt2022_artifact.Netlist.Types.{valid_port}
use fpt2022_artifact.Netlist.Types.{operator, elastic_buffer, fork, branch, merge, demux, select}
use fpt2022_artifact.Netlist.Types.{constant, func_entry, func_exit, source, sink, mux, cntrl_mg}
use fpt2022_artifact.Netlist.Types.{lsq, mc, smc_fifo, smc_sel, smc_cntrl, distributor, selector}
use fpt2022_artifact.Netlist.Types.{unknown, selection_port}
use fpt2022_artifact.Netlist.Channels.{get_src_port, get_dst_port}
use fpt2022_artifact.Netlist.Attributes.{get_block_type}
use fpt2022_artifact.Netlist.PortAttributes.{
  get_port_width, set_port_width, get_port_type, get_in_port, get_out_port, get_data_port,
}

-- A part of the inference answers whether it has changed a width (`changes`). Two parts in turn:
infixr 6 ◌then_also◌
unfoldable pub ◌then_also◌ : Op Bool → Op Bool → Op Bool
m then_also k = do c ← m; d ← k; ret (c || d)

-- The loop `ForAllBlocks` or `ForAllChannels` over a body that answers so.
unfoldable pub for_all : (ℕ → Op Bool) → List ℕ → Op Bool
for_all f [] = ret false
for_all f (x ∷ xs) = f x then_also for_all f xs

-- `setPortWidth(p, w); changes = true;`
unfoldable pub define_width : Option ℕ → ℤ → Op Bool
define_width p w = do set_port_width p w; ret true

-- `if (getPortWidth(p) < 0) { setPortWidth(p, w); changes = true; }`, with the test as it is written.
unfoldable pub define_unknown : (ℤ → Bool) → ℤ → ℕ → Op Bool
define_unknown test w p = do
  old ← look (get_port_width (some p))
  if test old then define_width (some p) w else ret false

abbrev pub is_minus_one : ℤ → Bool
is_minus_one w = eqb_ℤ w minus_one

-- `for (p) w = max(w, getPortWidth(p));` over the ports but one.
unfoldable pub max_width : Option ℕ → ℤ → List ℕ → Net → Option ℤ
max_width skip w [] s = some w
max_width skip w (p ∷ ps) s =
    if opt_eq (some p) skip
    then max_width skip w ps s
    else elim (get_port_width (some p) s) [ none ↦ none | some v ↦ max_width skip (max_ℤ w v) ps s ]

abbrev pub is_selection : PortType → Bool
is_selection selection_port = true
is_selection other = false

-- The first selection port among the input ports (`select`).
unfoldable pub find_select : List ℕ → Net → Option (Option ℕ)
find_select [] s = some none
find_select (p ∷ ps) s = elim (get_port_type (some p) s) [
  | none ↦ none
  | some t ↦ if is_selection t then some (some p) else find_select ps s
]

-- `validPort(p) ? getPortWidth(p) : -1`
unfoldable pub width_or_unknown : Option ℕ → Net → Option ℤ
width_or_unknown p s = if valid_port s p then get_port_width p s else some minus_one

-- `w = -1; for (p) w = max(w, getPortWidth(p)); if (w >= 0) { setPortWidth(to, w); changes = true; }`
unfoldable pub collect : Option ℕ → List ℕ → Option ℕ → Op Bool
collect skip ps to = do
  w ← look (max_width skip minus_one ps)
  if not (is_neg w) then define_width to w else ret false

-- The case ELASTIC_BUFFER, without the cases that it falls through to.
unfoldable pub visit_buffer : Option ℕ → Option ℕ → ℤ → ℤ → Op Bool
visit_buffer p_in p_out w_in w_out =
    if is_neg w_in && not (is_neg w_out)
    then define_width p_in w_out
    else if not (is_neg w_in) && is_neg w_out
    then define_width p_out w_in
    else ret false

-- The case FORK with the output ports, and MERGE with the input ports: `w` is the width of the other
-- port `p` as it was when the visit began.
unfoldable pub spread : (ℤ → Bool) → List ℕ → Option ℕ → Option ℕ → ℤ → Op Bool
spread test ps skip p w =
    if not (is_neg w) then for_all (define_unknown test w) ps else collect skip ps p

-- The input port of a branch that is not the selection port.
unfoldable pub find_data : Option ℕ → List ℕ → Option ℕ
find_data sel [] = none
find_data sel (p ∷ ps) = if opt_eq (some p) sel then find_data sel ps else some p

-- The cases BRANCH, DEMUX and SELECT: from or to the data port `d`.
unfoldable pub visit_data : List ℕ → Option ℕ → Option ℕ → Op Bool
visit_data ps skip d = do w_data ← look (get_port_width d); spread is_minus_one ps skip d w_data

-- The `switch`, on what the visit has read before it.
unfoldable pub visit_type :
    BlockType → ℕ → List ℕ → List ℕ → Option ℕ → Option ℕ → ℤ → ℤ → Option ℕ → Op Bool
visit_type operator b ins outs p_in p_out w_in w_out sel = ret false
visit_type constant b ins outs p_in p_out w_in w_out sel = ret false
visit_type func_entry b ins outs p_in p_out w_in w_out sel = ret false
visit_type func_exit b ins outs p_in p_out w_in w_out sel = ret false
visit_type sink b ins outs p_in p_out w_in w_out sel = ret false
visit_type source b ins outs p_in p_out w_in w_out sel = ret false
visit_type mux b ins outs p_in p_out w_in w_out sel = ret false
visit_type cntrl_mg b ins outs p_in p_out w_in w_out sel = ret false
visit_type lsq b ins outs p_in p_out w_in w_out sel = ret false
visit_type mc b ins outs p_in p_out w_in w_out sel = ret false
visit_type smc_sel b ins outs p_in p_out w_in w_out sel = ret false
visit_type smc_cntrl b ins outs p_in p_out w_in w_out sel = ret false
visit_type elastic_buffer b ins outs p_in p_out w_in w_out sel =
    visit_buffer p_in p_out w_in w_out
    then_also spread is_neg outs none p_in w_in
    then_also spread is_neg ins none p_out w_out
visit_type smc_fifo b ins outs p_in p_out w_in w_out sel =
    visit_buffer p_in p_out w_in w_out
    then_also spread is_neg outs none p_in w_in
    then_also spread is_neg ins none p_out w_out
visit_type fork b ins outs p_in p_out w_in w_out sel =
    spread is_neg outs none p_in w_in then_also spread is_neg ins none p_out w_out
visit_type merge b ins outs p_in p_out w_in w_out sel = spread is_neg ins none p_out w_out
visit_type branch b ins outs p_in p_out w_in w_out sel = visit_data outs none (find_data sel ins)
visit_type demux b ins outs p_in p_out w_in w_out sel =
    look (get_data_port (some b)) >>= λ d. visit_data outs none d
visit_type select b ins outs p_in p_out w_in w_out sel = visit_data ins sel p_out
visit_type distributor b ins outs p_in p_out w_in w_out sel = look (λ s. none)
visit_type selector b ins outs p_in p_out w_in w_out sel = look (λ s. none)
visit_type unknown b ins outs p_in p_out w_in w_out sel = look (λ s. none)

-- The visit of one block, with the ports of the block at hand.
unfoldable pub visit_ports : ℕ → List ℕ → List ℕ → Option ℕ → Option ℕ → Op Bool
visit_ports b ins outs p_in p_out = do
  t ← look (get_block_type (some b))
  w_in ← look (width_or_unknown p_in)
  w_out ← look (width_or_unknown p_out)
  sel ← look (find_select ins)
  visit_type t b ins outs p_in p_out w_in w_out sel

unfoldable pub visit_block : ℕ → Op Bool
visit_block b s =
    visit_ports b (block s b).in_ports (block s b).out_ports (get_in_port b s) (get_out_port b s) s

-- The propagation through one channel.
unfoldable pub visit_channel : ℕ → Op Bool
visit_channel c = do
  src ← look (get_src_port (some c))
  dst ← look (get_dst_port (some c))
  w_src ← look (get_port_width (some src))
  w_dst ← look (get_port_width (some dst))
  if eqb_ℤ w_src w_dst
      then ret false
      else if is_minus_one w_src
      then define_width (some src) w_dst
      else if is_minus_one w_dst
      then define_width (some dst) w_src
      else ret false

-- The body of the `do` loop.
unfoldable pub infer_round : Op Bool
infer_round s =
    (for_all visit_block s.blocks.live then_also for_all visit_channel s.channels.live) s

-- The `do` loop, in at most `fuel` rounds; `none` when these are used up.
unfoldable pub infer_rounds : ℕ → Op (Unit {0})
infer_rounds zero s = none
infer_rounds (suc fuel) s = elim (infer_round s) [
  | none ↦ none
  | some (true, t) ↦ infer_rounds fuel t
  | some (false, t) ↦ some (tt, t)
]

-- The widths that are known from the start. Of a demux the code reads the data port of a block
-- number that it has not initialised: `garbage`.
unfoldable pub define_control : Option ℕ → List ℕ → Op Bool
define_control d [] = ret false
define_control d (p ∷ ps) =
    (if opt_eq (some p) d then ret false else define_unknown is_neg (pos 0) p)
    then_also define_control d ps

unfoldable pub define_condition : Option ℕ → Op Bool
define_condition none = ret false
define_condition (some p) = define_unknown is_neg (pos 1) p

unfoldable pub define_input : Option ℕ → Op Bool
define_input none s = some (false, s)
define_input (some p) s =
    if valid_port s (some p) then define_unknown is_neg (pos 0) p s else some (false, s)

unfoldable pub define_type : Option ℕ → BlockType → List ℕ → Option ℕ → Op Bool
define_type garbage constant ins p_in = define_input p_in
define_type garbage branch ins p_in = look (find_select ins) >>= define_condition
define_type garbage select ins p_in = look (find_select ins) >>= define_condition
define_type garbage demux ins p_in = look (get_data_port garbage) >>= λ d. define_control d ins
define_type garbage other ins p_in = ret false

unfoldable pub define_known : Option ℕ → ℕ → Op Bool
define_known garbage b s =
    (look (get_block_type (some b)) >>= λ t.
    define_type garbage t (block s b).in_ports (get_in_port b s))
      s

-- The last loop: the ports of a block that are still unknown get the default width.
unfoldable pub define_default : ℤ → ℕ → Op Bool
define_default width b s = for_all (define_unknown is_minus_one width) (block s b).all_ports s

-- `inferChannelWidth`. Each round but the last defines a port, so a round more than there are ports
-- is enough.
unfoldable pub infer_channel_width : Option ℕ → ℤ → Op (Unit {0})
infer_channel_width garbage width s =
    (do
      _ ← for_all (define_known garbage) s.blocks.live
      infer_rounds (suc (length s.ports.live))
      _ ← for_all (define_default width) s.blocks.live
      ret tt)
      s
