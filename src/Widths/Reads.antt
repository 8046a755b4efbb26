-- ===== src/Widths/Reads.antt =====
-- What the inference of widths needs of a netlist, and what its reads answer.
use fpt2022_artifact.Common.{ℕ, ◌≡◌, refl, sym, ap, ◌∙◌, ◌⊎◌, inl, inr}
use fpt2022_artifact.Common.{true, false, ◌&&◌, Option, none, some, List, [], ◌∷◌}
use fpt2022_artifact.Common.{if◌then◌else◌, ◌==◌, ltb, length, arith}
use fpt2022_artifact.Common.Int.{ℤ, is_neg, eqb_ℤ, minus_one}
use fpt2022_artifact.Common.Sets.{mem}
use fpt2022_artifact.Netlist.Types.{Net, Port, port, block, channel, first}
use fpt2022_artifact.Netlist.Types.{valid_block, valid_port, valid_channel, BlockType}
use fpt2022_artifact.Netlist.Types.{operator, elastic_buffer, fork, branch, merge, demux, select}
use fpt2022_artifact.Netlist.Types.{constant, func_entry, func_exit, source, sink, mux, cntrl_mg}
use fpt2022_artifact.Netlist.Types.{lsq, mc, smc_fifo, smc_sel, smc_cntrl, distributor, selector}
use fpt2022_artifact.Netlist.Types.{unknown}
use fpt2022_artifact.Netlist.Invariant.{HasPort, HasBlock, HasChannel}
use fpt2022_artifact.Netlist.Attributes.{get_block_type}
use fpt2022_artifact.Netlist.Blocks.{read_block}
use fpt2022_artifact.Netlist.Channels.{get_src_port, get_dst_port}
use fpt2022_artifact.Netlist.PortAttributes.{read_port, get_port_width, get_port_type}
use fpt2022_artifact.Widths.{find_select, find_data, is_selection}
use fpt2022_artifact.Widths.Refines.{Refines, width_of}

-- All ports of a list exist.
abbrev pub HasAll : Net → List ℕ → Type 0
HasAll s [] = Unit
HasAll s (p ∷ ps) = HasPort s p × HasAll s ps

abbrev pub HasSome : Net → Option ℕ → Type 0
HasSome s none = ⊥
HasSome s (some p) = HasPort s p

-- The selection port of a list of ports, as the types of the ports tell it.
abbrev pub selection_of : Net → List ℕ → Option ℕ
selection_of s [] = none
selection_of s (p ∷ ps) = if is_selection (port s p).type then some p else selection_of s ps

-- The ports that the visit of a block of a type reads are there. Demuxes are left out, since the
-- code reads an uninitialised variable for them, and so are the types that fail an assertion.
abbrev pub Shape : Net → ℕ → BlockType → Type 0
Shape s b operator = Unit
Shape s b constant = Unit
Shape s b func_entry = Unit
Shape s b func_exit = Unit
Shape s b sink = Unit
Shape s b source = Unit
Shape s b mux = Unit
Shape s b cntrl_mg = Unit
Shape s b lsq = Unit
Shape s b mc = Unit
Shape s b smc_sel = Unit
Shape s b smc_cntrl = Unit
Shape s b elastic_buffer =
    HasSome s (first (block s b).in_ports) × HasSome s (first (block s b).out_ports)
Shape s b smc_fifo =
    HasSome s (first (block s b).in_ports) × HasSome s (first (block s b).out_ports)
Shape s b fork = HasSome s (first (block s b).in_ports) × HasSome s (first (block s b).out_ports)
Shape s b merge = HasSome s (first (block s b).out_ports)
Shape s b branch = HasSome s (find_data (selection_of s (block s b).in_ports) (block s b).in_ports)
Shape s b select = HasSome s (first (block s b).out_ports)
Shape s b demux = ⊥
Shape s b distributor = ⊥
Shape s b selector = ⊥
Shape s b unknown = ⊥

-- The reads of the inference pass their assertions, and no width is below -1.
pub record IsReadable (s : Net) : Type 0 where
  pub blocks_valid : (b : ℕ) → HasBlock s b → valid_block s (some b) ≡ true
  pub ports_valid : (p : ℕ) → HasPort s p → valid_port s (some p) ≡ true
  pub channels_valid : (c : ℕ) → HasChannel s c → valid_channel s (some c) ≡ true
  pub sources : (c : ℕ) → HasChannel s c → HasPort s (channel s c).src
  pub targets : (c : ℕ) → HasChannel s c → HasPort s (channel s c).dst
  pub inputs : (b : ℕ) → HasBlock s b → HasAll s (block s b).in_ports
  pub outputs : (b : ℕ) → HasBlock s b → HasAll s (block s b).out_ports
  pub ports : (b : ℕ) → HasBlock s b → HasAll s (block s b).all_ports
  pub proper : (p : ℕ) → is_neg (width_of s p) ≡ eqb_ℤ (width_of s p) minus_one
  pub shapes : (b : ℕ) → HasBlock s b → Shape s b (block s b).type

module _ (s t : Net) (w : IsReadable s) (r : Refines s t) where
  pub block-same : (b : ℕ) → block t b ≡ block s b
  block-same b = ap (λ (x : Net). block x b) r.frame

  pub channel-same : (c : ℕ) → channel t c ≡ channel s c
  channel-same c = ap (λ (x : Net). channel x c) r.frame

  pub valid_block-same : (b : Option ℕ) → valid_block t b ≡ valid_block s b
  unfolding valid_block
  valid_block-same none = refl
  valid_block-same (some b) = ap (λ (x : Net). valid_block x (some b)) r.frame

  pub valid_channel-same : (c : Option ℕ) → valid_channel t c ≡ valid_channel s c
  unfolding valid_channel
  valid_channel-same none = refl
  valid_channel-same (some c) = ap (λ (x : Net). valid_channel x (some c)) r.frame

  pub valid_port-same : (p : Option ℕ) → valid_port t p ≡ valid_port s p
  unfolding valid_port
  valid_port-same none = refl
  valid_port-same (some p) =
      ap (λ n. ltb p n && ((port t p).id == p)) r.size
      ∙ ap (λ n. ltb p (length s.ports.slots) && (n == p)) (ap Port.id (r.rest p))

  pub HasPort-same : (p : ℕ) → HasPort s p → HasPort t p
  HasPort-same p h = ap (mem p) r.live ∙ h

  pub HasPort-back : (p : ℕ) → HasPort t p → HasPort s p
  HasPort-back p h = ap (mem p) (sym r.live) ∙ h

  -- The reads of `t` at what exists in `s`.
  pub get_port_width-reads : (p : ℕ) → HasPort s p → get_port_width (some p) t ≡ some (width_of t p)
  unfolding read_port
  get_port_width-reads p h = rw (valid_port-same (some p) ∙ w.ports_valid p h, read_port) refl

  pub get_port_type-reads : (p : ℕ) → HasPort s p → get_port_type (some p) t ≡ some (port s p).type
  unfolding read_port
  get_port_type-reads p h =
      rw (valid_port-same (some p) ∙ w.ports_valid p h, read_port)
        (ap (λ (q : Port). some q.type) (r.rest p))

  pub get_block_type-reads :
      (b : ℕ) → HasBlock s b → get_block_type (some b) t ≡ some (block s b).type
  unfolding read_block
  get_block_type-reads b h =
      rw (valid_block-same (some b) ∙ w.blocks_valid b h, read_block)
        (ap (λ x. some x.type) (block-same b))

  pub get_src_port-reads :
      (c : ℕ) → HasChannel s c → get_src_port (some c) t ≡ some (channel s c).src
  unfolding get_src_port
  get_src_port-reads c h =
      rw (valid_channel-same (some c) ∙ w.channels_valid c h, get_src_port)
        (ap (λ x. some x.src) (channel-same c))

  pub get_dst_port-reads :
      (c : ℕ) → HasChannel s c → get_dst_port (some c) t ≡ some (channel s c).dst
  unfolding get_dst_port
  get_dst_port-reads c h =
      rw (valid_channel-same (some c) ∙ w.channels_valid c h, get_dst_port)
        (ap (λ x. some x.dst) (channel-same c))

  pub find_select-reads : (ps : List ℕ) → HasAll s ps → find_select ps t ≡ some (selection_of s ps)
  unfolding find_select
  find_select-reads [] h = refl
  find_select-reads (p ∷ ps) h =
      rw (get_port_type-reads p h.0, find_select) (ground (arith, find_select-reads ps h.1))

  -- No width of `t` is below -1.
  pub proper-same : (p : ℕ) → is_neg (width_of t p) ≡ eqb_ℤ (width_of t p) minus_one
  proper-same p = proper_of (width_of t p) (width_of s p) (w.proper p) (r.widths p)
    where
      proper_of :
          (v u : ℤ)
          → is_neg u ≡ eqb_ℤ u minus_one
          → (v ≡ u) ⊎ ((is_neg u ≡ true) × (is_neg v ≡ false))
          → is_neg v ≡ eqb_ℤ v minus_one
      proper_of v u h (inl e) = rw e h
      proper_of v u h (inr k) = ground (arith, k)
