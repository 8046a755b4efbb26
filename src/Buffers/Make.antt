-- ===== src/Buffers/Make.antt =====
-- The block that `insertBuffer` makes: a new elastic buffer with one input and one output port.
use fpt2022_artifact.Common.{ℕ, ◌≡◌, refl, sym, ap, ◌∙◌, arith}
use fpt2022_artifact.Common.{Bool, true, false, ◌||◌, Option, none, some, [], ◌∷◌, ◌++◌}
use fpt2022_artifact.Common.{◌==◌}
use fpt2022_artifact.Common.Int.{ℤ}
use fpt2022_artifact.Common.Sets.{mem, insert}
use fpt2022_artifact.Common.Text.{Str, codes, lookup, str_eq}
use fpt2022_artifact.Slab.{at}
use fpt2022_artifact.Netlist.Types.{Net, Port, ◌>>=◌, BlockAttrs, ret, block, port}
use fpt2022_artifact.Netlist.Types.{bind-runs, elastic_buffer, generic_port, port_zero}
use fpt2022_artifact.Netlist.Ports.{create_port, is_demux}
use fpt2022_artifact.Netlist.Invariant.{IsWellFormed, HasBlock, HasPort}
use fpt2022_artifact.Netlist.Invariant.NewPort.{MakesPort}
use fpt2022_artifact.Netlist.Invariant.NewBlock.{MakesBlock}
use fpt2022_artifact.Buffers.{make_buffer}
use fpt2022_artifact.Buffers.Parts.{
  NamesApart, in_name, out_name, in_name-out_name, Annotates, create_block_generated,
  create_port_named, annotate, annotate-runs,
}

-- The block that `insertBuffer` makes.
pub record MakesBuffer (t : Net) (slots : ℤ) (transparent : Bool) (bb : Option ℕ) (width : ℤ)
    (r : (Option ℕ × Option ℕ × Option ℕ) × Net) : Type 0 where
  pub eb : ℕ
  pub inp : ℕ
  pub outp : ℕ
  pub result : r.0 ≡ (some eb, some inp, some outp)
  pub formed : IsWellFormed r.1
  pub fresh : mem eb t.blocks.live ≡ false
  pub blocks_exist : (c : ℕ) → mem c r.1.blocks.live ≡ ((eb == c) || mem c t.blocks.live)
  pub blocks_keep : (c : ℕ) → HasBlock t c → block r.1 c ≡ block t c
  pub type_set : (block r.1 eb).type ≡ elastic_buffer
  pub in_ports : (block r.1 eb).in_ports ≡ inp ∷ []
  pub out_ports : (block r.1 eb).out_ports ≡ outp ∷ []
  pub slots_set : (block r.1 eb).attrs.slots ≡ slots
  pub transparent_set : (block r.1 eb).attrs.transparent ≡ transparent
  pub basic_block_set : (block r.1 eb).attrs.basic_block ≡ bb
  pub differ : (inp == outp) ≡ false
  pub in_fresh : mem inp t.ports.live ≡ false
  pub out_fresh : mem outp t.ports.live ≡ false
  pub ports_exist :
      (q : ℕ) → mem q r.1.ports.live ≡ ((outp == q) || ((inp == q) || mem q t.ports.live))
  pub ports_keep : (q : ℕ) → HasPort t q → port r.1 q ≡ port t q
  pub in_direction : (port r.1 inp).is_input ≡ true
  pub out_direction : (port r.1 outp).is_input ≡ false
  pub in_unlinked : (port r.1 inp).channel ≡ none
  pub out_unlinked : (port r.1 outp).channel ≡ none
  pub in_width : (port r.1 inp).width ≡ width
  pub out_width : (port r.1 outp).width ≡ width
  pub channels_keep : r.1.channels ≡ t.channels

-- The new block after its annotations, and the dictionary of the ports.
record IsBare (t : Net) (slots : ℤ) (transparent : Bool) (bb : Option ℕ) (eb : ℕ) (g : Str)
    (u : Net) : Type 0 where
  formed : IsWellFormed u
  fresh : mem eb t.blocks.live ≡ false
  exists : (c : ℕ) → mem c u.blocks.live ≡ ((eb == c) || mem c t.blocks.live)
  no_ports : (block u eb).all_ports ≡ []
  no_inputs : (block u eb).in_ports ≡ []
  no_outputs : (block u eb).out_ports ≡ []
  type_set : (block u eb).type ≡ elastic_buffer
  name_set : (block u eb).name ≡ g
  slots_set : (block u eb).attrs.slots ≡ slots
  transparent_set : (block u eb).attrs.transparent ≡ transparent
  basic_block_set : (block u eb).attrs.basic_block ≡ bb
  blocks_keep : (c : ℕ) → HasBlock t c → block u c ≡ block t c
  ports_keep : u.ports ≡ t.ports
  channels_keep : u.channels ≡ t.channels
  names_keep : u.name2port ≡ t.name2port

annotated-IsBare :
    (t : Net) (slots : ℤ) (transparent : Bool) (bb : Option ℕ) (eb : ℕ) (g : Str) (v u : Net)
    → MakesBlock t elastic_buffer g eb v
    → v.name2port ≡ t.name2port
    → Annotates v eb (annotate slots transparent bb) u
    → IsBare t slots transparent bb eb g u
annotated-IsBare t slots transparent bb eb g v u m names a = record {
  formed = a.formed;
  fresh = m.fresh;
  exists = λ c. a.live c ∙ m.exists c;
  no_ports = ground (arith, a.blocks eb, m.no_ports);
  no_inputs = ground (arith, a.blocks eb, m.no_inputs);
  no_outputs = ground (arith, a.blocks eb, m.no_outputs);
  type_set = ground (arith, a.blocks eb, m.type_set);
  name_set = ground (arith, a.blocks eb, m.name_set);
  slots_set = ground (arith, a.blocks eb);
  transparent_set = ground (arith, a.blocks eb);
  basic_block_set = ground (arith, a.blocks eb);
  blocks_keep = λ c h. ground (arith, a.blocks c, m.others_keep c h, m.fresh);
  ports_keep = a.ports_keep ∙ m.ports_keep;
  channels_keep = a.channels_keep ∙ m.channels_keep;
  names_keep = a.names_keep ∙ names;
}

-- The ports of the new block: the full record of the netlist after both.
both-MakesBuffer :
    (t : Net) (slots : ℤ) (transparent : Bool) (bb : Option ℕ) (width : ℤ) (eb : ℕ) (g : Str)
    (u : Net) (one two : Option ℕ × Net) (full_in full_out : Str)
    → IsBare t slots transparent bb eb g u
    → MakesPort u eb true (codes "in1") full_in width generic_port one
    → MakesPort one.1 eb false (codes "out1") full_out width generic_port two
    → MakesBuffer t slots transparent bb width ((some eb, one.0, two.0), two.1)
unfolding insert
both-MakesBuffer t slots transparent bb width eb g u one two full_in full_out bare i o =
    let was = λ (q : ℕ). ap (λ ps. mem q ps.live) bare.ports_keep in
    let kept = λ (q : ℕ) (h : HasPort one.1 q). o.ports_keep q h in
    let has_in : HasPort one.1 i.pid = i.exists i.pid ∙ ground arith in
    record {
      eb = eb;
      inp = i.pid;
      outp = o.pid;
      result = rw (i.result, o.result) refl;
      formed = o.formed;
      fresh = bare.fresh;
      blocks_exist = λ c. o.blocks_keep c ∙ (i.blocks_keep c ∙ bare.exists c);
      blocks_keep =
          λ c h. ground (arith, o.others_keep c, i.others_keep c, bare.blocks_keep c h, bare.fresh);
      type_set = o.type_keeps ∙ (i.type_keeps ∙ bare.type_set);
      in_ports = o.sets_in ∙ (i.sets_in ∙ ap (insert i.pid) bare.no_inputs);
      out_ports = o.sets_out ∙ ap (insert o.pid) (i.sets_out ∙ bare.no_outputs);
      slots_set = ap BlockAttrs.slots (o.attrs_keep ∙ i.attrs_keep) ∙ bare.slots_set;
      transparent_set =
          ap BlockAttrs.transparent (o.attrs_keep ∙ i.attrs_keep) ∙ bare.transparent_set;
      basic_block_set =
          ap BlockAttrs.basic_block (o.attrs_keep ∙ i.attrs_keep) ∙ bare.basic_block_set;
      differ = ground (arith, o.fresh, has_in);
      in_fresh = sym (was i.pid) ∙ i.fresh;
      out_fresh = ground (arith, was o.pid, i.exists o.pid, o.fresh);
      ports_exist = λ q. ground (arith, o.exists q, i.exists q, was q);
      ports_keep = λ q h.
          let here : HasPort u q = was q ∙ h in
          kept q (i.exists q ∙ ground (arith, here))
          ∙ (i.ports_keep q here ∙ ap (λ ps. at port_zero ps q) bare.ports_keep);
      in_direction = ap Port.is_input (kept i.pid has_in) ∙ i.direction;
      out_direction = o.direction;
      in_unlinked = ap Port.channel (kept i.pid has_in) ∙ i.unlinked;
      out_unlinked = o.unlinked;
      in_width = ap Port.width (kept i.pid has_in) ∙ i.width_set;
      out_width = o.width_set;
      channels_keep = o.channels_keep ∙ (i.channels_keep ∙ bare.channels_keep);
    }

-- The calls of `createPort` in `insertBuffer`.
ports-MakesBuffer :
    (t : Net) (slots : ℤ) (transparent : Bool) (bb : Option ℕ) (width : ℤ) (eb : ℕ) (g : Str)
    (u : Net)
    → lookup (in_name g) t.name2port ≡ none
    → lookup (out_name g) t.name2port ≡ none
    → IsBare t slots transparent bb eb g u
    → (r : (Option ℕ × Option ℕ × Option ℕ) × Net) × ((create_port
              (some eb)
              true
              (codes "in1")
              width
              generic_port
            >>= (λ in_buf.
                create_port (some eb) false (codes "out1") width generic_port
                >>= (λ out_buf. ret (some eb, in_buf, out_buf))))
          u
        ≡ some r)
      × MakesBuffer t slots transparent bb width r
unfolding is_demux
ports-MakesBuffer t slots transparent bb width eb g u no_in no_out bare =
    let here : HasBlock u eb = bare.exists eb ∙ ground arith in
    let plain : is_demux (block u eb).type ≡ false = rw bare.type_set refl in
    let (one, e1, i, names) =
      create_port_named u eb true (codes "in1") width generic_port bare.formed here plain refl
        (rw (bare.name_set, bare.names_keep) no_in) in
    let still : HasBlock one.1 eb = i.blocks_keep eb ∙ here in
    let plain2 : is_demux (block one.1 eb).type ≡ false = rw i.type_keeps plain in
    let other : str_eq ((block u eb).name ++ codes ":" ++ codes "in1") (out_name g) ≡ false =
      rw bare.name_set (in_name-out_name g) in
    let (two, e2, o, _) =
      create_port_named one.1 eb false (codes "out1") width generic_port i.formed still plain2 refl
        (rw (i.name_keeps, bare.name_set)
          (names (out_name g) other ∙ (ap (lookup (out_name g)) bare.names_keep ∙ no_out))) in
    (
      ((some eb, one.0, two.0), two.1),
      bind-runs _ _ u one.1 one.0 e1 ∙ bind-runs _ _ one.1 two.1 two.0 e2,
      both-MakesBuffer t slots transparent bb width eb g u one two _ _ bare i o,
    )

-- The part of `insertBuffer` that makes the block returns, with the new block and its two ports.
pub make_buffer-MakesBuffer :
    (t : Net) (slots : ℤ) (transparent : Bool) (bb : Option ℕ) (width : ℤ)
    → IsWellFormed t
    → NamesApart t
    → (r : (Option ℕ × Option ℕ × Option ℕ) × Net) × (make_buffer slots transparent bb width t
        ≡ some r)
      × MakesBuffer t slots transparent bb width r
unfolding make_buffer
make_buffer-MakesBuffer t slots transparent bb width w apart =
    let (g, eb, v, e, new, m, names) = create_block_generated t elastic_buffer w apart.no_empty in
    let (u, run, a) =
      annotate-runs v eb slots transparent bb _ m.formed (m.exists eb ∙ ground arith) in
    let (r, done, made) =
      ports-MakesBuffer t slots transparent bb width eb g u (apart.no_input g new)
        (apart.no_output g new) (annotated-IsBare t slots transparent bb eb g v u m names a) in
    (r, bind-runs _ _ t v (some eb) e ∙ (run ∙ done), made)
