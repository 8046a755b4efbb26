-- ===== src/Buffers/Parts.antt =====
-- The calls of `insertBuffer` that make and annotate a block and its ports (Buffers/src/DFnetlist_buffers.cpp),
-- each on a well-formed netlist.
use fpt2022_artifact.Common.{ℕ, ◌≡◌, refl, ap, ◌∙◌, arith}
use fpt2022_artifact.Common.{Bool, false, Option, none, some, [], ◌∷◌, ◌++◌}
use fpt2022_artifact.Common.{if◌then◌else◌, ◌==◌}
use fpt2022_artifact.Common.Int.{ℤ}
use fpt2022_artifact.Common.Sets.{mem}
use fpt2022_artifact.Common.Text.{Str, codes, lookup, is_empty, str_eq, lookup-emplace}
use fpt2022_artifact.Slab.{put}
use fpt2022_artifact.Netlist.Types.{Net, Block, BlockType, PortType, Op, ◌>>◌, BlockAttrs, block}
use fpt2022_artifact.Netlist.Types.{bind-runs}
use fpt2022_artifact.Netlist.Names.{gen_block_name-IsFresh}
use fpt2022_artifact.Netlist.Ports.{create_port, create_named_port, is_demux}
use fpt2022_artifact.Netlist.Blocks.{create_block, get_block, add_block, update_block}
use fpt2022_artifact.Netlist.Attributes.{set_buffer_size, set_buffer_transparency, set_basic_block}
use fpt2022_artifact.Netlist.Invariant.{IsWellFormed, HasBlock}
use fpt2022_artifact.Netlist.Invariant.NewPort.{
  MakesPort, add_port-MakesPort, add_port-names, add_port_total,
}
use fpt2022_artifact.Netlist.Invariant.NewBlock.{MakesBlock, add_block-MakesBlock}
use fpt2022_artifact.Netlist.Invariant.Updates.{KeepsSets, update-block, update-IsWellFormed}

-- The names of the two ports of a buffer that is called `g`.
abbrev pub in_name : Str → Str
in_name g = g ++ codes ":" ++ codes "in1"

abbrev pub out_name : Str → Str
out_name g = g ++ codes ":" ++ codes "out1"

-- No block has the empty name, and a name that no block has stands in no port's name.
pub record NamesApart (s : Net) : Type 0 where
  pub no_empty : lookup [] s.name2block ≡ none
  pub no_input : (g : Str) → lookup g s.name2block ≡ none → lookup (in_name g) s.name2port ≡ none
  pub no_output : (g : Str) → lookup g s.name2block ≡ none → lookup (out_name g) s.name2port ≡ none

-- An update of the annotations of a block.
pub record Annotates (t : Net) (b : ℕ) (f : Block → Block) (u : Net) : Type 0 where
  pub formed : IsWellFormed u
  pub ports_keep : u.ports ≡ t.ports
  pub channels_keep : u.channels ≡ t.channels
  pub names_keep : u.name2port ≡ t.name2port
  pub live : (c : ℕ) → mem c u.blocks.live ≡ mem c t.blocks.live
  pub blocks : (c : ℕ) → block u c ≡ (if b == c then f (block t c) else block t c)

attrs-KeepsSets : (f : BlockAttrs → BlockAttrs) → KeepsSets (λ b. record b { attrs = f b.attrs })
attrs-KeepsSets f = record {
  id = λ b. refl;
  all_ports = λ b. refl;
  in_ports = λ b. refl;
  out_ports = λ b. refl;
}

update_block-Annotates :
    (t : Net) (b : ℕ) (f : Block → Block)
    → KeepsSets f
    → IsWellFormed t
    → HasBlock t b
    → (u : Net) × (update_block f (some b) t ≡ some (tt, u)) × Annotates t b f u
unfolding update_block put
update_block-Annotates t b f keeps w h = (
  record t { blocks = put b f t.blocks },
  rw (w.ownership.block_ids b ∙ h, update_block) refl,
  record {
    formed = update-IsWellFormed t b f keeps w h;
    ports_keep = refl;
    channels_keep = refl;
    names_keep = refl;
    live = λ c. refl;
    blocks = update-block t b f keeps w h;
  },
)

-- `createBlock` without a name, on a netlist in which no block has the empty name.
pub create_block_generated :
    (t : Net) (type : BlockType)
    → IsWellFormed t
    → lookup [] t.name2block ≡ none
    → (g : Str) × (idx : ℕ) × (u : Net) × (create_block type [] t ≡ some (some idx, u))
      × (lookup g t.name2block ≡ none)
      × MakesBlock t type g idx u
      × (u.name2port ≡ t.name2port)
unfolding create_block get_block add_block
create_block_generated t type w none_empty =
    let f = gen_block_name-IsFresh type t in
    let r = add_block type f.name t in
    (
      f.name,
      r.0,
      r.1,
      rw (none_empty, create_block, get_block) (rw f.result refl),
      f.unused,
      add_block-MakesBlock t type f.name w,
      refl,
    )

-- `createPort` with a name that is not taken.
pub create_port_named :
    (t : Net) (b : ℕ) (is_input : Bool) (name : Str) (width : ℤ) (type : PortType)
    → IsWellFormed t
    → HasBlock t b
    → is_demux (block t b).type ≡ false
    → is_empty name ≡ false
    → lookup ((block t b).name ++ codes ":" ++ name) t.name2port ≡ none
    → (r : Option ℕ × Net) × (create_port (some b) is_input name width type t ≡ some r)
      × MakesPort t b is_input name ((block t b).name ++ codes ":" ++ name) width type r
      × ((k : Str)
          → str_eq ((block t b).name ++ codes ":" ++ name) k ≡ false
          → lookup k r.1.name2port ≡ lookup k t.name2port)
unfolding create_port create_named_port
create_port_named t b is_input name width type w h plain named new =
    let full = (block t b).name ++ codes ":" ++ name in
    let (r, e) = add_port_total t b is_input name full width type w h plain in
    (
      r,
      rw (w.ownership.block_ids b ∙ h, create_port) (rw named (rw (new, create_named_port) e)),
      add_port-MakesPort t b is_input name full width type w h r e,
      λ k other.
          let (p, n) = add_port-names t b is_input name full width type w h r e in
          ap (lookup k) n ∙ lookup-emplace full k p t.name2port new ∙ ground arith,
    )

-- The annotations that `insertBuffer` writes on the new block.
abbrev pub annotate : ℤ → Bool → Option ℕ → Block → Block
annotate slots transparent bb b = record b {
  attrs = record b.attrs { slots = slots; transparent = transparent; basic_block = bb };
}

-- The three updates run one after the other, and what follows them.
pub annotate-runs :
    {A : Type 0} (t : Net) (b : ℕ) (slots : ℤ) (transparent : Bool) (bb : Option ℕ) (k : Op A)
    → IsWellFormed t
    → HasBlock t b
    → (u : Net) × ((set_buffer_size (some b) slots
            >> (set_buffer_transparency (some b) transparent >> (set_basic_block (some b) bb >> k)))
          t
        ≡ k u)
      × Annotates t b (annotate slots transparent bb) u
annotate-runs t b slots transparent bb k w h =
    let keeps = λ (f : BlockAttrs → BlockAttrs). attrs-KeepsSets f in
    let (u1, e1, a1) = update_block-Annotates t b _ (keeps (λ a. record a { slots = slots })) w h in
    let h1 = a1.live b ∙ h in
    let (u2, e2, a2) =
      update_block-Annotates u1 b _ (keeps (λ a. record a { transparent = transparent })) a1.formed
        h1 in
    let h2 = a2.live b ∙ h1 in
    let (u3, e3, a3) =
      update_block-Annotates u2 b _ (keeps (λ a. record a { basic_block = bb })) a2.formed h2 in
    (
      u3,
      bind-runs _ _ t u1 tt e1 ∙ (bind-runs _ _ u1 u2 tt e2 ∙ bind-runs _ _ u2 u3 tt e3),
      record {
        formed = a3.formed;
        ports_keep = a3.ports_keep ∙ (a2.ports_keep ∙ a1.ports_keep);
        channels_keep = a3.channels_keep ∙ (a2.channels_keep ∙ a1.channels_keep);
        names_keep = a3.names_keep ∙ (a2.names_keep ∙ a1.names_keep);
        live = λ c. a3.live c ∙ (a2.live c ∙ a1.live c);
        blocks = λ c. ground (arith, a3.blocks c, a2.blocks c, a1.blocks c);
      },
    )

-- The names of the two ports differ.
pub in_name-out_name : (g : Str) → str_eq (in_name g) (out_name g) ≡ false
unfolding str_eq
in_name-out_name [] = refl
in_name-out_name (a ∷ g) = ground (arith, in_name-out_name g)
