-- ===== src/Netlist/Invariant/NewBlock.antt =====
-- Creating a block (`createBlock`) keeps a netlist well formed.
use fpt2022_artifact.Common.{if◌then◌else◌, ◌+◌}
use fpt2022_artifact.Common.{ℕ, ◌<◌, ◌≡◌, refl, sym, ap, subst, ◌∙◌, true, false, ◌||◌}
use fpt2022_artifact.Common.{Option, none, some, inl, inr, ◌==◌, arith, length}
use fpt2022_artifact.Common.{Bool-cases, ==→eq, []}
use fpt2022_artifact.Common.Sets.{mem, mem-insert, IsOrdered}
use fpt2022_artifact.Common.Text.{Str, lookup, lookup-assign, str_eq, str_eq_refl}
use fpt2022_artifact.Slab.{IsSound, Slab, at, alloc}
use fpt2022_artifact.Slab.Laws.{
  put-IsSound, at-put, live-put, length-put, Allocates, alloc-Allocates, live-lt,
}
use fpt2022_artifact.Netlist.Types.{
  Net, Block, Port, Channel, BlockType, block_zero, port_zero, channel_zero,
}
use fpt2022_artifact.Netlist.Types.{block, port, channel, valid_block, valid_channel}
use fpt2022_artifact.Netlist.Blocks.{init_block, add_block}
use fpt2022_artifact.Netlist.Invariant.{IsWellFormed, IsOwned, HasBlock, HasPort, HasChannel, Joins}
use fpt2022_artifact.Netlist.Invariant.{IsLink, Owns, IsVacant}

module _ (s : Net) (type : BlockType) (name : Str) (w : IsWellFormed s) where
  abbrev idx : ℕ
  idx = (alloc block_zero Block.next_free s.blocks).0

  abbrev grown : Slab Block
  grown = (alloc block_zero Block.next_free s.blocks).1

  abbrev new : Net
  new = (add_block type name s).1

  allocates :
      Allocates block_zero Block.next_free s.blocks (alloc block_zero Block.next_free s.blocks)
  allocates = alloc-Allocates block_zero Block.next_free s.blocks w.blocks_sound

  grown-has : mem idx grown.live ≡ true
  grown-has = rw allocates.live (mem-insert idx idx s.blocks.live ∙ ground arith)

  new_self : block new idx ≡ init_block idx name type (at block_zero grown idx)
  unfolding add_block
  new_self =
      at-put block_zero Block.next_free idx idx (init_block idx name type) grown allocates.sound
        grown-has
      ∙ ground arith

  new-block : (c : ℕ) → (idx == c) ≡ false → block new c ≡ block s c
  unfolding add_block
  new-block c other =
      at-put block_zero Block.next_free idx c (init_block idx name type) grown allocates.sound
        grown-has
      ∙ ground (arith, allocates.keeps c)

  new-live : (c : ℕ) → mem c new.blocks.live ≡ ((idx == c) || mem c s.blocks.live)
  unfolding add_block
  new-live c =
      ap (mem c) (live-put idx (init_block idx name type) grown ∙ allocates.live)
      ∙ mem-insert idx c s.blocks.live

  -- Allocation does not write to the slot that it hands out.
  grown-IsVacant : IsVacant (at block_zero grown idx)
  grown-IsVacant = rw (allocates.keeps idx) (w.ownership.vacant idx allocates.vacant)

  new-ports : new.ports ≡ s.ports
  unfolding add_block
  new-ports = refl

  new-port : (q : ℕ) → port new q ≡ port s q
  unfolding add_block
  new-port q = refl

  new-HasPort : (q : ℕ) → mem q new.ports.live ≡ mem q s.ports.live
  unfolding add_block
  new-HasPort q = refl

  new-channels : new.channels ≡ s.channels
  unfolding add_block
  new-channels = refl

  new-length : length new.blocks.slots ≡ length grown.slots
  unfolding add_block
  new-length = length-put idx (init_block idx name type) grown

  new-blocks-IsSound : IsSound block_zero Block.next_free new.blocks
  unfolding add_block
  new-blocks-IsSound =
      put-IsSound block_zero Block.next_free idx (init_block idx name type) grown grown-has
        allocates.sound

  new-Joins : (c x y : ℕ) → Joins s c x y → Joins new c x y
  unfolding add_block
  new-Joins c x y j = record {
    src_exists = j.src_exists;
    dst_exists = j.dst_exists;
    src_output = j.src_output;
    dst_input = j.dst_input;
    src_names = j.src_names;
    dst_names = j.dst_names;
  }

  new-IsLink : (q : ℕ) (c : Option ℕ) → IsLink s q c → IsLink new q c
  unfolding add_block
  new-IsLink q none k = tt
  new-IsLink q (some c) k = k

  new-block_ids : (c : ℕ) → valid_block new (some c) ≡ mem c new.blocks.live
  unfolding valid_block
  new-block_ids c = elim (Bool-cases (idx == c)) [
    | inl same ↦ ground (
      arith,
      new_self,
      live-lt block_zero Block.next_free new.blocks idx new-blocks-IsSound,
      new-live idx,
      new-live c,
      same,
    )
    | inr other ↦ ground (
      arith,
      new-block c other,
      w.ownership.block_ids c,
      new-length,
      new-live c,
      allocates.range c other,
    )
  ]

  new-other : (c : ℕ) → HasBlock s c → (idx == c) ≡ false
  new-other c h = ground (arith, allocates.vacant)

  new-no_ports : (block new idx).all_ports ≡ []
  new-no_ports = ap Block.all_ports new_self ∙ grown-IsVacant.no_ports

  new-Owns_self : Owns new idx
  unfolding mem
  new-Owns_self = record {
    exists = λ q k. ground (arith, new-no_ports);
    owner = λ q k. ground (arith, new-no_ports);
    inputs =
        λ q. ground (arith, new-no_ports, ap Block.in_ports new_self ∙ grown-IsVacant.no_inputs);
    outputs =
        λ q. ground (arith, new-no_ports, ap Block.out_ports new_self ∙ grown-IsVacant.no_outputs);
  }

  new-Owns_old : (c : ℕ) → HasBlock s c → Owns new c
  new-Owns_old c h =
      let o = w.ownership.owns c h in
      let e = new-block c (new-other c h) in
      record {
        exists = λ q k. ground (arith, e, o.exists q, new-HasPort q);
        owner = λ q k. ground (arith, e, o.owner q, new-port q);
        inputs = λ q. ground (arith, e, o.inputs q, new-port q);
        outputs = λ q. ground (arith, e, o.outputs q, new-port q);
      }

  new-owned :
      (q : ℕ)
      → HasPort s q
      → HasBlock new (port s q).block × (mem q (block new (port s q).block).all_ports ≡ true)
  new-owned q h =
      let o = w.ownership.owned q h in
      ground (
        arith,
        o,
        new-live (port s q).block,
        new-block (port s q).block (new-other (port s q).block o.0),
      )

  new-IsOwned : IsOwned new
  new-IsOwned = record {
    block_ids = new-block_ids;
    port_ids = λ q k. ground (arith, new-HasPort q, new-port q, w.ownership.port_ids q);
    removed_ids = λ q gone lt.
        ap Port.id (new-port q)
        ∙ w.ownership.removed_ids q (sym (new-HasPort q) ∙ gone)
            (subst (λ ps. q < length ps.slots) new-ports lt);
    owned = λ q k.
        subst (λ x. HasBlock new x.block × (mem q (block new x.block).all_ports ≡ true))
          (sym (new-port q)) (new-owned q (sym (new-HasPort q) ∙ k));
    owns = λ c k. elim (Bool-cases (idx == c)) [
      | inl same ↦ subst (Owns new) (==→eq idx c same) new-Owns_self
      | inr other ↦ new-Owns_old c (ground (arith, new-live c))
    ];
    vacant = λ c k. ground (arith, new-live c, new-block c, w.ownership.vacant c);
    ordered = λ c k. elim (Bool-cases (idx == c)) [
      | inl same ↦
          subst (λ x. IsOrdered (block new x).all_ports) (==→eq idx c same)
            (subst IsOrdered (sym new-no_ports) tt)
      | inr other ↦
          subst (λ x. IsOrdered x.all_ports) (sym (new-block c other))
            (w.ownership.ordered c (ground (arith, new-live c)))
    ];
  }

  new-channel_ids : (c : ℕ) → valid_channel new (some c) ≡ mem c new.channels.live
  unfolding add_block valid_channel
  new-channel_ids = w.channel_ids

  new-links : (q : ℕ) → HasPort new q → IsLink new q (port new q).channel
  unfolding add_block
  new-links q k = new-IsLink q (port s q).channel (w.links q k)

  new-Joins_all : (c : ℕ) → HasChannel new c → Joins new c (channel new c).src (channel new c).dst
  unfolding add_block
  new-Joins_all c k = new-Joins c (channel s c).src (channel s c).dst (w.joins c k)

  new-IsWellFormed : IsWellFormed new
  new-IsWellFormed = record {
    blocks_sound = new-blocks-IsSound;
    ports_sound = subst (IsSound port_zero Port.next_free) (sym new-ports) w.ports_sound;
    channels_sound =
        subst (IsSound channel_zero Channel.next_free) (sym new-channels) w.channels_sound;
    channel_ids = new-channel_ids;
    joins = new-Joins_all;
    links = new-links;
    ownership = new-IsOwned;
  }

-- What a block creation gives: a new block with no ports, and nothing else changes.
pub record MakesBlock (s : Net) (type : BlockType) (name : Str) (idx : ℕ) (t : Net) : Type 0 where
  pub formed : IsWellFormed t
  pub fresh : mem idx s.blocks.live ≡ false
  pub exists : (c : ℕ) → mem c t.blocks.live ≡ ((idx == c) || mem c s.blocks.live)
  pub no_ports : (block t idx).all_ports ≡ []
  pub no_inputs : (block t idx).in_ports ≡ []
  pub no_outputs : (block t idx).out_ports ≡ []
  pub type_set : (block t idx).type ≡ type
  pub name_set : (block t idx).name ≡ name
  pub others_keep : (c : ℕ) → HasBlock s c → block t c ≡ block s c
  pub ports_keep : t.ports ≡ s.ports
  pub channels_keep : t.channels ≡ s.channels
  pub found : lookup name t.name2block ≡ some idx
  pub names_keep :
      (g : Str)
      → lookup g t.name2block ≡ (if str_eq name g then some idx else lookup g s.name2block)
  pub frame :
      t ≡ record s { n_blocks = s.n_blocks + 1; name2block = t.name2block; blocks = t.blocks }

pub add_block-MakesBlock :
    (s : Net) (type : BlockType) (name : Str)
    → IsWellFormed s
    → MakesBlock s type name (add_block type name s).0 (add_block type name s).1
add_block-MakesBlock s type name w = record {
  formed = new-IsWellFormed s type name w;
  fresh = unfold add_block in (allocates s type name w).vacant;
  exists = unfold add_block in new-live s type name w;
  no_ports = unfold add_block in new-no_ports s type name w;
  no_inputs =
      unfold add_block in
      (ap Block.in_ports (new_self s type name w) ∙ (grown-IsVacant s type name w).no_inputs);
  no_outputs =
      unfold add_block in
      (ap Block.out_ports (new_self s type name w) ∙ (grown-IsVacant s type name w).no_outputs);
  type_set = unfold add_block in ap Block.type (new_self s type name w);
  name_set = unfold add_block in ap Block.name (new_self s type name w);
  others_keep = λ c h. new-block s type name w c (new-other s type name w c h);
  ports_keep = new-ports s type name w;
  channels_keep = new-channels s type name w;
  found =
      unfold add_block in
      (lookup-assign name name _ s.name2block ∙ ground (arith, str_eq_refl name));
  names_keep = unfold add_block in λ g. lookup-assign name g _ s.name2block;
  frame = unfold add_block in refl;
}
