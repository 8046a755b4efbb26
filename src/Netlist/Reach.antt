-- ===== src/Netlist/Reach.antt =====
-- The netlists that the operations build from the empty one.
use fpt2022_artifact.Common.{ℕ, ◌≡◌, refl, sym, ap, subst, ◌∙◌, Bool, false}
use fpt2022_artifact.Common.{Option, none, some, inl, inr, arith, Bool-cases}
use fpt2022_artifact.Common.{Option-cases, [], ◌++◌, is_some, get_or}
use fpt2022_artifact.Common.Int.{ℤ}
use fpt2022_artifact.Common.Sets.{mem}
use fpt2022_artifact.Common.Text.{Str, codes, lookup, is_empty}
use mathlib.Core.Option.{some-injective}
use fpt2022_artifact.Slab.{IsSound, empty_slab, at}
use fpt2022_artifact.Netlist.Types.{Net, Block, Port, Channel, BlockType, PortType, init, block}
use fpt2022_artifact.Netlist.Types.{valid_block, valid_channel, block_zero, port_zero, channel_zero}
use fpt2022_artifact.Netlist.Names.{gen_fresh_port_name}
use fpt2022_artifact.Netlist.Channels.{create_channel, remove_channel}
use fpt2022_artifact.Netlist.Ports.{create_port, create_named_port, duplicated_port, remove_port}
use fpt2022_artifact.Netlist.Blocks.{create_block, duplicated_block, remove_block}
use fpt2022_artifact.Netlist.Invariant.{IsWellFormed, IsOwned, HasBlock, HasPort}
use fpt2022_artifact.Netlist.Invariant.Link.{CanConnect}
use fpt2022_artifact.Netlist.Invariant.NewPort.{add_port-MakesPort}
use fpt2022_artifact.Netlist.Invariant.Unblock.{remove_block-Removes}
use fpt2022_artifact.Netlist.Invariant.Updates.{set_error-IsWellFormed}
use fpt2022_artifact.Netlist.Safety.{create_channel-Connects, remove_channel-Disconnects}
use fpt2022_artifact.Netlist.Safety.{remove_channel_invalid, remove_port-LosesPort}
use fpt2022_artifact.Netlist.Safety.{BlockOutcome, duplicated, created, create_block-BlockOutcome}

empty-IsSound {ℓ} : {A : Type ℓ} (d : A) (next : A → Option ℕ) → IsSound d next empty_slab
unfolding mem
empty-IsSound d next = record {
  chain = [];
  linked = refl;
  distinct = tt;
  cover = λ i. ground arith;
  apart = λ i. refl;
  sorted = tt;
}

nothing : (i : ℕ) → mem i [] ≡ false
unfolding mem
nothing i = refl

init-IsOwned : IsOwned init
unfolding valid_block mem at get_or
init-IsOwned = record {
  block_ids = λ b. ground arith;
  port_ids = λ p h. cc;
  removed_ids = λ p gone lt. absurd (omega arith);
  owned = λ p h. cc;
  owns = λ b h. cc;
  vacant = λ b gone. record { no_ports = refl; no_inputs = refl; no_outputs = refl };
  ordered = λ b h. cc;
}

-- The empty netlist is well formed.
pub init-IsWellFormed : IsWellFormed init
unfolding valid_channel mem
init-IsWellFormed = record {
  blocks_sound = empty-IsSound block_zero Block.next_free;
  ports_sound = empty-IsSound port_zero Port.next_free;
  channels_sound = empty-IsSound channel_zero Channel.next_free;
  channel_ids = λ c. ground arith;
  joins = λ c h. cc;
  links = λ p h. cc;
  ownership = init-IsOwned;
}

duplicated_block-IsWellFormed :
    (s : Net) (name : Str) → IsWellFormed s → IsWellFormed (duplicated_block name s)
unfolding duplicated_block
duplicated_block-IsWellFormed s name w = set_error-IsWellFormed s _ w

duplicated_port-IsWellFormed :
    (s : Net) (name : Str) → IsWellFormed s → IsWellFormed (duplicated_port name s)
unfolding duplicated_port
duplicated_port-IsWellFormed s name w = set_error-IsWellFormed s _ w

create_block-IsWellFormed :
    (s t : Net) (type : BlockType) (name : Str) (r : Option ℕ)
    → IsWellFormed s
    → create_block type name s ≡ some (r, t)
    → IsWellFormed t
create_block-IsWellFormed s t type name r w e =
    let (x, made, o) = create_block-BlockOutcome s type name w in
    subst (λ (y : Option ℕ × Net). IsWellFormed y.1) (some-injective x (r, t) (sym made ∙ e))
      (formed x o)
  where
    formed : (x : Option ℕ × Net) → BlockOutcome s type name x → IsWellFormed x.1
    formed x (duplicated _ same) =
        subst (λ (y : Option ℕ × Net). IsWellFormed y.1) (sym same)
          (duplicated_block-IsWellFormed s name w)
    formed x (created _ _ _ _ _ m) = m.formed

create_named_port-IsWellFormed :
    (s t : Net) (b : ℕ) (is_input : Bool) (name : Str) (width : ℤ) (type : PortType) (r : Option ℕ)
    → IsWellFormed s
    → HasBlock s b
    → create_named_port b is_input name width type s ≡ some (r, t)
    → IsWellFormed t
unfolding create_named_port
create_named_port-IsWellFormed s t b is_input name width type r w h e =
    let full = (block s b).name ++ codes ":" ++ name in
    elim (Bool-cases (is_some (lookup full s.name2port))) [
      | inl dup ↦
          let same : some (none, duplicated_port full s) ≡ some (r, t) =
            sym (rw (dup, create_named_port) refl) ∙ e in
          subst (λ (y : Option ℕ × Net). IsWellFormed y.1) (some-injective _ _ same)
            (duplicated_port-IsWellFormed s full w)
      | inr new ↦
          (add_port-MakesPort s b is_input name full width type w h (r, t)
            (sym (rw (new, create_named_port) refl) ∙ e)).formed
    ]

create_port-IsWellFormed :
    (s t : Net) (b : Option ℕ) (is_input : Bool) (name : Str) (width : ℤ) (type : PortType)
    (r : Option ℕ)
    → IsWellFormed s
    → create_port b is_input name width type s ≡ some (r, t)
    → IsWellFormed t
unfolding create_port
create_port-IsWellFormed s t none is_input name width type r w e = cc
create_port-IsWellFormed s t (some b) is_input name width type r w e =
    elim (Bool-cases (valid_block s (some b))) [
      | inr bad ↦ absurd (ground (arith, bad, e))
      | inl good ↦
          let h = sym (w.ownership.block_ids b) ∙ good in
          elim (Bool-cases (is_empty name)) [
            | inr named ↦
                create_named_port-IsWellFormed s t b is_input name width type r w h
                  (ground (arith, good, named, e))
            | inl empty ↦ elim (Option-cases (gen_fresh_port_name (block s b).name is_input s)) [
              | inl stuck ↦ absurd (ground (arith, good, empty, stuck, e))
              | inr (local, found) ↦
                  create_named_port-IsWellFormed s t b is_input local width type r w h
                    (ground (arith, good, empty, found, e))
            ]
          ]
    ]

-- One operation on a netlist. `createChannel` is used on ports that exist and have no channel, and
-- `removePort` on a port that exists; the other operations are used on any arguments at which they
-- return.
pub data Step (s : Net) (t : Net) : Type 0 where
  make_block :
      (type : BlockType) (name : Str) (r : Option ℕ)
      → create_block type name s ≡ some (r, t)
      → Step s t
  make_port :
      (b : Option ℕ) (is_input : Bool) (name : Str) (width : ℤ) (type : PortType) (r : Option ℕ)
      → create_port b is_input name width type s ≡ some (r, t)
      → Step s t
  make_channel :
      (src dst : ℕ) (slots : ℤ) (transparent : Bool) (c : ℕ)
      → CanConnect s src dst
      → create_channel (some src) (some dst) slots transparent s ≡ some (c, t)
      → Step s t
  drop_block : (b : Option ℕ) → remove_block b s ≡ some (tt, t) → Step s t
  drop_port : (p : ℕ) → HasPort s p → remove_port (some p) s ≡ some (tt, t) → Step s t
  drop_channel : (c : Option ℕ) → remove_channel c s ≡ some (tt, t) → Step s t

pub data Reach : Net → Type 0 where
  start : Reach init
  step : {s t : Net} → Reach s → Step s t → Reach t

remove_block-IsWellFormed :
    (s t : Net) (b : Option ℕ) → IsWellFormed s → remove_block b s ≡ some (tt, t) → IsWellFormed t
unfolding remove_block
remove_block-IsWellFormed s t none w e = cc
remove_block-IsWellFormed s t (some b) w e = elim (Bool-cases (valid_block s (some b))) [
  | inr bad ↦ absurd (ground (arith, bad, e))
  | inl good ↦
      let r = remove_block-Removes s b w (sym (w.ownership.block_ids b) ∙ good) in
      subst IsWellFormed (ap (λ (y : Unit {0} × Net). y.1) (some-injective _ _ (sym r.returns ∙ e)))
        r.formed
]

remove_channel-IsWellFormed :
    (s t : Net) (c : Option ℕ) → IsWellFormed s → remove_channel c s ≡ some (tt, t) → IsWellFormed t
unfolding remove_channel
remove_channel-IsWellFormed s t none w e = cc
remove_channel-IsWellFormed s t (some c) w e = elim (Bool-cases (mem c s.channels.live)) [
  | inr gone ↦ absurd (cc (remove_channel_invalid s c w gone))
  | inl here ↦
      let (u, r, o) = remove_channel-Disconnects s c w here in
      subst IsWellFormed
        (ap (λ (y : Unit {0} × Net). y.1) (some-injective (tt, u) (tt, t) (sym r ∙ e))) o.formed
]

pub Step-IsWellFormed : {s t : Net} → Step s t → IsWellFormed s → IsWellFormed t
Step-IsWellFormed {s} {t} (make_block type name r e) w =
    create_block-IsWellFormed s t type name r w e
Step-IsWellFormed {s} {t} (make_port b is_input name width type r e) w =
    create_port-IsWellFormed s t b is_input name width type r w e
Step-IsWellFormed {s} {t} (make_channel src dst slots transparent c k e) w =
    let (x, r, o) = create_channel-Connects s src dst slots transparent w k in
    subst (λ (y : ℕ × Net). IsWellFormed y.1) (some-injective x (c, t) (sym r ∙ e)) o.formed
Step-IsWellFormed {s} {t} (drop_block b e) w = remove_block-IsWellFormed s t b w e
Step-IsWellFormed {s} {t} (drop_port p h e) w =
    let (u, r, o) = remove_port-LosesPort s p w h in
    subst IsWellFormed
      (ap (λ (y : Unit {0} × Net). y.1) (some-injective (tt, u) (tt, t) (sym r ∙ e))) o.formed
Step-IsWellFormed {s} {t} (drop_channel c e) w = remove_channel-IsWellFormed s t c w e

-- Every netlist that is built from the empty one by these steps, in whatever order, is well formed:
-- `createBlock`, `createPort`, `removeBlock` and `removeChannel` on any arguments at which they return,
-- `removePort` on a port of the netlist, and `createChannel` from an output port to an input port of the
-- netlist that have no channel yet.
pub Reach-IsWellFormed : {s : Net} → Reach s → IsWellFormed s
Reach-IsWellFormed start = init-IsWellFormed
Reach-IsWellFormed (step r x) = Step-IsWellFormed x (Reach-IsWellFormed r)
