-- ===== src/Netlist/Invariant/Frame.antt =====
-- Changes of the channels leave the ownership of ports alone; and the consequences of
-- well-formedness that the operations use.
use fpt2022_artifact.Common.{
  ℕ, ◌≡◌, refl, sym, ap, subst, opt_eq, ◌∙◌, true, ◌&&◌, Option, none, some,
}
use fpt2022_artifact.Common.{arith, length, ltb, ◌≢◌}
use fpt2022_artifact.Common.Sets.{mem, IsOrdered}
use fpt2022_artifact.Slab.{at}
use fpt2022_artifact.Slab.Laws.{live-lt}
use fpt2022_artifact.Netlist.Types.{Net, Port, port_zero, block_zero, block, port}
use fpt2022_artifact.Netlist.Types.{valid_block, valid_port}
use fpt2022_artifact.Netlist.Invariant.{IsWellFormed, IsOwned, HasPort, Owns, IsVacant}

-- `t` has the blocks of `s` and its ports, up to the channels that these name.
pub record KeepsOwners (s t : Net) : Type 0 where
  pub blocks : t.blocks ≡ s.blocks
  pub ports_live : t.ports.live ≡ s.ports.live
  pub ports_length : length t.ports.slots ≡ length s.ports.slots
  pub same_block : (p : ℕ) → (port t p).block ≡ (port s p).block
  pub same_input : (p : ℕ) → (port t p).is_input ≡ (port s p).is_input
  pub same_id : (p : ℕ) → (port t p).id ≡ (port s p).id

module _ (s t : Net) (w : IsOwned s) (k : KeepsOwners s t) where
  keeps-block : (b : ℕ) → block t b ≡ block s b
  keeps-block b = ap (λ bs. at block_zero bs b) k.blocks

  keeps-HasBlock : (b : ℕ) → mem b t.blocks.live ≡ mem b s.blocks.live
  keeps-HasBlock b = ap (λ bs. mem b bs.live) k.blocks

  keeps-HasPort : (p : ℕ) → mem p t.ports.live ≡ mem p s.ports.live
  keeps-HasPort p = ap (mem p) k.ports_live

  keeps-valid_block : (b : Option ℕ) → valid_block t b ≡ valid_block s b
  unfolding valid_block
  keeps-valid_block none = refl
  keeps-valid_block (some b) =
      ap (λ bs. ltb b (length bs.slots) && opt_eq (at block_zero bs b).id (some b)) k.blocks

  keeps-Owns : (b : ℕ) → Owns s b → Owns t b
  keeps-Owns b o = record {
    exists = λ p h. ground (arith, keeps-block b, keeps-HasPort p, o.exists p);
    owner = λ p h. ground (arith, keeps-block b, k.same_block p, o.owner p);
    inputs = λ p. ground (arith, keeps-block b, k.same_input p, o.inputs p);
    outputs = λ p. ground (arith, keeps-block b, k.same_input p, o.outputs p);
  }

  pub keeps-IsOwned : IsOwned t
  keeps-IsOwned = record {
    block_ids = λ b. keeps-valid_block (some b) ∙ w.block_ids b ∙ sym (keeps-HasBlock b);
    port_ids = λ p h. k.same_id p ∙ w.port_ids p (sym (keeps-HasPort p) ∙ h);
    removed_ids = λ p h lt.
        k.same_id p ∙ w.removed_ids p (sym (keeps-HasPort p) ∙ h) (rw k.ports_length at lt);
    owned = λ p h. rw (k.same_block p) (
      keeps-HasBlock (port s p).block ∙ (w.owned p (sym (keeps-HasPort p) ∙ h)).0,
      ap (λ b. mem p b.all_ports) (keeps-block (port s p).block)
          ∙ (w.owned p (sym (keeps-HasPort p) ∙ h)).1,
    );
    owns = λ b h. keeps-Owns b (w.owns b (sym (keeps-HasBlock b) ∙ h));
    vacant = λ b h. subst IsVacant (sym (keeps-block b)) (w.vacant b (sym (keeps-HasBlock b) ∙ h));
    ordered = λ b h.
        subst (λ x. IsOrdered x.all_ports) (sym (keeps-block b))
          (w.ordered b (sym (keeps-HasBlock b) ∙ h));
  }

-- A port of a well-formed netlist is valid; so is the slot 0, even when its port was removed.
pub HasPort-valid : (s : Net) (p : ℕ) → IsWellFormed s → HasPort s p → valid_port s (some p) ≡ true
unfolding valid_port
HasPort-valid s p w h =
    ground
      (arith, live-lt port_zero Port.next_free s.ports p w.ports_sound h, w.ownership.port_ids p h)

pub valid-HasPort :
    (s : Net) (p : ℕ) → IsWellFormed s → p ≢ 0 → valid_port s (some p) ≡ true → HasPort s p
unfolding valid_port
valid-HasPort s p w ne v = ground (arith, w.ownership.removed_ids p)
