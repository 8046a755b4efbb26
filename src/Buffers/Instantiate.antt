-- ===== src/Buffers/Instantiate.antt =====
-- One round of `instantiateElasticBuffers` (Buffers/src/DFnetlist_buffers.cpp): a mux, or a merge of
-- several inputs, has a buffer of its own, which stands for one transparent slot.
use fpt2022_artifact.Common.{ℕ, ◌≡◌, ◌≤◌, ◌∙◌, refl, inl, inr, arith, Bool-cases}
use fpt2022_artifact.Common.{Bool, true, ◌&&◌, Option, some, length, if◌then◌else◌}
use fpt2022_artifact.Common.Int.{ℤ, pos, eqb_ℤ, eqb_ℤ_iff}
use fpt2022_artifact.Netlist.Types.{Net, Block, Channel, BlockType, block, channel, Op, ◌>>=◌, ret}
use fpt2022_artifact.Netlist.Types.{bind-runs, look-then, mux, merge}
use fpt2022_artifact.Netlist.Channels.{read_channel}
use fpt2022_artifact.Netlist.Attributes.{get_block_type}
use fpt2022_artifact.Netlist.PortAttributes.{num_in_ports}
use fpt2022_artifact.Netlist.Invariant.{IsWellFormed, HasChannel}
use fpt2022_artifact.Checks.Decides.{read_block-reads}
use fpt2022_artifact.Buffers.{
  insert_buffer, instantiate_buffer, has_internal_buffer, is_mux, is_merge,
}
use fpt2022_artifact.Buffers.Parts.{NamesApart}
use fpt2022_artifact.Buffers.Rewire.{source_port, source_block, get_src_block-reads}
use fpt2022_artifact.Buffers.Outcome.{Inserts}
use fpt2022_artifact.Buffers.Insert.{insert_buffer-Inserts}

-- The source of the channel is a mux, or a merge with more than one input.
pub data HasInternal (b : Block) : Type 0 where
  of_mux : b.type ≡ mux → HasInternal b
  of_merge : b.type ≡ merge → 2 ≤ length b.in_ports → HasInternal b

is_mux→eq : (t : BlockType) → is_mux t ≡ true → t ≡ mux
is_mux→eq t h = ground (arith, h)

is_merge→eq : (t : BlockType) → is_merge t ≡ true → t ≡ merge
is_merge→eq t h = ground (arith, h)

internal : Block → Bool
internal b = has_internal_buffer b.type (length b.in_ports)

internal→HasInternal : (b : Block) → internal b ≡ true → HasInternal b
unfolding internal
internal→HasInternal b h = elim (Bool-cases (is_mux b.type)) [
  | inl yes_mux ↦ of_mux (is_mux→eq b.type yes_mux)
  | inr other ↦ of_merge (is_merge→eq b.type (ground (arith, h, other))) (ground (arith, h, other))
]

HasInternal→internal : (b : Block) → HasInternal b → internal b ≡ true
unfolding internal
HasInternal→internal b (of_mux e) = rw e refl
HasInternal→internal b (of_merge e n) = rw e (ground (arith, n))

-- The buffer of a channel before and after.
pub data Instantiates (s : Net) (c : ℕ) (t : Net) : Type 0 where
  absorbed :
      HasInternal (block s (source_block s c))
      → (channel s c).slots ≡ pos 1
      → (channel s c).transparent ≡ true
      → t ≡ s
      → Instantiates s c t
  reduced :
      (eb : Option ℕ)
      → HasInternal (block s (source_block s c))
      → (channel s c).slots ≡ pos 2
      → Inserts s c (pos 1) (channel s c).transparent (eb, t)
      → Instantiates s c t
  placed :
      (eb : Option ℕ)
      → ¬ (
          HasInternal (block s (source_block s c))
          × ((channel s c).slots ≡ pos 1)
          × ((channel s c).transparent ≡ true))
      → ¬ (HasInternal (block s (source_block s c)) × ((channel s c).slots ≡ pos 2))
      → Inserts s c (channel s c).slots (channel s c).transparent (eb, t)
      → Instantiates s c t

read_channel-reads :
    {A : Type 0} (s : Net) (c : ℕ) (f : Channel → A)
    → IsWellFormed s
    → HasChannel s c
    → read_channel f (some c) s ≡ some (f (channel s c))
unfolding read_channel
read_channel-reads s c f w h = rw (w.channel_ids c ∙ h, read_channel) refl

-- The last part of the round.
abbrev chosen : ℕ → Bool → ℤ → Bool → Op (Unit {0})
chosen c own slots transparent =
    if own && (eqb_ℤ slots (pos 1) && transparent)
    then ret tt
    else if own && eqb_ℤ slots (pos 2)
    then insert_buffer (some c) (pos 1) transparent >>= (λ _. ret tt)
    else insert_buffer (some c) slots transparent >>= (λ _. ret tt)

chosen-Instantiates :
    (s : Net) (c : ℕ)
    → IsWellFormed s
    → HasChannel s c
    → NamesApart s
    → (t : Net) × (chosen c
          (internal (block s (source_block s c)))
          (channel s c).slots
          (channel s c).transparent
          s
        ≡ some (tt, t))
      × Instantiates s c t
chosen-Instantiates s c w h apart =
    let b = block s (source_block s c) in
    let ch = channel s c in
    elim (Bool-cases (internal b && (eqb_ℤ ch.slots (pos 1) && ch.transparent))) [
      | inl one ↦ (
        s,
        rw one refl,
        absorbed (internal→HasInternal b (ground (arith, one)))
            ((eqb_ℤ_iff ch.slots (pos 1)).0 (ground (arith, one))) (ground (arith, one)) refl,
      )
      | inr not_one ↦ elim (Bool-cases (internal b && eqb_ℤ ch.slots (pos 2))) [
        | inl two ↦
            let (r, e, i) = insert_buffer-Inserts s c (pos 1) ch.transparent w h apart in
            (
              r.1,
              rw (not_one, two) (bind-runs _ _ s r.1 r.0 e),
              reduced r.0 (internal→HasInternal b (ground (arith, two)))
                  ((eqb_ℤ_iff ch.slots (pos 2)).0 (ground (arith, two))) i,
            )
        | inr not_two ↦
            let (r, e, i) = insert_buffer-Inserts s c ch.slots ch.transparent w h apart in
            (
              r.1,
              rw (not_one, not_two) (bind-runs _ _ s r.1 r.0 e),
              placed r.0
                  (λ k. ground (
                    arith,
                    not_one,
                    HasInternal→internal b k.0,
                    (eqb_ℤ_iff ch.slots (pos 1)).1 k.1,
                    k.2,
                  ))
                  (λ k. ground (
                    arith,
                    not_two,
                    HasInternal→internal b k.0,
                    (eqb_ℤ_iff ch.slots (pos 2)).1 k.1,
                  ))
                  i,
            )
      ]
    ]

-- One round of `instantiateElasticBuffers`, on a channel of a well-formed netlist, returns, when no
-- block has the empty name and, for every name g that no block has, no port has the full name g:in1
-- or g:out1. If the source of the channel has an internal buffer, one transparent slot needs no
-- block, and nothing changes, while two slots become a block of one slot; otherwise the block has the
-- slots of the channel. It has the channel's transparency.
pub instantiate_buffer-Instantiates :
    (s : Net) (c : ℕ)
    → IsWellFormed s
    → HasChannel s c
    → NamesApart s
    → (t : Net) × (instantiate_buffer c s ≡ some (tt, t)) × Instantiates s c t
unfolding instantiate_buffer internal
instantiate_buffer-Instantiates s c w h apart =
    let b = source_block s c in
    let hb = (w.ownership.owned (source_port s c) (w.joins c h).src_exists).0 in
    let (t, e, i) = chosen-Instantiates s c w h apart in
    (
      t,
      look-then _ _ s _ _ (get_src_block-reads s c w h) (
          look-then (get_block_type (some b)) _ s _ _ (read_block-reads s w Block.type b hb) (
            look-then (num_in_ports (some b)) _ s _ _
              (read_block-reads s w (λ x. length x.in_ports) b hb)
              (look-then _ _ s _ _ (read_channel-reads s c Channel.slots w h)
                (look-then _ _ s _ _ (read_channel-reads s c Channel.transparent w h) e)))),
      i,
    )
