-- ===== src/Buffers/Insert.antt =====
-- Putting a buffer on a channel (`insertBuffer`): the channel is replaced by a new elastic buffer
-- and the two channels that lead to it and from it.
use fpt2022_artifact.Common.{ℕ, ◌≡◌, sym, ap, ◌∙◌}
use fpt2022_artifact.Common.{Bool, true, Option, some, []}
use fpt2022_artifact.Common.Int.{ℤ, pos}
use fpt2022_artifact.Common.Sets.{mem}
use fpt2022_artifact.Common.Text.{lookup}
use fpt2022_artifact.Netlist.Types.{Net, ◌>>=◌, ◌>>◌, ret}
use fpt2022_artifact.Netlist.Types.{block, port, channel, bind-runs, look-then}
use fpt2022_artifact.Netlist.Channels.{create_channel}
use fpt2022_artifact.Netlist.Channels.{set_back_edge}
use fpt2022_artifact.Netlist.Invariant.{IsWellFormed, HasChannel}
use fpt2022_artifact.Netlist.Invariant.Cut.{Disconnects}
use fpt2022_artifact.Netlist.Safety.{create_channel-Connects, remove_channel-Disconnects}
use fpt2022_artifact.Buffers.{insert_buffer}
use fpt2022_artifact.Buffers.Parts.{NamesApart, in_name, out_name}
use fpt2022_artifact.Buffers.Make.{make_buffer-MakesBuffer}
use fpt2022_artifact.Buffers.Rewire.{
  source_port, target_port, source_block, get_src_port-reads, get_dst_port-reads,
  is_back_edge-reads, get_src_block-reads, get_basic_block-reads, get_port_width-reads,
  set_back_edge-runs, in-CanConnect, out-CanConnect,
}
use fpt2022_artifact.Buffers.Outcome.{Inserts, final, has_out, final-Inserts}

-- Removing a channel leaves the names alone.
cut-NamesApart : (s : Net) (c : ℕ) (t : Net) → Disconnects s c t → NamesApart s → NamesApart t
cut-NamesApart s c t cut apart = record {
  no_empty = ap (lookup []) cut.block_names_keep ∙ apart.no_empty;
  no_input = λ g free.
      ap (lookup (in_name g)) cut.port_names_keep
      ∙ apart.no_input g (ap (lookup g) (sym cut.block_names_keep) ∙ free);
  no_output = λ g free.
      ap (lookup (out_name g)) cut.port_names_keep
      ∙ apart.no_output g (ap (lookup g) (sym cut.block_names_keep) ∙ free);
}

-- The answer of `make_buffer`, passed on by its three components.
module _ (r : (Option ℕ × Option ℕ × Option ℕ) × Net) (eb inp outp : ℕ) (dst : ℕ) (back : Bool)
    (result : r.0 ≡ (some eb, some inp, some outp)) (src : ℕ) (one two : ℕ × Net) (v : Net) where
  connections-run :
      create_channel (some src) (some inp) (pos 0) true r.1 ≡ some one
      → create_channel (some outp) (some dst) (pos 0) true one.1 ≡ some two
      → set_back_edge (some two.0) back two.1 ≡ some (tt, v)
      → (create_channel (some src) r.0.1 (pos 0) true >>= (λ c_in.
            create_channel r.0.2 (some dst) (pos 0) true
            >>= (λ new_c. set_back_edge (some new_c) back >> ret r.0.0)))
          r.1
        ≡ some (some eb, v)
  connections-run e1 e2 e3 = rw result (
      bind-runs _ _ r.1 one.1 one.0 e1
      ∙ (bind-runs _ _ one.1 two.1 two.0 e2 ∙ bind-runs _ _ two.1 v tt e3))

-- `insertBuffer` on a channel of a well-formed netlist returns, when no block has the empty name and,
-- for every name g that no block has, no port has the full name g:in1 or g:out1. There is a new
-- elastic buffer with the slots and the transparency asked for, in the basic block of the source of
-- the channel, with one input and one output of the width of the source port. The channel is replaced
-- by one from its source to the input and one from the output to its target, both without slots; the
-- second one is a back edge if the channel was one. Every other block, port and channel stays as it
-- was, and the netlist stays well formed.
pub insert_buffer-Inserts :
    (s : Net) (c : ℕ) (slots : ℤ) (transparent : Bool)
    → IsWellFormed s
    → HasChannel s c
    → NamesApart s
    → (r : Option ℕ × Net) × (insert_buffer (some c) slots transparent s ≡ some r)
      × Inserts s c slots transparent r
unfolding insert_buffer
insert_buffer-Inserts s c slots transparent w h apart =
    let bb = (block s (source_block s c)).attrs.basic_block in
    let (t, e0, cut) = remove_channel-Disconnects s c w h in
    let src_in = ap (mem (source_port s c)) cut.ports_live ∙ (w.joins c h).src_exists in
    let width = (port t (source_port s c)).width in
    let (r, e1, m) =
      make_buffer-MakesBuffer t slots transparent bb width cut.formed
        (cut-NamesApart s c t cut apart) in
    let can_in = in-CanConnect s c w h t cut slots transparent bb width r m in
    let (one, e2, k) =
      create_channel-Connects r.1 (source_port s c) m.inp (pos 0) true m.formed can_in in
    let can_out = out-CanConnect s c w h t cut slots transparent bb width r m one k in
    let (two, e3, l) =
      create_channel-Connects one.1 m.outp (target_port s c) (pos 0) true k.formed can_out in
    let e4 =
      set_back_edge-runs two.1 two.0 (channel s c).back_edge l.formed
        (has_out s c w h t cut slots transparent r m one two k l) in
    (
      (some m.eb, final s c w h t cut slots transparent r m one two k l),
      look-then _ _ s _ _ (get_src_port-reads s c w h) (
          look-then _ _ s _ _ (get_dst_port-reads s c w h) (
            look-then _ _ s _ _ (is_back_edge-reads s c w h) (
              look-then _ _ s _ _ (get_src_block-reads s c w h) (
                look-then _ _ s _ _ (get_basic_block-reads s c w h) (
                  bind-runs _ _ s t tt e0
                  ∙ look-then _ _ t _ _ (get_port_width-reads t (source_port s c) cut.formed src_in)
                      (bind-runs _ _ t r.1 r.0 e1
                        ∙ connections-run r m.eb m.inp m.outp (target_port s c)
                            (channel s c).back_edge m.result (source_port s c) one two _ e2 e3
                            e4)))))),
      final-Inserts s c w h t cut slots transparent r m one two k l,
    )
