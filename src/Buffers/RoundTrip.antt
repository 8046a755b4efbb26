-- ===== src/Buffers/RoundTrip.antt =====
-- A buffer that `insertBuffer` puts on a channel is taken away again by `removeBuffer`.
use fpt2022_artifact.Common.{ℕ, ◌≡◌, ap, subst, ◌∙◌, arith}
use fpt2022_artifact.Common.{Bool, false, Option, some, ◌==◌}
use fpt2022_artifact.Common.Int.{ℤ, pos}
use fpt2022_artifact.Common.Sets.{mem}
use fpt2022_artifact.Netlist.Types.{Net, ◌>>=◌, bind-runs, block, channel}
use fpt2022_artifact.Netlist.Invariant.{IsWellFormed, HasBlock, HasChannel, Joins}
use fpt2022_artifact.Buffers.{insert_buffer, remove_buffer}
use fpt2022_artifact.Buffers.Parts.{NamesApart}
use fpt2022_artifact.Buffers.Outcome.{Inserts}
use fpt2022_artifact.Buffers.Insert.{insert_buffer-Inserts}
use fpt2022_artifact.Buffers.Remove.{IsPlaced, Rejoins, remove_buffer-Rejoins, two-ports}

-- The netlist `r.1` is `s` again, up to the channel `c`, for which there is `r.0`.
pub record Restores (s : Net) (c : ℕ) (r : ℕ × Net) : Type 0 where
  pub formed : IsWellFormed r.1
  pub blocks_exist : (b : ℕ) → mem b r.1.blocks.live ≡ mem b s.blocks.live
  pub blocks_keep : (b : ℕ) → HasBlock s b → block r.1 b ≡ block s b
  pub ports_exist : (q : ℕ) → mem q r.1.ports.live ≡ mem q s.ports.live
  pub joins : Joins r.1 r.0 (channel s c).src (channel s c).dst
  pub channels_exist :
      (d : ℕ) → HasChannel r.1 d → (r.0 == d) ≡ false → HasChannel s d × ((c == d) ≡ false)
  pub channels_keep :
      (d : ℕ) → HasChannel s d → (c == d) ≡ false → HasChannel r.1 d × (channel r.1 d ≡ channel s d)
  pub no_slots : (channel r.1 r.0).slots ≡ pos 0
  pub forward : (channel r.1 r.0).back_edge ≡ false

module _ (s : Net) (c : ℕ) (slots : ℤ) (transparent : Bool) (r : Option ℕ × Net)
    (i : Inserts s c slots transparent r) where
  pub inserted-IsPlaced : IsPlaced r.1 i.eb i.inp i.outp i.c_in i.c_out
  inserted-IsPlaced = record {
    exists = i.blocks_exist i.eb ∙ ground arith;
    type_is = i.type_set;
    in_ports = i.in_ports;
    out_ports = i.out_ports;
    in_channel = i.in_joins.dst_names;
    out_channel = i.out_joins.src_names;
    no_loop = i.channels_apart;
  }

  module _ (u : ℕ × Net) (k : Rejoins r.1 i.eb i.c_in i.c_out u) where
    old-channel :
        (d : ℕ)
        → HasChannel s d
        → (c == d) ≡ false
        → HasChannel r.1 d × ((i.c_in == d) ≡ false) × ((i.c_out == d) ≡ false)
    old-channel d h other = (
      i.channels_exist d ∙ ground (arith, h, other),
      (i.channels_new d h other).0,
      (i.channels_new d h other).1,
    )

    inserted-Restores : Restores s c u
    inserted-Restores = record {
      formed = k.formed;
      blocks_exist = λ b. ground (arith, k.blocks_left b, i.blocks_exist b, i.fresh);
      blocks_keep = λ b h. k.blocks_keep b (ground (arith, i.fresh, h)) ∙ i.blocks_keep b h;
      ports_exist = λ q. ground (
        arith,
        k.ports_left q,
        i.ports_exist q,
        i.in_fresh,
        i.out_fresh,
        two-ports r.1 i.eb i.inp i.outp i.c_in i.c_out i.formed inserted-IsPlaced q,
      );
      joins =
          subst (λ x. Joins u.1 u.0 x (channel s c).dst) i.in_source
            (subst (Joins u.1 u.0 (channel r.1 i.c_in).src) i.out_target k.joins);
      channels_exist = λ d h other. ground (arith, k.channels_left d, i.channels_exist d);
      channels_keep = λ d h other.
          let (here, not_in, not_out) = old-channel d h other in
          (
            k.channels_left d ∙ ground (arith, here, not_in, not_out),
            k.channels_keep d here not_in not_out ∙ i.channels_keep d h other,
          );
      no_slots = k.slots_are;
      forward = k.forward;
    }

-- `insertBuffer` on a channel of a well-formed netlist, followed by `removeBuffer` on the block that
-- it returns, returns, when no block has the empty name and, for every name g that no block has, no
-- port has the full name g:in1 or g:out1. The netlist has its old blocks, with all fields, and the
-- same ports exist; in place of the channel there is one with the same ends, without slots, and not a
-- back edge, even if the channel was one; every other channel is as it was, and there is no further
-- one.
pub remove_buffer-insert_buffer :
    (s : Net) (c : ℕ) (slots : ℤ) (transparent : Bool)
    → IsWellFormed s
    → HasChannel s c
    → NamesApart s
    → (u : ℕ × Net) × ((insert_buffer (some c) slots transparent >>= remove_buffer) s ≡ some u)
      × Restores s c u
remove_buffer-insert_buffer s c slots transparent w h apart =
    let (r, e, i) = insert_buffer-Inserts s c slots transparent w h apart in
    let placed = inserted-IsPlaced s c slots transparent r i in
    let (u, f, k) = remove_buffer-Rejoins r.1 i.eb i.inp i.outp i.c_in i.c_out i.formed placed in
    (
      u,
      bind-runs _ _ s r.1 r.0 e ∙ (ap (λ b. remove_buffer b r.1) i.result ∙ f),
      inserted-Restores s c slots transparent r i u k,
    )
