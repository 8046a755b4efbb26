-- ===== src/Netlist/Invariant/Install.antt =====
-- A new port in its slot and in the port sets of its block (`createPort`).
use fpt2022_artifact.Common.{ℕ, ◌≡◌, sym, ap, subst, ◌∙◌, Bool, true, false, ◌||◌}
use fpt2022_artifact.Common.{Option, none, some, inl, inr, if◌then◌else◌, ◌==◌, arith, length}
use fpt2022_artifact.Common.{Bool-cases, ==→eq}
use fpt2022_artifact.Common.Int.{ℤ}
use fpt2022_artifact.Common.Sets.{mem, insert, mem-insert, insert-IsOrdered}
use fpt2022_artifact.Common.Text.{Str}
use fpt2022_artifact.Slab.{Slab, at, alloc}
use fpt2022_artifact.Slab.Laws.{
  put-IsSound, at-put, live-put, length-put, Allocates, alloc-Allocates,
}
use fpt2022_artifact.Netlist.Types.{Net, Block, Port, PortType, block_zero, port_zero}
use fpt2022_artifact.Netlist.Types.{block, port, channel, valid_block, valid_channel}
use fpt2022_artifact.Netlist.Ports.{own_port, init_port}
use fpt2022_artifact.Netlist.Ports.{install_port}
use fpt2022_artifact.Netlist.Invariant.{IsWellFormed, IsOwned, HasBlock, HasPort, Joins}
use fpt2022_artifact.Netlist.Invariant.{IsLink, Owns}
use fpt2022_artifact.Netlist.Invariant.Pairing.{SameSets}

module _ (s : Net) (b : ℕ) (is_input : Bool) (localname fullname : Str) (width : ℤ)
    (type : PortType) (w : IsWellFormed s) (hb : HasBlock s b) where
  abbrev pub pid : ℕ
  pid = (alloc port_zero Port.next_free s.ports).0

  abbrev grown : Slab Port
  grown = (alloc port_zero Port.next_free s.ports).1

  abbrev pub set_up : Port → Port
  set_up = init_port pid b localname fullname is_input width type

  pub allocates :
      Allocates port_zero Port.next_free s.ports (alloc port_zero Port.next_free s.ports)
  allocates = alloc-Allocates port_zero Port.next_free s.ports w.ports_sound

  grown-has : mem pid grown.live ≡ true
  grown-has = rw allocates.live (mem-insert pid pid s.ports.live ∙ ground arith)

  module _ (owner : Block) (same : SameSets owner (own_port pid is_input (block s b))) where
    abbrev pub new : Net
    new = install_port pid b owner set_up fullname s

    pub new-port_self : port new pid ≡ set_up (at port_zero grown pid)
    new-port_self =
        at-put port_zero Port.next_free pid pid set_up grown allocates.sound grown-has
        ∙ ground arith

    pub new-port : (q : ℕ) → (pid == q) ≡ false → port new q ≡ port s q
    new-port q other =
        at-put port_zero Port.next_free pid q set_up grown allocates.sound grown-has
        ∙ ground (arith, allocates.keeps q)

    pub new-block : (c : ℕ) → block new c ≡ (if b == c then owner else block s c)
    new-block c = at-put block_zero Block.next_free b c (λ _. owner) s.blocks w.blocks_sound hb

    pub new-live : (q : ℕ) → mem q new.ports.live ≡ ((pid == q) || mem q s.ports.live)
    new-live q =
        ap (mem q) (live-put pid set_up grown ∙ allocates.live) ∙ mem-insert pid q s.ports.live

    pub new-blocks_live : (c : ℕ) → mem c new.blocks.live ≡ mem c s.blocks.live
    new-blocks_live c = ap (mem c) (live-put b (λ _. owner) s.blocks)

    pub new-other : (q : ℕ) → HasPort s q → (pid == q) ≡ false
    new-other q h = ground (arith, allocates.vacant)

    new-HasPort : (q : ℕ) → HasPort s q → HasPort new q
    new-HasPort q h = ground (arith, new-live q)

    new-Joins : (c x y : ℕ) → Joins s c x y → Joins new c x y
    new-Joins c x y j =
        let ex = new-port x (new-other x j.src_exists) in
        let ey = new-port y (new-other y j.dst_exists) in
        record {
          src_exists = new-HasPort x j.src_exists;
          dst_exists = new-HasPort y j.dst_exists;
          src_output = ap Port.is_input ex ∙ j.src_output;
          dst_input = ap Port.is_input ey ∙ j.dst_input;
          src_names = ap Port.channel ex ∙ j.src_names;
          dst_names = ap Port.channel ey ∙ j.dst_names;
        }

    new-IsLink : (q : ℕ) (c : Option ℕ) → IsLink s q c → IsLink new q c
    new-IsLink q none k = tt
    new-IsLink q (some c) k = k

    new-links : (q : ℕ) → HasPort new q → IsLink new q (port new q).channel
    new-links q k = elim (Bool-cases (pid == q)) [
      | inl self ↦
          let none_yet : (port new q).channel ≡ none =
            ap (λ x. (port new x).channel) (sym (==→eq pid q self))
            ∙ ap Port.channel new-port_self in
          rw none_yet tt
      | inr other ↦
          rw (new-port q other)
            (new-IsLink q (port s q).channel (w.links q (ground (arith, new-live q))))
    ]

    -- The new port is in no set of the old state.
    new-absent : (c : ℕ) → HasBlock s c → mem pid (block s c).all_ports ≡ false
    new-absent c h = ground (arith, (w.ownership.owns c h).exists pid, allocates.vacant)

    new-Owns_self : Owns new b
    new-Owns_self =
        let o = w.ownership.owns b hb in
        record {
          exists = λ q k. ground (
            arith,
            new-block b,
            new-live q,
            o.exists q,
            same,
            mem-insert pid q (block s b).all_ports,
          );
          owner = λ q k. ground (
            arith,
            new-block b,
            o.owner q,
            o.exists q,
            same,
            new-port_self,
            new-port q,
            mem-insert pid q (block s b).all_ports,
          );
          inputs = λ q. ground (
            arith,
            new-block b,
            o.inputs q,
            same,
            new-port_self,
            new-port q,
            new-absent b hb,
            mem-insert pid q (block s b).all_ports,
            mem-insert pid q (block s b).in_ports,
          );
          outputs = λ q. ground (
            arith,
            new-block b,
            o.outputs q,
            same,
            new-port_self,
            new-port q,
            new-absent b hb,
            mem-insert pid q (block s b).all_ports,
            mem-insert pid q (block s b).out_ports,
          );
        }

    new-Owns_other : (c : ℕ) → (b == c) ≡ false → HasBlock s c → Owns new c
    new-Owns_other c other h =
        let o = w.ownership.owns c h in
        record {
          exists = λ q k. ground (arith, new-block c, new-live q, o.exists q);
          owner =
              λ q k. ground (arith, new-block c, o.owner q, o.exists q, new-port q, new-absent c h);
          inputs = λ q.
              ground (arith, new-block c, o.inputs q, new-port q, new-absent c h, new-port_self);
          outputs = λ q.
              ground (arith, new-block c, o.outputs q, new-port q, new-absent c h, new-port_self);
        }

    new-Owns : (c : ℕ) → HasBlock new c → Owns new c
    new-Owns c k = elim (Bool-cases (b == c)) [
      | inl self ↦ subst (Owns new) (==→eq b c self) new-Owns_self
      | inr other ↦ new-Owns_other c other (sym (new-blocks_live c) ∙ k)
    ]

    new-block_ids : (c : ℕ) → valid_block new (some c) ≡ mem c new.blocks.live
    unfolding valid_block
    new-block_ids c = ground (
      arith,
      new-block c,
      w.ownership.block_ids c,
      new-blocks_live c,
      same,
      length-put b (λ _. owner) s.blocks,
    )

    new-length : length new.ports.slots ≡ length grown.slots
    new-length = length-put pid set_up grown

    pub new-sets : (block new b).all_ports ≡ insert pid (block s b).all_ports
    new-sets = ground (arith, new-block b, same)

    new-owned_self :
        HasBlock new (port new pid).block
        × (mem pid (block new (port new pid).block).all_ports ≡ true)
    new-owned_self = rw (ap Port.block new-port_self) (
      new-blocks_live b ∙ hb,
      rw new-sets (mem-insert pid pid (block s b).all_ports ∙ ground arith),
    )

    new-owned_old :
        (q : ℕ)
        → (pid == q) ≡ false
        → HasPort s q
        → HasBlock new (port new q).block × (mem q (block new (port new q).block).all_ports ≡ true)
    new-owned_old q other h =
        let o = w.ownership.owned q h in
        rw (ap Port.block (new-port q other)) (
          new-blocks_live (port s q).block ∙ o.0,
          ground (
            arith,
            o.1,
            new-block (port s q).block,
            new-sets,
            same,
            mem-insert pid q (block s b).all_ports,
          ),
        )

    new-IsOwned : IsOwned new
    new-IsOwned = record {
      block_ids = new-block_ids;
      port_ids =
          λ q k. ground (arith, new-live q, new-port q, new-port_self, w.ownership.port_ids q);
      removed_ids = λ q gone lt.
          ground (
            arith,
            new-live q,
            new-port q,
            w.ownership.removed_ids q,
            new-length,
            allocates.range q,
          );
      owned = λ q k. elim (Bool-cases (pid == q)) [
        | inl self ↦ rw (← ==→eq pid q self) new-owned_self
        | inr other ↦ new-owned_old q other (ground (arith, new-live q))
      ];
      owns = new-Owns;
      vacant = λ c k. ground (arith, new-block c, new-blocks_live c, w.ownership.vacant c, hb);
      ordered = λ c k. elim (Bool-cases (b == c)) [
        | inl self ↦
            let now : (block new c).all_ports ≡ insert pid (block s b).all_ports =
              ground (arith, new-block c, same, self) in
            rw now (insert-IsOrdered pid (block s b).all_ports (w.ownership.ordered b hb))
        | inr other ↦
            let old : block new c ≡ block s c = ground (arith, new-block c, other) in
            rw old (w.ownership.ordered c (sym (new-blocks_live c) ∙ k))
      ];
    }

    new-channel_ids : (c : ℕ) → valid_channel new (some c) ≡ mem c new.channels.live
    new-channel_ids c = unfold valid_channel in w.channel_ids c

    pub install_port-IsWellFormed : IsWellFormed new
    install_port-IsWellFormed = record {
      blocks_sound =
          put-IsSound block_zero Block.next_free b (λ _. owner) s.blocks hb w.blocks_sound;
      ports_sound = put-IsSound port_zero Port.next_free pid set_up grown grown-has allocates.sound;
      channels_sound = w.channels_sound;
      channel_ids = new-channel_ids;
      joins = λ c k. new-Joins c (channel s c).src (channel s c).dst (w.joins c k);
      links = new-links;
      ownership = new-IsOwned;
    }
