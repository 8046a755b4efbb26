-- ===== src/Netlist/Invariant/NewPort.antt =====
-- Creating a port (`createPort`) keeps a netlist well formed.
use fpt2022_artifact.Common.{◌+◌, ℕ, ◌≡◌, refl, ap, subst, Bool, false, ◌||◌}
use fpt2022_artifact.Common.{Option, none, some, inl, inr, if◌then◌else◌, ◌==◌, arith}
use fpt2022_artifact.Common.{Option-cases}
use fpt2022_artifact.Common.Int.{ℤ}
use mathlib.Core.Option.{some-injective}
use fpt2022_artifact.Common.Sets.{mem, insert}
use fpt2022_artifact.Common.Text.{Str, emplace}
use fpt2022_artifact.Slab.{alloc}
use fpt2022_artifact.Netlist.Types.{Net, Block, Port, PortType, port_zero}
use fpt2022_artifact.Netlist.Types.{block, port}
use fpt2022_artifact.Netlist.Ports.{own_port, pair_demux, is_demux, init_port}
use fpt2022_artifact.Netlist.Ports.{install_port, add_port}
use fpt2022_artifact.Netlist.Invariant.{IsWellFormed, HasBlock, HasPort}
use fpt2022_artifact.Netlist.Invariant.Pairing.{SameSets, pair_demux-SameSets}
use fpt2022_artifact.Netlist.Invariant.Install.{
  pid, set_up, allocates, new-port_self, new-port, new-block, new-live, new-blocks_live, new-other,
  new-sets, install_port-IsWellFormed,
}

-- What `createPort` answers when it creates a port: the new port's identifier and the new netlist.
pub record MakesPort (s : Net) (b : ℕ) (is_input : Bool) (localname fullname : Str) (width : ℤ)
    (type : PortType) (r : Option ℕ × Net) : Type 0 where
  pub pid : ℕ
  pub result : r.0 ≡ some pid
  pub formed : IsWellFormed r.1
  pub fresh : mem pid s.ports.live ≡ false
  pub exists : (q : ℕ) → mem q r.1.ports.live ≡ ((pid == q) || mem q s.ports.live)
  pub direction : (port r.1 pid).is_input ≡ is_input
  pub unlinked : (port r.1 pid).channel ≡ none
  pub width_set : (port r.1 pid).width ≡ width
  pub type_set : (port r.1 pid).type ≡ type
  pub short_set : (port r.1 pid).short_name ≡ localname
  pub full_set : (port r.1 pid).full_name ≡ fullname
  pub delay_set : (port r.1 pid).delay ≡ 0
  pub names : r.1.name2port ≡ emplace fullname pid s.name2port
  pub owner : (port r.1 pid).block ≡ b
  pub ports_keep : (q : ℕ) → HasPort s q → port r.1 q ≡ port s q
  pub blocks_keep : (c : ℕ) → mem c r.1.blocks.live ≡ mem c s.blocks.live
  pub sets_in :
      (block r.1 b).in_ports
      ≡ (if is_input then insert pid (block s b).in_ports else (block s b).in_ports)
  pub sets_out :
      (block r.1 b).out_ports
      ≡ (if is_input then (block s b).out_ports else insert pid (block s b).out_ports)
  pub sets_all : (block r.1 b).all_ports ≡ insert pid (block s b).all_ports
  pub name_keeps : (block r.1 b).name ≡ (block s b).name
  pub type_keeps : (block r.1 b).type ≡ (block s b).type
  pub attrs_keep : (block r.1 b).attrs ≡ (block s b).attrs
  pub others_keep : (c : ℕ) → (b == c) ≡ false → block r.1 c ≡ block s c
  pub channels_keep : r.1.channels ≡ s.channels
  pub frame : r.1 ≡ record s {
    n_ports = s.n_ports + 1;
    name2port = r.1.name2port;
    blocks = r.1.blocks;
    ports = r.1.ports;
  }

module _ (s : Net) (b : ℕ) (is_input : Bool) (localname fullname : Str) (width : ℤ)
    (type : PortType) (w : IsWellFormed s) (hb : HasBlock s b) where
  install_port-MakesPort :
      (owner : Block)
      → SameSets owner
          (own_port (pid s b is_input localname fullname width type w hb) is_input (block s b))
      → MakesPort s b is_input localname fullname width type (
        some (pid s b is_input localname fullname width type w hb),
        install_port
            (pid s b is_input localname fullname width type w hb)
            b
            owner
            (set_up s b is_input localname fullname width type w hb)
            fullname
            s,
      )
  install_port-MakesPort owner same =
      let self = new-port_self s b is_input localname fullname width type w hb owner same in
      record {
        pid = pid s b is_input localname fullname width type w hb;
        result = refl;
        formed =
            install_port-IsWellFormed s b is_input localname fullname width type w hb owner same;
        fresh = (allocates s b is_input localname fullname width type w hb).vacant;
        exists = new-live s b is_input localname fullname width type w hb owner same;
        direction = ap Port.is_input self;
        unlinked = ap Port.channel self;
        width_set = ap Port.width self;
        type_set = ap Port.type self;
        short_set = ap Port.short_name self;
        full_set = ap Port.full_name self;
        delay_set = ap Port.delay self;
        names = refl;
        owner = ap Port.block self;
        ports_keep = λ q h.
            new-port s b is_input localname fullname width type w hb owner same q
              (new-other s b is_input localname fullname width type w hb owner same q h);
        blocks_keep = new-blocks_live s b is_input localname fullname width type w hb owner same;
        sets_in =
            ground
              (arith, new-block s b is_input localname fullname width type w hb owner same b, same);
        sets_out =
            ground
              (arith, new-block s b is_input localname fullname width type w hb owner same b, same);
        sets_all = new-sets s b is_input localname fullname width type w hb owner same;
        name_keeps =
            ground
              (arith, new-block s b is_input localname fullname width type w hb owner same b, same);
        type_keeps =
            ground
              (arith, new-block s b is_input localname fullname width type w hb owner same b, same);
        attrs_keep =
            ground
              (arith, new-block s b is_input localname fullname width type w hb owner same b, same);
        others_keep = λ c other.
            ground (arith, new-block s b is_input localname fullname width type w hb owner same c);
        channels_keep = refl;
        frame = refl;
      }

  -- Whenever a port is created, the netlist stays well formed and gains that port only.
  pub add_port-MakesPort :
      (r : Option ℕ × Net)
      → add_port b is_input localname fullname width type s ≡ some r
      → MakesPort s b is_input localname fullname width type r
  unfolding add_port
  add_port-MakesPort r e =
      elim (Option-cases (
        pair_demux (pid s b is_input localname fullname width type w hb) is_input
          (own_port (pid s b is_input localname fullname width type w hb) is_input (block s b)))) [
            | inl stuck ↦ absurd (ground (arith, stuck, e))
            | inr (owner, paired) ↦
                let same =
                  pair_demux-SameSets (pid s b is_input localname fullname width type w hb) is_input
                    (own_port (pid s b is_input localname fullname width type w hb) is_input
                      (block s b))
                    owner paired in
                let made : some (
                  some (pid s b is_input localname fullname width type w hb),
                  install_port (pid s b is_input localname fullname width type w hb) b owner
                      (set_up s b is_input localname fullname width type w hb) fullname s,
                )
                    ≡ some r =
                  ground (arith, paired, e) in
                subst (MakesPort s b is_input localname fullname width type)
                  (some-injective _ _ made) (install_port-MakesPort owner same)
          ]

  -- The full name of a new port is entered in the dictionary, and nothing else.
  pub add_port-names :
      (r : Option ℕ × Net)
      → add_port b is_input localname fullname width type s ≡ some r
      → (p : ℕ) × (r.1.name2port ≡ emplace fullname p s.name2port)
  unfolding add_port
  add_port-names r e =
      elim (Option-cases (
        pair_demux (pid s b is_input localname fullname width type w hb) is_input
          (own_port (pid s b is_input localname fullname width type w hb) is_input (block s b)))) [
            | inl stuck ↦ absurd (ground (arith, stuck, e))
            | inr (owner, paired) ↦
                (pid s b is_input localname fullname width type w hb, ground (arith, paired, e))
          ]

  -- A port of a block that is not a demux is always created.
  pub add_port_total :
      is_demux (block s b).type ≡ false
      → (r : Option ℕ × Net) × (add_port b is_input localname fullname width type s ≡ some r)
  unfolding add_port pair_demux
  add_port_total plain =
      let p = (alloc port_zero Port.next_free s.ports).0 in
      let kept : pair_demux p is_input (own_port p is_input (block s b))
          ≡ some (own_port p is_input (block s b)) =
        ground arith in
      (
        (
          some p,
          install_port p b (own_port p is_input (block s b))
              (init_port p b localname fullname is_input width type) fullname s,
        ),
        rw (kept, add_port) refl,
      )
