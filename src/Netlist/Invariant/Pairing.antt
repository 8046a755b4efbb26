-- ===== src/Netlist/Invariant/Pairing.antt =====
-- The pairing of the ports of a demux (`createPort`) leaves the port sets of the block alone.
use fpt2022_artifact.Common.{ℕ, ◌≡◌, refl, Bool}
use fpt2022_artifact.Common.{some, inl, inr, arith}
use fpt2022_artifact.Common.{Bool-cases, List, [], ◌∷◌}
use fpt2022_artifact.Netlist.Types.{Block}
use fpt2022_artifact.Netlist.Ports.{settle_data, pair_output, pair_demux, is_demux}
use fpt2022_artifact.Netlist.Ports.{emplace_pair}

-- The fields of a block that the netlist's invariant speaks of.
pub record SameSets (a b : Block) : Type 0 where
  pub id : a.id ≡ b.id
  pub all_ports : a.all_ports ≡ b.all_ports
  pub in_ports : a.in_ports ≡ b.in_ports
  pub out_ports : a.out_ports ≡ b.out_ports
  pub name : a.name ≡ b.name
  pub type : a.type ≡ b.type
  pub attrs : a.attrs ≡ b.attrs

settle_data-SameSets : (ps : List ℕ) (b : Block) → SameSets (settle_data ps b) b
settle_data-SameSets [] b = record {
  id = refl;
  all_ports = refl;
  in_ports = refl;
  out_ports = refl;
  name = refl;
  type = refl;
  attrs = refl;
}
settle_data-SameSets (p ∷ []) b = record {
  id = refl;
  all_ports = refl;
  in_ports = refl;
  out_ports = refl;
  name = refl;
  type = refl;
  attrs = refl;
}
settle_data-SameSets (p ∷ q ∷ ps) b = record {
  id = refl;
  all_ports = refl;
  in_ports = refl;
  out_ports = refl;
  name = refl;
  type = refl;
  attrs = refl;
}

pair_output-SameSets :
    (pid : ℕ) (ps : List ℕ) (b o : Block) → pair_output pid ps b ≡ some o → SameSets o b
unfolding pair_output
pair_output-SameSets pid [] b o e = cc
pair_output-SameSets pid (inp ∷ ps) b o e =
    let settled =
      settle_data-SameSets ps
        (record b { demux_pairs = emplace_pair inp pid (emplace_pair pid inp b.demux_pairs) }) in
    record {
      id = ground (arith, settled);
      all_ports = ground (arith, settled);
      in_ports = ground (arith, settled);
      out_ports = ground (arith, settled);
      name = ground (arith, settled);
      type = ground (arith, settled);
      attrs = ground (arith, settled);
    }

-- The pairing of a demux leaves the port sets alone.
pub pair_demux-SameSets :
    (pid : ℕ) (is_input : Bool) (b o : Block) → pair_demux pid is_input b ≡ some o → SameSets o b
unfolding pair_demux
pair_demux-SameSets pid is_input b o e = elim (Bool-cases (is_demux b.type)) [
  | inl dem ↦ elim (Bool-cases is_input) [
    | inl inp ↦ ground (arith, e, dem, inp)
    | inr outp ↦ pair_output-SameSets pid b.list_ports b o (ground (arith, e, dem, outp))
  ]
  | inr other ↦ ground (arith, e, other)
]
