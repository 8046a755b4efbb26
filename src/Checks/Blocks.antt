-- ===== src/Checks/Blocks.antt =====
-- What the checks of elastic buffers, forks and merges decide.
use fpt2022_artifact.Common.{ℕ, ◌≡◌, refl, ap, ◌∙◌, arith}
use fpt2022_artifact.Common.{true, ◌||◌, some, List, [], ◌∷◌, ◌++◌}
use fpt2022_artifact.Common.{length}
use fpt2022_artifact.Common.Int.{ℤ, pos, negsuc, minus_one, eqb_ℤ, is_neg, is_positive, eqb_ℤ_iff}
use fpt2022_artifact.Common.Sets.{mem}
use fpt2022_artifact.Common.Text.{codes}
use fpt2022_artifact.Netlist.Types.{Net, Block, Port, PortType, block, port}
use fpt2022_artifact.Netlist.Types.{first, generic_port, all_ports}
use fpt2022_artifact.Netlist.Invariant.{IsWellFormed, HasBlock, HasPort}
use fpt2022_artifact.Netlist.Invariant.Frame.{HasPort-valid}
use fpt2022_artifact.Netlist.Channels.{get_block_from_port}
use fpt2022_artifact.Netlist.Ports.{get_ports}
use fpt2022_artifact.Netlist.Attributes.{get_block_name, get_buffer_size}
use fpt2022_artifact.Netlist.PortAttributes.{
  get_port_width, get_port_type, get_port_name, num_in_ports, num_out_ports,
}
use fpt2022_artifact.Checks.{
  fail_width, check_num_ports, all_generic, is_generic, check_generic_ports, all_of_width,
  check_same_widths, check_same_width, check_slots, check_in_out, check_elastic_buffer,
  check_all_widths, check_fork, check_merge,
}
use fpt2022_artifact.Checks.Decides.{
  Decides, Fails, fail-Fails, look-Fails, require-Decides, pass-Decides, look-Decides,
  and_also-Decides, iff-Decides, read_block-reads, read_port-reads, fail_block-Fails,
}

-- All ports are generic.
abbrev pub AllGeneric : Net → List ℕ → Type 0
AllGeneric s [] = Unit
AllGeneric s (p ∷ ps) = ((port s p).type ≡ generic_port) × AllGeneric s ps

-- All ports have a width.
abbrev pub AllWidth : Net → ℤ → List ℕ → Type 0
AllWidth s width [] = Unit
AllWidth s width (p ∷ ps) = ((port s p).width ≡ width) × AllWidth s width ps

-- All ports have the width of the first one.
abbrev pub SameWidth : Net → List ℕ → Type 0
SameWidth s [] = Unit
SameWidth s (p ∷ ps) = AllWidth s (port s p).width ps

-- The number of ports that is asked for; a negative number asks for nothing.
abbrev pub Counts : ℕ → ℤ → Type 0
Counts n (pos m) = n ≡ m
Counts n (negsuc m) = Unit

-- The widths of the only two ports are equal.
abbrev pub EqualWidths : Net → List ℕ → List ℕ → Type 0
EqualWidths s (p ∷ ps) (q ∷ qs) = (port s p).width ≡ (port s q).width
EqualWidths s ps qs = Unit

abbrev Exist : Net → List ℕ → Type 0
Exist s [] = Unit
Exist s (p ∷ ps) = HasPort s p × Exist s ps

Exist-of : (s : Net) (ps : List ℕ) → ((p : ℕ) → mem p ps ≡ true → HasPort s p) → Exist s ps
unfolding mem
Exist-of s [] h = tt
Exist-of s (p ∷ ps) h = (h p (ground arith), Exist-of s ps (λ q m. h q (ground (arith, m))))

count-test : (n : ℕ) (m : ℤ) → (is_neg m || eqb_ℤ (pos n) m) ≡ true → Counts n m
count-test n (pos m) e = ground (arith, e)
count-test n (negsuc m) e = tt

test-count : (n : ℕ) (m : ℤ) → Counts n m → (is_neg m || eqb_ℤ (pos n) m) ≡ true
test-count n (pos m) e = ground (arith, e)
test-count n (negsuc m) e = refl

generic-test : (t : PortType) → is_generic t ≡ true → t ≡ generic_port
generic-test t e = ground (arith, e)

module _ (s : Net) (w : IsWellFormed s) where
  check_num_ports-Decides :
      (b : ℕ) (nin nout : ℤ)
      → HasBlock s b
      → Decides
          (Counts (length (block s b).in_ports) nin × Counts (length (block s b).out_ports) nout)
          s
          (check_num_ports b nin nout)
  unfolding check_num_ports
  check_num_ports-Decides b nin nout h =
      let n = length (block s b).in_ports in
      let m = length (block s b).out_ports in
      let f = fail_block-Fails s w b (codes ": incorrect number of ports.") h in
      look-Decides _ s (num_in_ports (some b)) _ n
        (read_block-reads s w (λ x. length x.in_ports) b h)
        (look-Decides _ s (num_out_ports (some b)) _ m
          (read_block-reads s w (λ x. length x.out_ports) b h)
          (and_also-Decides (Counts n nin) (Counts m nout) s _ _
            (require-Decides (Counts n nin) s _ _ (count-test n nin) (test-count n nin) f)
            (λ c. require-Decides (Counts m nout) s _ _ (count-test m nout) (test-count m nout) f)))

  all_generic-Decides : (ps : List ℕ) → Exist s ps → Decides (AllGeneric s ps) s (all_generic ps)
  unfolding all_generic
  all_generic-Decides [] h = pass-Decides Unit s tt
  all_generic-Decides (p ∷ ps) h =
      let name = (port s p).full_name in
      and_also-Decides ((port s p).type ≡ generic_port) (AllGeneric s ps) s _ _
        (look-Decides _ s (get_port_type (some p)) _ (port s p).type
          (read_port-reads s w Port.type p h.0)
          (look-Decides _ s (get_port_name (some p) true) _ name
            (read_port-reads s w Port.full_name p h.0)
            (require-Decides _ s (is_generic (port s p).type) _ (generic-test (port s p).type)
              (λ e. ap is_generic e)
              (fail-Fails s (codes "Incorrect type for port " ++ name ++ codes ".")))))
        (λ c. all_generic-Decides ps h.1)

  get_ports-all :
      (b : ℕ) → HasBlock s b → get_ports (some b) all_ports s ≡ some (block s b).all_ports
  unfolding get_ports
  get_ports-all b h = rw (w.ownership.block_ids b ∙ h, get_ports) refl

  Exist-all : (b : ℕ) → HasBlock s b → Exist s (block s b).all_ports
  Exist-all b h = Exist-of s (block s b).all_ports (λ p m. (w.ownership.owns b h).exists p m)

  pub check_generic_ports-Decides :
      (b : ℕ)
      → HasBlock s b
      → Decides (AllGeneric s (block s b).all_ports) s (check_generic_ports b)
  unfolding check_generic_ports
  check_generic_ports-Decides b h =
      look-Decides _ s (get_ports (some b) all_ports) _ (block s b).all_ports (get_ports-all b h)
        (all_generic-Decides (block s b).all_ports (Exist-all b h))

  fail_width-Fails : (p : ℕ) → HasPort s p → Fails s (fail_width p)
  unfolding fail_width get_block_from_port
  fail_width-Fails p h =
      let b = (port s p).block in
      look-Fails s (get_block_from_port (some p)) _ b
        (rw (HasPort-valid s p w h, get_block_from_port) refl)
        (look-Fails s (get_block_name (some b)) _ (block s b).name
          (read_block-reads s w Block.name b (w.ownership.owned p h).0)
          (fail-Fails s
            (codes "Inconsistent port width in block " ++ (block s b).name ++ codes ".")))

  all_of_width-Decides :
      (width : ℤ) (ps : List ℕ)
      → Exist s ps
      → Decides (AllWidth s width ps) s (all_of_width width ps)
  unfolding all_of_width
  all_of_width-Decides width [] h = pass-Decides Unit s tt
  all_of_width-Decides width (p ∷ ps) h =
      and_also-Decides ((port s p).width ≡ width) (AllWidth s width ps) s _ _
        (look-Decides _ s (get_port_width (some p)) _ (port s p).width
          (read_port-reads s w Port.width p h.0)
          (require-Decides _ s (eqb_ℤ (port s p).width width) _ (eqb_ℤ_iff (port s p).width width).0
            (eqb_ℤ_iff (port s p).width width).1 (fail_width-Fails p h.0)))
        (λ c. all_of_width-Decides width ps h.1)

  check_same_widths-Decides :
      (ps : List ℕ) → Exist s ps → Decides (SameWidth s ps) s (check_same_widths ps)
  unfolding check_same_widths
  check_same_widths-Decides [] h = pass-Decides Unit s tt
  check_same_widths-Decides (p ∷ []) h = pass-Decides Unit s tt
  check_same_widths-Decides (p ∷ q ∷ ps) h =
      iff-Decides _ _ s _ (λ k. k.1) (λ k. (refl, k))
        (look-Decides (AllWidth s (port s p).width (p ∷ q ∷ ps)) s (get_port_width (some p)) _
          (port s p).width (read_port-reads s w Port.width p h.0)
          (all_of_width-Decides (port s p).width (p ∷ q ∷ ps) h))

  check_same_width-Decides :
      (p q : ℕ)
      → HasPort s p
      → HasPort s q
      → Decides ((port s p).width ≡ (port s q).width) s (check_same_width (some p) (some q))
  unfolding check_same_width
  check_same_width-Decides p q hp hq =
      let v = (port s p).width in
      let u = (port s q).width in
      look-Decides _ s (get_port_width (some p)) _ v (read_port-reads s w Port.width p hp) (
        look-Decides _ s (get_port_width (some q)) _ u (read_port-reads s w Port.width q hq) (
          look-Decides _ s (get_port_name (some p) true) _ (port s p).full_name
            (read_port-reads s w Port.full_name p hp)
            (look-Decides _ s (get_port_name (some q) true) _ (port s q).full_name
              (read_port-reads s w Port.full_name q hq)
              (require-Decides _ s (eqb_ℤ v u) _ (eqb_ℤ_iff v u).0 (eqb_ℤ_iff v u).1
                (fail-Fails s _)))))

  -- One port on each side, so that both are there to compare.
  ends-Decides :
      (ps qs : List ℕ)
      → Exist s ps
      → Exist s qs
      → length ps ≡ 1
      → length qs ≡ 1
      → Decides (EqualWidths s ps qs) s (check_same_width (first ps) (first qs))
  ends-Decides [] qs h k e f = absurd (omega (arith, e))
  ends-Decides (p ∷ ps) [] h k e f = absurd (omega (arith, f))
  ends-Decides (p ∷ ps) (q ∷ qs) h k e f = check_same_width-Decides p q h.0 k.0

  check_in_out-Decides :
      (b : ℕ)
      → HasBlock s b
      → length (block s b).in_ports ≡ 1
      → length (block s b).out_ports ≡ 1
      → Decides (EqualWidths s (block s b).in_ports (block s b).out_ports) s (check_in_out b)
  unfolding check_in_out
  check_in_out-Decides b h e f =
      let o = w.ownership.owns b h in
      let d =
        ends-Decides (block s b).in_ports (block s b).out_ports
          (Exist-of s (block s b).in_ports (λ p m. o.exists p (ground (arith, o.inputs p, m))))
          (Exist-of s (block s b).out_ports (λ p m. o.exists p (ground (arith, o.outputs p, m)))) e
          f in
      record {
        passed = d.passed;
        after = d.after;
        runs = d.runs;
        sound = d.sound;
        complete = d.complete;
        quiet = d.quiet;
        told = d.told;
      }

  check_slots-Decides :
      (b : ℕ)
      → HasBlock s b
      → Decides (is_positive (block s b).attrs.slots ≡ true) s (check_slots b)
  unfolding check_slots
  check_slots-Decides b h =
      look-Decides _ s (get_buffer_size (some b)) _ (block s b).attrs.slots
        (read_block-reads s w (λ x. x.attrs.slots) b h)
        (look-Decides _ s (get_block_name (some b)) _ (block s b).name
          (read_block-reads s w Block.name b h)
          (require-Decides _ s (is_positive (block s b).attrs.slots) _ (λ e. e) (λ e. e)
            (fail-Fails s _)))

  -- `checkElasticBuffer` on a block of a well-formed netlist returns; it passes exactly when all
  -- ports are generic, there are one input and one output port, their widths are equal, and the
  -- number of slots is positive. It changes nothing when it passes, and only the error message when
  -- it fails.
  pub check_elastic_buffer-Decides :
      (b : ℕ)
      → HasBlock s b
      → Decides
          (AllGeneric s (block s b).all_ports
            × ((length (block s b).in_ports ≡ 1) × (length (block s b).out_ports ≡ 1))
            × (EqualWidths s (block s b).in_ports (block s b).out_ports
                × (is_positive (block s b).attrs.slots ≡ true)))
          s
          (check_elastic_buffer b)
  unfolding check_elastic_buffer
  check_elastic_buffer-Decides b h =
      iff-Decides _ _ s _ (λ k. (k.0, k.1.0, k.1.1)) (λ k. (k.0, (k.1, k.2)))
        (and_also-Decides _ _ s _ _ (check_generic_ports-Decides b h) λ g.
          and_also-Decides _ _ s _ _ (check_num_ports-Decides b (pos 1) (pos 1) h) λ n.
            and_also-Decides _ _ s _ _ (check_in_out-Decides b h n.0 n.1)
              λ e. check_slots-Decides b h)

  check_all_widths-Decides :
      (b : ℕ) → HasBlock s b → Decides (SameWidth s (block s b).all_ports) s (check_all_widths b)
  unfolding check_all_widths
  check_all_widths-Decides b h =
      look-Decides _ s (get_ports (some b) all_ports) _ (block s b).all_ports (get_ports-all b h)
        (check_same_widths-Decides (block s b).all_ports (Exist-all b h))

  -- `checkFork` and `checkMerge` on a block of a well-formed netlist return; they pass exactly when
  -- all ports are generic, a fork has one input port and a merge one output port, and all ports have
  -- one width. They change nothing when they pass, and only the error message when they fail.
  pub check_fork_merge-Decides :
      (b : ℕ)
      → HasBlock s b
      → Decides
          (AllGeneric s (block s b).all_ports
            × (length (block s b).in_ports ≡ 1)
            × SameWidth s (block s b).all_ports)
          s
          (check_fork b)
        × Decides
            (AllGeneric s (block s b).all_ports
              × (length (block s b).out_ports ≡ 1)
              × SameWidth s (block s b).all_ports)
            s
            (check_merge b)
  unfolding check_fork check_merge
  check_fork_merge-Decides b h = (
    iff-Decides _ _ s _ (λ k. (k.0, k.1.0.0, k.1.1)) (λ k. (k.0, ((k.1, tt), k.2)))
        (and_also-Decides _ _ s _ _ (check_generic_ports-Decides b h) λ g.
          and_also-Decides _ _ s _ _ (check_num_ports-Decides b (pos 1) minus_one h)
            λ n. check_all_widths-Decides b h),
    iff-Decides _ _ s _ (λ k. (k.0, k.1.0.1, k.1.1)) (λ k. (k.0, ((tt, k.1), k.2)))
        (and_also-Decides _ _ s _ _ (check_generic_ports-Decides b h) λ g.
          and_also-Decides _ _ s _ _ (check_num_ports-Decides b minus_one (pos 1) h)
            λ n. check_all_widths-Decides b h),
  )
