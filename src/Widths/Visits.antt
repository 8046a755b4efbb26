-- ===== src/Widths/Visits.antt =====
-- The visits of blocks and channels are moves.
use fpt2022_artifact.Common.{ℕ, ◌≡◌, refl, ap, ◌∙◌}
use fpt2022_artifact.Common.{Bool, true, false, Option, none, some, List, [], ◌∷◌}
use fpt2022_artifact.Common.{if◌then◌else◌, arith, Bool-cases, opt_eq, inl, inr}
use fpt2022_artifact.Common.Int.{ℤ, is_neg, eqb_ℤ, minus_one, max_ℤ, eqb_ℤ_iff}
use fpt2022_artifact.Common.Sets.{mem}
use fpt2022_artifact.Netlist.Types.{Net, block, channel, ret, valid_port, first}
use fpt2022_artifact.Netlist.Types.{BlockType}
use fpt2022_artifact.Netlist.Types.{operator, elastic_buffer, fork, branch, merge, demux, select}
use fpt2022_artifact.Netlist.Types.{constant, func_entry, func_exit, source, sink, mux, cntrl_mg}
use fpt2022_artifact.Netlist.Types.{lsq, mc, smc_fifo, smc_sel, smc_cntrl, distributor, selector}
use fpt2022_artifact.Netlist.Types.{unknown}
use fpt2022_artifact.Netlist.Invariant.{HasPort, HasBlock, HasChannel}
use fpt2022_artifact.Netlist.PortAttributes.{get_port_width}
use fpt2022_artifact.Netlist.Attributes.{get_block_type}
use fpt2022_artifact.Netlist.Channels.{get_src_port, get_dst_port}
use fpt2022_artifact.Widths.{
  define_width, define_unknown, max_width, collect, spread, visit_buffer, visit_data, visit_type,
  visit_ports, visit_block, visit_channel, width_or_unknown, find_select, find_data, is_minus_one,
  for_all, ◌then_also◌,
}
use fpt2022_artifact.Widths.Refines.{Refines, Refines-trans, width_of, unknown-back}
use fpt2022_artifact.Widths.Reads.{
  IsReadable, HasAll, HasSome, Shape, selection_of, get_port_width-reads, get_block_type-reads,
  get_src_port-reads, get_dst_port-reads, find_select-reads, valid_port-same, proper-same,
  block-same,
}
use fpt2022_artifact.Widths.Moves.{
  Moves, stays, look-Moves, also-Moves, define_width-Moves, for_all-Moves,
}

pub HasAll-mem : (s : Net) (ps : List ℕ) (p : ℕ) → HasAll s ps → mem p ps ≡ true → HasPort s p
unfolding mem
HasAll-mem s [] p h m = absurd (ground (arith, m))
HasAll-mem s (q ∷ ps) p h m = ground (arith, h, m, HasAll-mem s ps p h.1)

-- The width of the first port of a list, or -1.
abbrev first_width : List ℕ → Net → ℤ
first_width [] t = minus_one
first_width (p ∷ ps) t = width_of t p

module _ (s a : Net) (w : IsReadable s) (ra : Refines s a) where
  pub define-Moves :
      (t : Net) (p : ℕ) (v : ℤ)
      → Refines a t
      → HasPort s p
      → is_neg (width_of a p) ≡ true
      → is_neg v ≡ false
      → Moves a t (define_width (some p) v)
  define-Moves t p v r h old new =
      define_width-Moves a t r p v
        (valid_port-same s t w (Refines-trans ra r) (some p) ∙ w.ports_valid p h)
        (ap (mem p) ra.live ∙ h) old new

  pub define_unknown-Moves :
      (t : Net) (test : ℤ → Bool) (v : ℤ) (p : ℕ)
      → ((x : ℤ) → test x ≡ true → is_neg x ≡ true)
      → Refines a t
      → HasPort s p
      → is_neg v ≡ false
      → Moves a t (define_unknown test v p)
  unfolding define_unknown
  define_unknown-Moves t test v p sound r h new =
      look-Moves a t r (get_port_width (some p)) _ (width_of t p)
        (get_port_width-reads s t w (Refines-trans ra r) p h)
        (elim (Bool-cases (test (width_of t p))) [
          | inl on ↦
              rw on (define-Moves t p v r h (unknown-back a t p r (sound (width_of t p) on)) new)
          | inr off ↦ rw off (stays a t r)
        ])

  pub define_all-Moves :
      (t : Net) (test : ℤ → Bool) (v : ℤ) (ps : List ℕ)
      → ((x : ℤ) → test x ≡ true → is_neg x ≡ true)
      → Refines a t
      → HasAll s ps
      → is_neg v ≡ false
      → Moves a t (for_all (define_unknown test v) ps)
  define_all-Moves t test v ps sound r h new =
      for_all-Moves a t (define_unknown test v) ps r
        (λ p m u q. define_unknown-Moves u test v p sound q (HasAll-mem s ps p h m) new)

  max_width_total :
      (t : Net) (skip : Option ℕ) (v : ℤ) (ps : List ℕ)
      → Refines a t
      → HasAll s ps
      → (x : ℤ) × (max_width skip v ps t ≡ some x)
  unfolding max_width
  max_width_total t skip v [] r h = (v, refl)
  max_width_total t skip v (p ∷ ps) r h = elim (Bool-cases (opt_eq (some p) skip)) [
    | inl same ↦ let (x, e) = max_width_total t skip v ps r h.1 in (x, rw (same, max_width) e)
    | inr other ↦
        let (x, e) = max_width_total t skip (max_ℤ v (width_of t p)) ps r h.1 in
        (x, rw (other, max_width) (rw (get_port_width-reads s t w (Refines-trans ra r) p h.0) e))
  ]

  -- A port that exists and has no width at `a`.
  abbrev CanDefine : Option ℕ → Type 0
  CanDefine none = ⊥
  CanDefine (some p) = HasPort s p × (is_neg (width_of a p) ≡ true)

  define_some-Moves :
      (t : Net) (p : Option ℕ) (v : ℤ)
      → Refines a t
      → CanDefine p
      → is_neg v ≡ false
      → Moves a t (define_width p v)
  define_some-Moves t none v r c new = absurd c
  define_some-Moves t (some p) v r c new = define-Moves t p v r c.0 c.1 new

  spread-Moves :
      (t : Net) (test : ℤ → Bool) (ps : List ℕ) (skip p : Option ℕ) (v : ℤ)
      → ((x : ℤ) → test x ≡ true → is_neg x ≡ true)
      → Refines a t
      → HasAll s ps
      → (is_neg v ≡ true → CanDefine p)
      → Moves a t (spread test ps skip p v)
  unfolding spread collect
  spread-Moves t test ps skip p v sound r h c = elim (Bool-cases (is_neg v)) [
    | inr known ↦ rw (known, spread) (define_all-Moves t test v ps sound r h known)
    | inl none_yet ↦
        let (x, e) = max_width_total t skip minus_one ps r h in
        rw (none_yet, spread)
          (look-Moves a t r (max_width skip minus_one ps) _ x e (elim (Bool-cases (is_neg x)) [
            | inl low ↦ rw low (stays a t r)
            | inr high ↦ rw high (define_some-Moves t p x r (c none_yet) high)
          ]))
  ]

  -- A first port that has no width at the start `t` of a visit may be given one in the visit.
  first-CanDefine :
      (t : Net) (ps : List ℕ)
      → Refines a t
      → HasSome s (first ps)
      → is_neg (first_width ps t) ≡ true
      → CanDefine (first ps)
  first-CanDefine t [] r h n = h
  first-CanDefine t (p ∷ ps) r h n = (h, unknown-back a t p r n)

  visit_buffer-Moves :
      (t : Net) (ins outs : List ℕ)
      → Refines a t
      → HasSome s (first ins)
      → HasSome s (first outs)
      → Moves a t (visit_buffer (first ins) (first outs) (first_width ins t) (first_width outs t))
  unfolding visit_buffer
  visit_buffer-Moves t ins outs r hi ho =
      let x = first_width ins t in
      let y = first_width outs t in
      elim (Bool-cases (is_neg x)) [
        | inl nx ↦ elim (Bool-cases (is_neg y)) [
          | inl ny ↦ rw (nx, visit_buffer) (rw ny (stays a t r))
          | inr ky ↦
              rw (nx, visit_buffer)
                (rw ky (define_some-Moves t (first ins) y r (first-CanDefine t ins r hi nx) ky))
        ]
        | inr kx ↦ elim (Bool-cases (is_neg y)) [
          | inl ny ↦
              rw (kx, visit_buffer)
                (rw ny (define_some-Moves t (first outs) x r (first-CanDefine t outs r ho ny) kx))
          | inr ky ↦ rw (kx, visit_buffer) (rw ky (stays a t r))
        ]
      ]

  -- The cases that FORK falls through to.
  visit_fork-Moves :
      (t u : Net) (ins outs : List ℕ)
      → Refines a t
      → Refines a u
      → HasAll s ins
      → HasAll s outs
      → HasSome s (first ins)
      → HasSome s (first outs)
      → Moves a u (
          spread is_neg outs none (first ins) (first_width ins t)
          then_also spread is_neg ins none (first outs) (first_width outs t))
  visit_fork-Moves t u ins outs r q ai ao hi ho =
      also-Moves a u q _ _
        (spread-Moves u is_neg outs none (first ins) (first_width ins t) (λ x h. h) q ao
          (first-CanDefine t ins r hi))
        λ v k.
          spread-Moves v is_neg ins none (first outs) (first_width outs t) (λ x h. h) k ai
            (first-CanDefine t outs r ho)

  visit_data-Moves :
      (t : Net) (ps : List ℕ) (skip d : Option ℕ)
      → Refines a t
      → HasAll s ps
      → HasSome s d
      → Moves a t (visit_data ps skip d)
  unfolding visit_data
  visit_data-Moves t ps skip none r h k = absurd k
  visit_data-Moves t ps skip (some d) r h k =
      look-Moves a t r (get_port_width (some d)) _ (width_of t d)
        (get_port_width-reads s t w (Refines-trans ra r) d k)
        (spread-Moves t is_minus_one ps skip (some d) (width_of t d)
          (λ x e. ap is_neg ((eqb_ℤ_iff x minus_one).0 e)) r h (λ n. (k, unknown-back a t d r n)))

  abbrev Visit : Net → ℕ → List ℕ → List ℕ → BlockType → Type 0
  Visit t b ins outs type = Moves a t (
      visit_type type b ins outs (first ins) (first outs) (first_width ins t) (first_width outs t)
        (selection_of s ins))

  visit_type-Moves :
      (t : Net) (b : ℕ) (type : BlockType)
      → Refines a t
      → HasAll s (block s b).in_ports
      → HasAll s (block s b).out_ports
      → Shape s b type
      → Visit t b (block s b).in_ports (block s b).out_ports type
  unfolding visit_type
  visit_type-Moves t b operator r i o k = stays a t r
  visit_type-Moves t b constant r i o k = stays a t r
  visit_type-Moves t b func_entry r i o k = stays a t r
  visit_type-Moves t b func_exit r i o k = stays a t r
  visit_type-Moves t b sink r i o k = stays a t r
  visit_type-Moves t b source r i o k = stays a t r
  visit_type-Moves t b mux r i o k = stays a t r
  visit_type-Moves t b cntrl_mg r i o k = stays a t r
  visit_type-Moves t b lsq r i o k = stays a t r
  visit_type-Moves t b mc r i o k = stays a t r
  visit_type-Moves t b smc_sel r i o k = stays a t r
  visit_type-Moves t b smc_cntrl r i o k = stays a t r
  visit_type-Moves t b elastic_buffer r i o k =
      also-Moves a t r _ _
        (visit_buffer-Moves t (block s b).in_ports (block s b).out_ports r k.0 k.1)
        (λ u q. visit_fork-Moves t u (block s b).in_ports (block s b).out_ports r q i o k.0 k.1)
  visit_type-Moves t b smc_fifo r i o k =
      also-Moves a t r _ _
        (visit_buffer-Moves t (block s b).in_ports (block s b).out_ports r k.0 k.1)
        (λ u q. visit_fork-Moves t u (block s b).in_ports (block s b).out_ports r q i o k.0 k.1)
  visit_type-Moves t b fork r i o k =
      visit_fork-Moves t t (block s b).in_ports (block s b).out_ports r r i o k.0 k.1
  visit_type-Moves t b merge r i o k =
      spread-Moves t is_neg (block s b).in_ports none (first (block s b).out_ports)
        (first_width (block s b).out_ports t) (λ x h. h) r i
        (first-CanDefine t (block s b).out_ports r k)
  visit_type-Moves t b branch r i o k =
      visit_data-Moves t (block s b).out_ports none
        (find_data (selection_of s (block s b).in_ports) (block s b).in_ports) r o k
  visit_type-Moves t b select r i o k =
      visit_data-Moves t (block s b).in_ports (selection_of s (block s b).in_ports)
        (first (block s b).out_ports) r i k
  visit_type-Moves t b demux r i o k = absurd k
  visit_type-Moves t b distributor r i o k = absurd k
  visit_type-Moves t b selector r i o k = absurd k
  visit_type-Moves t b unknown r i o k = absurd k

  width_or_unknown-reads :
      (t : Net) (ps : List ℕ)
      → Refines a t
      → HasAll s ps
      → width_or_unknown (first ps) t ≡ some (first_width ps t)
  unfolding width_or_unknown valid_port
  width_or_unknown-reads t [] r h = refl
  width_or_unknown-reads t (p ∷ ps) r h =
      let q = Refines-trans ra r in
      let v = valid_port-same s t w q (some p) ∙ w.ports_valid p h.0 in
      rw (v, width_or_unknown) (get_port_width-reads s t w q p h.0)

  visit_ports-Moves :
      (t : Net) (b : ℕ)
      → Refines a t
      → HasBlock s b
      → Moves a t (
          visit_ports b
            (block s b).in_ports
            (block s b).out_ports
            (first (block s b).in_ports)
            (first (block s b).out_ports))
  unfolding visit_ports
  visit_ports-Moves t b r h =
      let q = Refines-trans ra r in
      let i = w.inputs b h in
      let o = w.outputs b h in
      look-Moves a t r (get_block_type (some b)) _ (block s b).type
        (get_block_type-reads s t w q b h)
        (look-Moves a t r (width_or_unknown (first (block s b).in_ports)) _
          (first_width (block s b).in_ports t) (width_or_unknown-reads t (block s b).in_ports r i)
          (look-Moves a t r (width_or_unknown (first (block s b).out_ports)) _
            (first_width (block s b).out_ports t)
            (width_or_unknown-reads t (block s b).out_ports r o)
            (look-Moves a t r (find_select (block s b).in_ports) _
              (selection_of s (block s b).in_ports)
              (find_select-reads s t w q (block s b).in_ports i)
              (visit_type-Moves t b (block s b).type r i o (w.shapes b h)))))

  -- The visit of a block is a move.
  pub visit_block-Moves : (t : Net) (b : ℕ) → Refines a t → HasBlock s b → Moves a t (visit_block b)
  unfolding visit_block
  visit_block-Moves t b r h =
      let m = visit_ports-Moves t b r h in
      let e = block-same s t w (Refines-trans ra r) b in
      record {
        changed = m.changed;
        after = m.after;
        runs =
            ap (λ x. visit_ports b x.in_ports x.out_ports (first x.in_ports) (first x.out_ports) t)
              e
            ∙ m.runs;
        refines = m.refines;
        grows = m.grows;
        progress = m.progress;
        idle = m.idle;
      }

  visit_ends-Moves :
      (t : Net) (x y : ℕ)
      → Refines a t
      → HasPort s x
      → HasPort s y
      → Moves a t (
          if eqb_ℤ (width_of t x) (width_of t y)
          then ret false
          else if is_minus_one (width_of t x)
          then define_width (some x) (width_of t y)
          else if is_minus_one (width_of t y)
          then define_width (some y) (width_of t x)
          else ret false)
  visit_ends-Moves t x y r hx hy =
      let q = Refines-trans ra r in
      let px = proper-same s t w q x in
      let py = proper-same s t w q y in
      elim (Bool-cases (eqb_ℤ (width_of t x) (width_of t y))) [
        | inl same ↦ rw same (stays a t r)
        | inr apart ↦ elim (Bool-cases (is_minus_one (width_of t x))) [
          | inl nx ↦
              rw (apart, nx)
                (define-Moves t x (width_of t y) r hx (unknown-back a t x r (px ∙ nx))
                  (py ∙ other_known (width_of t x) (width_of t y) apart nx))
          | inr kx ↦ elim (Bool-cases (is_minus_one (width_of t y))) [
            | inl ny ↦
                rw (apart, kx, ny)
                  (define-Moves t y (width_of t x) r hy (unknown-back a t y r (py ∙ ny)) (px ∙ kx))
            | inr ky ↦ rw (apart, kx, ky) (stays a t r)
          ]
        ]
      ]
    where
      other_known : (u v : ℤ) → eqb_ℤ u v ≡ false → is_minus_one u ≡ true → is_minus_one v ≡ false
      other_known u v n m = ground arith

  -- The visit of a channel is a move.
  pub visit_channel-Moves :
      (t : Net) (c : ℕ) → Refines a t → HasChannel s c → Moves a t (visit_channel c)
  unfolding visit_channel
  visit_channel-Moves t c r h =
      let q = Refines-trans ra r in
      let hx = w.sources c h in
      let hy = w.targets c h in
      look-Moves a t r (get_src_port (some c)) _ (channel s c).src (get_src_port-reads s t w q c h)
        (look-Moves a t r (get_dst_port (some c)) _ (channel s c).dst
          (get_dst_port-reads s t w q c h)
          (look-Moves a t r (get_port_width (some (channel s c).src)) _
            (width_of t (channel s c).src) (get_port_width-reads s t w q (channel s c).src hx)
            (look-Moves a t r (get_port_width (some (channel s c).dst)) _
              (width_of t (channel s c).dst) (get_port_width-reads s t w q (channel s c).dst hy)
              (visit_ends-Moves t (channel s c).src (channel s c).dst r hx hy))))
