-- ===== src/Widths/Refines.antt =====
-- What the inference of widths may do to a netlist: give a width to ports that have none.
use fpt2022_artifact.Common.{ℕ, suc, ◌≤◌, ◌<◌, ◌≡◌, refl, sym, ap, ◌∙◌, ◌⊎◌, inl, inr}
use fpt2022_artifact.Common.{true, false, List, [], ◌∷◌}
use fpt2022_artifact.Common.{if◌then◌else◌, ◌==◌, length, arith, Bool-cases, ==→eq}
use fpt2022_artifact.Common.Int.{ℤ, pos, is_neg}
use fpt2022_artifact.Common.Sets.{mem}
use fpt2022_artifact.Netlist.Types.{Net, Port, port}
use fpt2022_artifact.Netlist.Invariant.{HasPort}

abbrev pub with_width : ℤ → Port → Port
with_width w q = record q { width = w }

abbrev pub width_of : Net → ℕ → ℤ
width_of s p = (port s p).width

-- `t` is `s`, but that ports without a width may have got one.
pub record Refines (s t : Net) : Type 0 where
  pub frame : t ≡ record s { ports = t.ports }
  pub live : t.ports.live ≡ s.ports.live
  pub size : length t.ports.slots ≡ length s.ports.slots
  pub rest : (p : ℕ) → with_width (pos 0) (port t p) ≡ with_width (pos 0) (port s p)
  pub widths :
      (p : ℕ)
      → (width_of t p ≡ width_of s p)
        ⊎ ((is_neg (width_of s p) ≡ true) × (is_neg (width_of t p) ≡ false))

pub Refines-refl : (s : Net) → Refines s s
Refines-refl s = record {
  frame = refl;
  live = refl;
  size = refl;
  rest = λ p. refl;
  widths = λ p. inl refl;
}

pub Refines-trans : {s t u : Net} → Refines s t → Refines t u → Refines s u
Refines-trans {s} {t} {u} a b = record {
  frame = b.frame ∙ ap (λ (x : Net). record x { ports = u.ports }) a.frame;
  live = b.live ∙ a.live;
  size = b.size ∙ a.size;
  rest = λ p. b.rest p ∙ a.rest p;
  widths = λ p. ground (arith, a.widths p, b.widths p);
}

-- A port without a width in `t` had none in `s`.
pub unknown-back :
    (s t : Net) (p : ℕ) → Refines s t → is_neg (width_of t p) ≡ true → is_neg (width_of s p) ≡ true
unknown-back s t p r h = let k = r.widths p in ground (arith, h, k)

-- A port of the netlist that has no width in `s` has one in `t`.
pub record Progress (s t : Net) : Type 0 where
  pub at_port : ℕ
  pub is_live : HasPort s at_port
  pub before : is_neg (width_of s at_port) ≡ true
  pub after : is_neg (width_of t at_port) ≡ false

pub Progress-left : {s t u : Net} → Progress s t → Refines t u → Progress s u
Progress-left {s} {t} {u} p r = record {
  at_port = p.at_port;
  is_live = p.is_live;
  before = p.before;
  after = let k = r.widths p.at_port in ground (arith, p.after, k);
}

pub Progress-right : {s t u : Net} → Refines s t → Progress t u → Progress s u
Progress-right {s} {t} {u} r p = record {
  at_port = p.at_port;
  is_live = ap (mem p.at_port) (sym r.live) ∙ p.is_live;
  before = let k = r.widths p.at_port in ground (arith, p.before, k);
  after = p.after;
}

-- The ports without a width.
pub unknowns : List ℕ → Net → ℕ
unknowns [] s = 0
unknowns (p ∷ ps) s = if is_neg (width_of s p) then suc (unknowns ps s) else unknowns ps s

pub unknowns-le-length : (ps : List ℕ) (s : Net) → unknowns ps s ≤ length ps
unfolding unknowns
unknowns-le-length [] s = omega arith
unknowns-le-length (p ∷ ps) s = ground (arith, unknowns-le-length ps s)

pub unknowns_mono : (ps : List ℕ) (s t : Net) → Refines s t → unknowns ps t ≤ unknowns ps s
unfolding unknowns
unknowns_mono [] s t r = omega arith
unknowns_mono (p ∷ ps) s t r =
    let k = r.widths p in let ih = unknowns_mono ps s t r in ground (arith, k, ih)

pub unknowns-lt :
    (ps : List ℕ) (s t : Net) (p : ℕ)
    → Refines s t
    → mem p ps ≡ true
    → is_neg (width_of s p) ≡ true
    → is_neg (width_of t p) ≡ false
    → unknowns ps t < unknowns ps s
unfolding unknowns mem
unknowns-lt [] s t p r h b a = absurd (ground (arith, h))
unknowns-lt (q ∷ ps) s t p r h b a = elim (Bool-cases (q == p)) [
  | inl same ↦
      let e = ==→eq q p same in
      let bq = ap (λ x. is_neg (width_of s x)) e ∙ b in
      let aq = ap (λ x. is_neg (width_of t x)) e ∙ a in
      let le = unknowns_mono ps s t r in rw (bq, aq) (omega arith)
  | inr apart ↦
      let k = r.widths q in
      let ih = unknowns-lt ps s t p r (ground (arith, h, apart)) b a in ground (arith, k, ih)
]
