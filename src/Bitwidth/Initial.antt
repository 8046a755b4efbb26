-- ===== src/Bitwidth/Initial.antt =====
-- The information that the propagation starts with (`createBitInfo`, `initialize` in
-- elastic-circuits/OptimizeBitwidth/OptimizeBitwidth.cpp), and where a constant breaks the rule for
-- signed extensions.
use fpt2022_artifact.Common.{
  ℕ, zero, suc, ◌≤◌, ◌<◌, ◌≡◌, refl, ◌∙◌, ap, sym, arith, inl, inr, ◌+◌, ◌-◌, ◌^◌, subst,
}
use fpt2022_artifact.Common.{false, ◌==◌, Bool-cases}
use native.Mathlib.Nat.{mod-eq_of_lt}
use fpt2022_artifact.Bitwidth.{get, Info, set_range, unset_range, get_left_border, get_right_border}
use fpt2022_artifact.Bitwidth.Words.{get-zero, get-suc}
use fpt2022_artifact.Bitwidth.Ranges.{get-set_range, get-unset_range}
use fpt2022_artifact.Bitwidth.Forward.{
  constant_info, argument_info, forward_sext, extend_info, settle,
}
use fpt2022_artifact.Bitwidth.Describes.{Describes, Fits}
use fpt2022_artifact.Bitwidth.Extends.{get-mod}

pub get-nothing : (i : ℕ) → get 0 i ≡ false
get-nothing zero = get-zero 0
get-nothing (suc i) = get-suc 0 i ∙ get-nothing i

pub get-narrow : (w val i : ℕ) → val < 2 ^ w → w ≤ i → get val i ≡ false
get-narrow w val i small h =
    ap (λ m. get m i) (sym (mod-eq_of_lt small)) ∙ (get-mod w i val ∙ ground (arith, h))

left_border-lt : (n val : ℕ) → get_left_border (suc n) val < suc n
unfolding get_left_border
left_border-lt zero val = ground arith
left_border-lt (suc n) val = ground (arith, left_border-lt n val)

left_border-beyond : (n val i : ℕ) → get_left_border n val < i → i < n → get val i ≡ false
unfolding get_left_border
left_border-beyond zero val i p q = absurd (omega (arith, q))
left_border-beyond (suc n) val i p q = elim (Bool-cases (get val n)) [
  | inl here ↦ absurd (ground (arith, here, p, q))
  | inr none ↦ elim (Bool-cases (i == n)) [
    | inl last ↦ ground (arith, last, none)
    | inr before ↦ left_border-beyond n val i (ground (arith, none, p)) (ground (arith, before, q))
  ]
]

right_border-beyond : (n i val j : ℕ) → i ≤ j → j < get_right_border n i val → get val j ≡ false
unfolding get_right_border
right_border-beyond zero i val j p q = absurd (omega (arith, q))
right_border-beyond (suc n) i val j p q = elim (Bool-cases (get val i)) [
  | inl here ↦ absurd (ground (arith, here, p, q))
  | inr none ↦ elim (Bool-cases (j == i)) [
    | inl first ↦ ground (arith, first, none)
    | inr later ↦
        right_border-beyond n (i + 1) val j (ground (arith, later, p)) (ground (arith, none, q))
  ]
]

-- The information of a constant of 1 to 64 bits describes the constant, within its borders; that of
-- an argument of 1 to 64 bits describes every value of that width, within its borders.
pub initial_info-Sound :
    (w val : ℕ)
    → 1 ≤ w
    → w ≤ 64
    → val < 2 ^ w
    → (Fits (constant_info w val) × Describes (constant_info w val) val)
      × (Fits (argument_info w) × Describes (argument_info w) val)
initial_info-Sound zero val some_bit narrow small = absurd (omega (arith, some_bit))
initial_info-Sound (suc n) val some_bit narrow small = (
  (
    record {
      bounded = record {
        narrow = narrow;
        left_lt = left_border-lt n val;
        high = λ i h above. ground (
          arith,
          get-nothing i,
          left_border-beyond (suc n) val i above,
          get-narrow (suc n) val i small,
        );
        apart = λ i h. ground (arith, get-nothing i);
      };
      low = λ i h below.
          ground (arith, get-nothing i, right_border-beyond 64 0 val i (omega arith) below);
    },
    λ i h known. refl,
  ),
  (
    record {
      bounded = record {
        narrow = narrow;
        left_lt = omega arith;
        high = λ i h above. ground (arith, get-nothing i, get-set_range 0 0 (suc n) i);
        apart = λ i h. ground (arith, get-nothing i);
      };
      low = λ i h below. absurd (omega (arith, below));
    },
    λ i h known.
        ground (
          arith,
          known,
          get-nothing i,
          get-set_range 0 0 (suc n) i,
          get-narrow (suc n) val i small,
        ),
  ),
)

-- The rule takes the sign of `false` for a one.
abbrev false_extended : Info → Info
false_extended cur = record cur {
  left = cur.bitwidth - 1;
  right = 0;
  extend_point = cur.bitwidth - 1;
  unknown_bits = unset_range 0 1 cur.bitwidth;
  bit_value = set_range 0 1 cur.bitwidth;
}

forward_sext-false_extended :
    (cur : Info) → forward_sext cur (constant_info 1 0) ≡ settle (false_extended cur)
unfolding forward_sext extend_info get_left_border get_right_border get
forward_sext-false_extended cur = refl

-- No bit of the result is unknown.
false_extended-known :
    (cur : Info) (i : ℕ) → i < 64 → get (settle (false_extended cur)).unknown_bits i ≡ false
false_extended-known cur i h =
    let info = settle (false_extended cur) in
    let inner = unset_range 0 1 cur.bitwidth in
    ground (
      arith,
      get-unset_range (unset_range inner (info.left + 1) cur.bitwidth) 0 info.right i h,
      get-unset_range inner (info.left + 1) cur.bitwidth i h,
      get-unset_range 0 1 cur.bitwidth i h,
      get-nothing i,
    )

-- `forwardSExt` of the constant `false` of one bit, to a width from 2 to 64: the information of the
-- result does not describe 0. Its left border is that of the sign, so that the rule takes the sign
-- for a one.
pub forward_sext-constant_false :
    (cur : Info)
    → 2 ≤ cur.bitwidth
    → cur.bitwidth ≤ 64
    → ¬ Describes (forward_sext cur (constant_info 1 0)) 0
forward_sext-constant_false cur wide narrow d =
    let e : Describes (settle (false_extended cur)) 0 =
      subst (λ info. Describes info 0) (forward_sext-false_extended cur) d in
    ground (
      arith,
      e 1 (omega arith) (false_extended-known cur 1 (omega arith)),
      get-nothing 1,
      get-set_range 0 1 cur.bitwidth 1,
      wide,
    )
