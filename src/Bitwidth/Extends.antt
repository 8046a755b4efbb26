-- ===== src/Bitwidth/Extends.antt =====
-- The rules that change the width: `forwardTrunc`, `forwardZExt` and `forwardSExt` of
-- elastic-circuits/OptimizeBitwidth/OptimizeBitwidth.cpp.
use fpt2022_artifact.Common.{ℕ, zero, suc, ◌≤◌, ◌<◌, ◌≡◌, ◌∙◌, ap, sym, arith, inl, inr}
use fpt2022_artifact.Common.{◌+◌, ◌-◌, ◌/◌, ◌%◌, ◌^◌}
use fpt2022_artifact.Common.{true, false, ◌&&◌, ◌==◌, ltb, leb, Bool-cases}
use Prim.Native.Nat.{min}
use fpt2022_artifact.Common.Halves.{half-mod, even-mod}
use native.Mathlib.Nat.{pow-succ'}
use fpt2022_artifact.Bitwidth.{get, Info, maybe_one, unset_range, copy_info}
use fpt2022_artifact.Bitwidth.Words.{get-zero, get-suc}
use fpt2022_artifact.Bitwidth.Ranges.{get-unset_range, get-set_range}
use fpt2022_artifact.Bitwidth.Forward.{forward_trunc, forward_zext, forward_sext, extend_info}
use fpt2022_artifact.Bitwidth.Describes.{
  Describes, IsBounded, Fits, settle-Fits, settle-Describes, settled-outside, settled-below,
}

-- A remainder by a power of two has the low bits.
pub get-mod : (w i a : ℕ) → get (a % 2 ^ w) i ≡ (get a i && ltb i w)
get-mod zero i a = ap (λ m. get m i) (omega arith) ∙ (get-nothing i ∙ ground arith)
  where
    get-nothing : (i : ℕ) → get 0 i ≡ false
    get-nothing zero = get-zero 0
    get-nothing (suc i) = get-suc 0 i ∙ get-nothing i
get-mod (suc w) zero a =
    get-zero (a % 2 ^ suc w)
    ∙ (ap (λ p. a % p % 2 == 1) (pow-succ' 2 w)
        ∙ (ap (λ m. m == 1) (even-mod a (2 ^ w)) ∙ (sym (get-zero a) ∙ ground arith)))
get-mod (suc w) (suc i) a =
    get-suc (a % 2 ^ suc w) i
    ∙ (ap (λ p. get (a % p / 2) i) (pow-succ' 2 w)
        ∙ (ap (λ m. get m i) (half-mod a (2 ^ w))
            ∙ (get-mod w i (a / 2) ∙ (ap (λ b. b && ltb i w) (sym (get-suc a i)) ∙ ground arith))))

-- The information before a rule ends, when it only copies bits within a width.
copied-IsBounded :
    (cur x : Info)
    → Fits x
    → cur.bitwidth ≤ 64
    → x.bitwidth ≤ cur.bitwidth
    → IsBounded (copy_info cur x)
copied-IsBounded cur x f narrow wider = record {
  narrow = narrow;
  left_lt = omega (arith, f.bounded.left_lt, wider);
  high = f.bounded.high;
  apart = f.bounded.apart;
}

-- `forwardZExt` to a width of at most 64: the information of the result describes the same values
-- as that of the operand, within its borders.
pub forward_zext-Sound :
    (cur x : Info) (a : ℕ)
    → Fits x
    → cur.bitwidth ≤ 64
    → x.bitwidth ≤ cur.bitwidth
    → Describes x a
    → Fits (forward_zext cur x) × Describes (forward_zext cur x) a
unfolding forward_zext
forward_zext-Sound cur x a f narrow wider d =
    let info = copy_info cur x in
    let b = copied-IsBounded cur x f narrow wider in
    (
      record {
        bounded = record {
          narrow = narrow;
          left_lt = (settle-Fits info b).bounded.left_lt;
          high = settled-outside info b;
          apart = f.bounded.apart;
        };
        low = λ i h below. settled-below info b i below;
      },
      d,
    )

module _ (cur x : Info) (a : ℕ) (f : Fits x) (some_bit : 1 ≤ cur.bitwidth)
    (narrower : cur.bitwidth ≤ x.bitwidth) (d : Describes x a) where
  abbrev cut : ℕ
  cut = min ((cur.bitwidth + 255) % 256) x.left

  cut-lt : cut < cur.bitwidth
  cut-lt = omega (arith, some_bit, narrower, f.bounded.narrow)

  abbrev cut_info : Info
  cut_info = record cur {
    left = cut;
    right = min cut x.right;
    bit_value = unset_range x.bit_value (cut + 1) x.bitwidth;
    unknown_bits = unset_range x.unknown_bits (cut + 1) x.bitwidth;
  }

  -- The bits that are left are those up to the new border.
  cut-value : (i : ℕ) → i < 64 → get cut_info.bit_value i ≡ (get x.bit_value i && leb i cut)
  cut-value i h = ground (
    arith,
    get-unset_range x.bit_value (cut + 1) x.bitwidth i h,
    f.bounded.high i h,
    f.bounded.left_lt,
  )

  cut-unknown : (i : ℕ) → i < 64 → get cut_info.unknown_bits i ≡ (get x.unknown_bits i && leb i cut)
  cut-unknown i h = ground (
    arith,
    get-unset_range x.unknown_bits (cut + 1) x.bitwidth i h,
    f.bounded.high i h,
    f.bounded.left_lt,
  )

  cut-IsBounded : IsBounded cut_info
  cut-IsBounded = record {
    narrow = omega (arith, narrower, f.bounded.narrow);
    left_lt = cut-lt;
    high = λ i h above. ground (arith, cut-value i h, cut-unknown i h);
    apart = λ i h. ground (arith, cut-value i h, cut-unknown i h, f.bounded.apart i h);
  }

  -- A bit above the new border is above that of the operand, or above the new width.
  cut-Describes : Describes cut_info (a % 2 ^ cur.bitwidth)
  cut-Describes i h known = elim (Bool-cases (leb i cut)) [
    | inl inside ↦
        ground
          (arith, known, get-mod cur.bitwidth i a, cut-value i h, cut-unknown i h, d i h, cut-lt)
    | inr outside ↦ elim (Bool-cases (leb i x.left)) [
      | inl kept ↦
          let past : cut < i = ground (arith, outside) in
          let upto : i ≤ x.left = ground (arith, kept) in
          let beyond : cur.bitwidth ≤ i =
            omega (arith, past, upto, some_bit, narrower, f.bounded.narrow) in
          ground (arith, get-mod cur.bitwidth i a, cut-value i h, outside)
      | inr above ↦
          ground
            (arith, get-mod cur.bitwidth i a, cut-value i h, outside, d i h, f.bounded.high i h)
    ]
  ]

  -- `forwardTrunc` to a width that is not 0 nor larger than that of the operand: if the information
  -- of the operand describes a value, then that of the result describes the value modulo two to the
  -- power of the new width, within its borders.
  pub forward_trunc-Sound :
      Fits (forward_trunc cur x) × Describes (forward_trunc cur x) (a % 2 ^ cur.bitwidth)
  unfolding forward_trunc
  forward_trunc-Sound =
      let g = settle-Fits cut_info cut-IsBounded in
      (
        record {
          bounded = record {
            narrow = g.bounded.narrow;
            left_lt = g.bounded.left_lt;
            high = g.bounded.high;
            apart = g.bounded.apart;
          };
          low = g.low;
        },
        settle-Describes cut_info cut-IsBounded (a % 2 ^ cur.bitwidth) cut-Describes,
      )

-- The signed extension of a number of `from` bits to `to` bits, bit by bit.
pub record IsSignExtension (from to a r : ℕ) : Type 0 where
  pub low : (i : ℕ) → i < from → get r i ≡ get a i
  pub sign : (i : ℕ) → from ≤ i → i < to → get r i ≡ get a (from - 1)
  pub none_above : (i : ℕ) → to ≤ i → get r i ≡ false

module _ (cur x : Info) (a r : ℕ) (f : Fits x) (narrow : cur.bitwidth ≤ 64)
    (wider : x.bitwidth ≤ cur.bitwidth)
    (signed : x.left + 1 ≡ x.bitwidth → maybe_one x (x.bitwidth - 1) ≡ true) (d : Describes x a)
    (ext : IsSignExtension x.bitwidth cur.bitwidth a r) where
  -- Without a sign the value is copied.
  plain-Describes : (x.left + 1 == x.bitwidth) ≡ false → Describes (copy_info cur x) r
  plain-Describes short i h known =
      let sign_zero : get a (x.bitwidth - 1) ≡ false = ground (
        arith,
        short,
        f.bounded.left_lt,
        f.bounded.high (x.bitwidth - 1),
        narrow,
        wider,
        d (x.bitwidth - 1),
      ) in
      ground (
        arith,
        known,
        sign_zero,
        ext.low i,
        ext.sign i,
        ext.none_above i,
        d i h,
        f.bounded.high i h,
        f.bounded.left_lt,
      )

  abbrev unknown_sign : Info
  unknown_sign = record (extend_info true x (copy_info cur x)) { left = cur.bitwidth - 1 }

  abbrev known_sign : Info
  known_sign = record (extend_info false x (copy_info cur x)) { left = cur.bitwidth - 1 }

  unknown-IsBounded : IsBounded unknown_sign
  unfolding extend_info
  unknown-IsBounded = record {
    narrow = narrow;
    left_lt = omega (arith, wider, f.bounded.left_lt);
    high = λ i h above. ground (
      arith,
      get-set_range x.unknown_bits x.bitwidth cur.bitwidth i,
      get-unset_range x.bit_value x.bitwidth cur.bitwidth i h,
      f.bounded.high i h,
      f.bounded.left_lt,
      wider,
    );
    apart = λ i h. ground (
      arith,
      get-set_range x.unknown_bits x.bitwidth cur.bitwidth i,
      get-unset_range x.bit_value x.bitwidth cur.bitwidth i h,
      f.bounded.apart i h,
    );
  }

  unknown-Describes : Describes unknown_sign r
  unfolding extend_info
  unknown-Describes i h known = ground (
    arith,
    known,
    get-set_range x.unknown_bits x.bitwidth cur.bitwidth i,
    get-unset_range x.bit_value x.bitwidth cur.bitwidth i h,
    ext.low i,
    ext.none_above i,
    d i h,
    f.bounded.high i h,
    f.bounded.left_lt,
    wider,
  )

  known-IsBounded : IsBounded known_sign
  unfolding extend_info
  known-IsBounded = record {
    narrow = narrow;
    left_lt = omega (arith, wider, f.bounded.left_lt);
    high = λ i h above. ground (
      arith,
      get-set_range x.bit_value x.bitwidth cur.bitwidth i,
      get-unset_range x.unknown_bits x.bitwidth cur.bitwidth i h,
      f.bounded.high i h,
      f.bounded.left_lt,
      wider,
    );
    apart = λ i h. ground (
      arith,
      get-set_range x.bit_value x.bitwidth cur.bitwidth i,
      get-unset_range x.unknown_bits x.bitwidth cur.bitwidth i h,
      f.bounded.apart i h,
    );
  }

  known-Describes :
      x.left + 1 ≡ x.bitwidth → get x.unknown_bits (x.bitwidth - 1) ≡ false → Describes known_sign r
  unfolding extend_info
  known-Describes full certain i h known =
      let sign_one : get a (x.bitwidth - 1) ≡ true =
        ground (arith, signed full, certain, narrow, wider, d (x.bitwidth - 1), full) in
      ground (
        arith,
        known,
        sign_one,
        get-set_range x.bit_value x.bitwidth cur.bitwidth i,
        get-unset_range x.unknown_bits x.bitwidth cur.bitwidth i h,
        ext.low i,
        ext.sign i,
        ext.none_above i,
        d i h,
        f.bounded.high i h,
        f.bounded.left_lt,
        wider,
      )

  -- `forwardSExt` to a width of at most 64, of an operand that has no left border at its sign when
  -- the sign is known to be zero: if the information of the operand describes a value, then that of
  -- the result describes the signed extension of the value, within its borders.
  pub forward_sext-Sound : Fits (forward_sext cur x) × Describes (forward_sext cur x) r
  unfolding forward_sext
  forward_sext-Sound = elim (Bool-cases (x.left + 1 == x.bitwidth)) [
    | inr short ↦
        let b = copied-IsBounded cur x f narrow wider in
        rw short (
          settle-Fits (copy_info cur x) b,
          settle-Describes (copy_info cur x) b r (plain-Describes short),
        )
    | inl full ↦ elim (Bool-cases (get x.unknown_bits (x.bitwidth - 1))) [
      | inl open_sign ↦
          rw (full, open_sign)
            (
              settle-Fits unknown_sign unknown-IsBounded,
              settle-Describes unknown_sign unknown-IsBounded r unknown-Describes,
            )
      | inr certain ↦
          rw (full, certain)
            (
              settle-Fits known_sign known-IsBounded,
              settle-Describes known_sign known-IsBounded r
                  (known-Describes (ground (arith, full)) certain),
            )
    ]
  ]
