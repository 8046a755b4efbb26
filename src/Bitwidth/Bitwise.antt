-- ===== src/Bitwidth/Bitwise.antt =====
-- The rules for `and`, `or` and `xor` (`forwardAnd`, `forwardOr`, `forwardXor` of
-- elastic-circuits/OptimizeBitwidth/OptimizeBitwidth.cpp) describe the results of the instructions.
use fpt2022_artifact.Common.{ℕ, ◌<◌, ◌≡◌, ◌∙◌, ap, ap₂, arith}
use fpt2022_artifact.Common.{true, not, ◌&&◌, ◌||◌}
use Prim.Native.Nat.{bit_and, bit_or, bit_xor, min, max}
use fpt2022_artifact.Bitwidth.{get, Info, complement}
use fpt2022_artifact.Bitwidth.Words.{get-bit_and, get-bit_or, get-bit_xor, get-complement, differs}
use fpt2022_artifact.Bitwidth.Forward.{forward_and, forward_or, forward_xor}
use fpt2022_artifact.Bitwidth.Describes.{Describes, IsBounded, Fits, settle-Fits, settle-Describes}

-- The operands of an instruction on one width, and their values.
pub record Operands (w : ℕ) (cur op0 op1 : Info) (a b : ℕ) : Type 0 where
  pub cur_width : cur.bitwidth ≡ w
  pub width0 : op0.bitwidth ≡ w
  pub width1 : op1.bitwidth ≡ w
  pub fits0 : Fits op0
  pub fits1 : Fits op1
  pub value0 : Describes op0 a
  pub value1 : Describes op1 b

module _ (w : ℕ) (cur op0 op1 : Info) (a b : ℕ) (o : Operands w cur op0 op1 a b) where
  abbrev v0 : ℕ
  v0 = op0.bit_value

  abbrev v1 : ℕ
  v1 = op1.bit_value

  abbrev u0 : ℕ
  u0 = op0.unknown_bits

  abbrev u1 : ℕ
  u1 = op1.unknown_bits

  -- The bits of the words that the rules make.
  and-value : (i : ℕ) → get (bit_and v0 v1) i ≡ (get v0 i && get v1 i)
  and-value i = get-bit_and i v0 v1

  and-unknown :
      (i : ℕ)
      → i < 64
      → get (bit_and (complement (bit_and v0 v1)) (bit_and (bit_or u0 v0) (bit_or u1 v1))) i
        ≡ (not (get v0 i && get v1 i) && ((get u0 i || get v0 i) && (get u1 i || get v1 i)))
  and-unknown i h =
      get-bit_and i (complement (bit_and v0 v1)) (bit_and (bit_or u0 v0) (bit_or u1 v1))
      ∙ ground (
        arith,
        get-complement i (bit_and v0 v1) h,
        and-value i,
        get-bit_and i (bit_or u0 v0) (bit_or u1 v1),
        get-bit_or i u0 v0,
        get-bit_or i u1 v1,
      )

  -- `forwardAnd` on two operands of one width: if the information of the operands describes two
  -- values, then that of the result describes their conjunction, within its borders.
  pub forward_and-Sound :
      Fits (forward_and cur op0 op1) × Describes (forward_and cur op0 op1) (bit_and a b)
  unfolding forward_and
  forward_and-Sound =
      let inner : IsBounded (record cur {
        left = min op0.left op1.left;
        right = max op0.right op1.right;
        bit_value = bit_and v0 v1;
        unknown_bits = bit_and (complement (bit_and v0 v1)) (bit_and (bit_or u0 v0) (bit_or u1 v1));
        extend_point = max op0.extend_point op1.extend_point;
      }) =
        record {
          narrow = ground (arith, o.cur_width, o.width0, o.fits0.bounded.narrow);
          left_lt = ground (arith, o.cur_width, o.width0, o.fits0.bounded.left_lt);
          high = λ i h above. ground (
            arith,
            and-value i,
            and-unknown i h,
            o.fits0.bounded.high i h,
            o.fits1.bounded.high i h,
          );
          apart = λ i h. ground (arith, and-value i, and-unknown i h);
        } in
      (
        settle-Fits _ inner,
        settle-Describes _ inner (bit_and a b) (λ i h known. ground (
          arith,
          known,
          and-value i,
          and-unknown i h,
          get-bit_and i a b,
          o.value0 i h,
          o.value1 i h,
          o.fits0.bounded.apart i h,
          o.fits1.bounded.apart i h,
        )),
      )

  abbrev or_word : ℕ
  or_word = bit_or cur.bit_value (bit_or v0 v1)

  or-value : (i : ℕ) → get or_word i ≡ (get cur.bit_value i || (get v0 i || get v1 i))
  or-value i = get-bit_or i cur.bit_value (bit_or v0 v1) ∙ ground (arith, get-bit_or i v0 v1)

  or-unknown :
      (i : ℕ)
      → i < 64
      → get (bit_and (bit_or u0 u1) (complement or_word)) i
        ≡ ((get u0 i || get u1 i) && not (get or_word i))
  or-unknown i h =
      get-bit_and i (bit_or u0 u1) (complement or_word)
      ∙ ground (arith, get-bit_or i u0 u1, get-complement i or_word h)

  -- `forwardOr` on two operands of one width: if the information of the operands describes two
  -- values, and the ones that the result had before are ones of their disjunction, then the new
  -- information of the result describes the disjunction, within its borders.
  pub forward_or-Sound :
      ((i : ℕ) → i < 64 → get cur.bit_value i ≡ true → get (bit_or a b) i ≡ true)
      → Fits (forward_or cur op0 op1) × Describes (forward_or cur op0 op1) (bit_or a b)
  unfolding forward_or
  forward_or-Sound before =
      let inner : IsBounded (record cur {
        left = max op0.left op1.left;
        right = min op0.right op1.right;
        bit_value = or_word;
        unknown_bits = bit_and (bit_or u0 u1) (complement or_word);
        extend_point = max op0.extend_point op1.extend_point;
      }) =
        record {
          narrow = ground (arith, o.cur_width, o.width0, o.fits0.bounded.narrow);
          left_lt = ground (
            arith, o.cur_width, o.width0, o.width1, o.fits0.bounded.left_lt,
            o.fits1.bounded.left_lt,
          );
          high = λ i h above. ground (
            arith,
            or-value i,
            or-unknown i h,
            before i h,
            get-bit_or i a b,
            o.value0 i h,
            o.value1 i h,
            o.fits0.bounded.high i h,
            o.fits1.bounded.high i h,
          );
          apart = λ i h. ground (arith, or-unknown i h);
        } in
      (
        settle-Fits _ inner,
        settle-Describes _ inner (bit_or a b) (λ i h known. ground (
          arith,
          known,
          or-value i,
          or-unknown i h,
          get-bit_or i a b,
          before i h,
          o.value0 i h,
          o.value1 i h,
          o.fits0.bounded.apart i h,
          o.fits1.bounded.apart i h,
        )),
      )

  xor-unknown : (i : ℕ) → get (bit_or u0 u1) i ≡ (get u0 i || get u1 i)
  xor-unknown i = get-bit_or i u0 u1

  xor-value :
      (i : ℕ)
      → i < 64
      → get (bit_and (bit_xor v0 v1) (complement (bit_or u0 u1))) i
        ≡ (differs (get v0 i) (get v1 i) && not (get u0 i || get u1 i))
  xor-value i h =
      get-bit_and i (bit_xor v0 v1) (complement (bit_or u0 u1))
      ∙ ap₂ ◌&&◌ (get-bit_xor i v0 v1) (get-complement i (bit_or u0 u1) h ∙ ap not (xor-unknown i))

  -- `forwardXor` on two operands of one width: if the information of the operands describes two
  -- values, then that of the result describes their exclusive or, within its borders.
  pub forward_xor-Sound :
      Fits (forward_xor cur op0 op1) × Describes (forward_xor cur op0 op1) (bit_xor a b)
  unfolding forward_xor
  forward_xor-Sound = (
    record {
      bounded = record {
        narrow = ground (arith, o.cur_width, o.width0, o.fits0.bounded.narrow);
        left_lt = ground (
          arith, o.cur_width, o.width0, o.width1, o.fits0.bounded.left_lt, o.fits1.bounded.left_lt,
        );
        high = λ i h above. ground (
          arith,
          xor-value i h,
          xor-unknown i,
          o.fits0.bounded.high i h,
          o.fits1.bounded.high i h,
        );
        apart = λ i h. ground (arith, xor-value i h, xor-unknown i);
      };
      low = λ i h below.
          ground (arith, xor-value i h, xor-unknown i, o.fits0.low i h, o.fits1.low i h);
    },
    λ i h known.
        ground (
          arith,
          known,
          xor-value i h,
          xor-unknown i,
          get-bit_xor i a b,
          o.value0 i h,
          o.value1 i h,
        ),
  )
