-- ===== src/Bitwidth/Joins.antt =====
-- The rules that join the information of several values: `forwardSelect`, `setMax` and `forwardPHI`
-- of elastic-circuits/OptimizeBitwidth/OptimizeBitwidth.cpp.
use fpt2022_artifact.Common.{ℕ, ◌<◌, ◌≡◌, ◌⊎◌, ◌∙◌, ap, ap₂, arith, inl, inr, suc, ◌+◌}
use fpt2022_artifact.Common.{false, not, ◌&&◌, ◌||◌, ltb, leb, List, [], ◌∷◌}
use Prim.Native.Nat.{bit_and, bit_or, bit_xor, min, max}
use fpt2022_artifact.Bitwidth.{get, Info, maybe_one, complement, unset_range, copy_info}
use fpt2022_artifact.Bitwidth.Words.{get-bit_and, get-bit_or, get-bit_xor, get-complement, differs}
use fpt2022_artifact.Bitwidth.Ranges.{get-unset_range}
use fpt2022_artifact.Bitwidth.Forward.{
  differing, forward_select, trim, set_max, join_all, forward_phi,
}
use fpt2022_artifact.Bitwidth.Describes.{Describes, IsBounded, Fits, settle-Fits, settle-Describes}

get-differing :
    (x y : Info) (i : ℕ)
    → get (differing x y) i ≡ (
        (get x.unknown_bits i || get y.unknown_bits i)
        || differs (get x.bit_value i) (get y.bit_value i))
get-differing x y i =
    get-bit_or i (bit_or x.unknown_bits y.unknown_bits) (bit_xor x.bit_value y.bit_value)
    ∙ ap₂ ◌||◌ (get-bit_or i x.unknown_bits y.unknown_bits) (get-bit_xor i x.bit_value y.bit_value)

module _ (w : ℕ) (cur x y : Info) (cur_width : cur.bitwidth ≡ w) (width_x : x.bitwidth ≡ w)
    (width_y : y.bitwidth ≡ w) (fx : Fits x) (fy : Fits y) where
  select-value :
      (i : ℕ)
      → i < 64
      → get (bit_and x.bit_value (complement (differing x y))) i
        ≡ (get x.bit_value i && not (get (differing x y) i))
  select-value i h =
      get-bit_and i x.bit_value (complement (differing x y))
      ∙ ap (λ b. get x.bit_value i && b) (get-complement i (differing x y) h)

  -- `forwardSelect` on two operands of one width: the information of the result describes every
  -- value that one of the operands may have, whatever the condition is, within its borders.
  pub forward_select-Sound :
      Fits (forward_select cur x y)
      × ((v : ℕ) → Describes x v ⊎ Describes y v → Describes (forward_select cur x y) v)
  unfolding forward_select
  forward_select-Sound =
      let inner : IsBounded (record cur {
        left = max x.left y.left;
        right = min x.right y.right;
        extend_point = max x.extend_point y.extend_point;
        unknown_bits = differing x y;
        bit_value = bit_and x.bit_value (complement (differing x y));
      }) =
        record {
          narrow = ground (arith, cur_width, width_x, fx.bounded.narrow);
          left_lt =
              ground (arith, cur_width, width_x, width_y, fx.bounded.left_lt, fy.bounded.left_lt);
          high = λ i h above. ground (
            arith,
            select-value i h,
            get-differing x y i,
            fx.bounded.high i h,
            fy.bounded.high i h,
          );
          apart = λ i h. ground (arith, select-value i h);
        } in
      (
        settle-Fits _ inner,
        λ v either. settle-Describes _ inner v (λ i h known. elim either [
          | inl d ↦ ground (arith, known, select-value i h, get-differing x y i, d i h)
          | inr d ↦ ground (arith, known, select-value i h, get-differing x y i, d i h)
        ]),
      )

-- Clearing what lies outside of the borders.
get-trim_unknown :
    (info : Info) (i : ℕ)
    → i < 64
    → get (trim info).unknown_bits i ≡ (
        (get info.unknown_bits i && not (leb (suc info.left) i && ltb i info.bitwidth))
        && not (ltb i info.right))
get-trim_unknown info i h = ground (
  arith,
  get-unset_range (unset_range info.unknown_bits (info.left + 1) info.bitwidth) 0 info.right i h,
  get-unset_range info.unknown_bits (info.left + 1) info.bitwidth i h,
)

get-trim_value :
    (info : Info) (i : ℕ)
    → i < 64
    → get (trim info).bit_value i ≡ (
        (get info.bit_value i && not (leb (suc info.left) i && ltb i info.bitwidth))
        && not (ltb i info.right))
get-trim_value info i h = ground (
  arith,
  get-unset_range (unset_range info.bit_value (info.left + 1) info.bitwidth) 0 info.right i h,
  get-unset_range info.bit_value (info.left + 1) info.bitwidth i h,
)

-- The join of two informations before it is trimmed, which already has nothing outside.
module _ (x y : Info) (fx : Fits x) (fy : Fits y) where
  abbrev both : Info
  both = record {
    bitwidth = max x.bitwidth y.bitwidth;
    left = max x.left y.left;
    right = min x.right y.right;
    extend_point = max x.extend_point y.extend_point;
    unknown_bits = differing x y;
    bit_value = bit_and x.bit_value y.bit_value;
  }

  both-value : (i : ℕ) → get both.bit_value i ≡ (get x.bit_value i && get y.bit_value i)
  both-value i = get-bit_and i x.bit_value y.bit_value

  both-outside :
      (i : ℕ)
      → i < 64
      → ((max x.left y.left < i) ⊎ (i < min x.right y.right))
      → maybe_one both i ≡ false
  both-outside i h out = ground (
    arith,
    out,
    both-value i,
    get-differing x y i,
    fx.bounded.high i h,
    fy.bounded.high i h,
    fx.low i h,
    fy.low i h,
  )

  trimmed-unknown : (i : ℕ) → i < 64 → get (trim both).unknown_bits i ≡ get both.unknown_bits i
  trimmed-unknown i h = ground (arith, get-trim_unknown both i h, both-outside i h)

  trimmed-value : (i : ℕ) → i < 64 → get (trim both).bit_value i ≡ get both.bit_value i
  trimmed-value i h = ground (arith, get-trim_value both i h, both-outside i h)

  -- `setMax` of two informations describes every value that one of them describes, within its
  -- borders, which are those of both.
  pub set_max-Sound :
      Fits (set_max x y) × ((v : ℕ) → Describes x v ⊎ Describes y v → Describes (set_max x y) v)
  unfolding set_max
  set_max-Sound = (
    record {
      bounded = record {
        narrow = ground (arith, fx.bounded.narrow, fy.bounded.narrow);
        left_lt = ground (arith, fx.bounded.left_lt, fy.bounded.left_lt);
        high = λ i h above.
            ground (arith, trimmed-unknown i h, trimmed-value i h, both-outside i h (inl above));
        apart = λ i h. ground (
          arith,
          trimmed-unknown i h,
          trimmed-value i h,
          both-value i,
          get-differing x y i,
          fx.bounded.apart i h,
          fy.bounded.apart i h,
        );
      };
      low = λ i h below.
          ground (arith, trimmed-unknown i h, trimmed-value i h, both-outside i h (inr below));
    },
    λ v either i h known. elim either [
      | inl d ↦ ground (
        arith,
        known,
        trimmed-unknown i h,
        trimmed-value i h,
        both-value i,
        get-differing x y i,
        d i h,
      )
      | inr d ↦ ground (
        arith,
        known,
        trimmed-unknown i h,
        trimmed-value i h,
        both-value i,
        get-differing x y i,
        d i h,
      )
    ],
  )

-- The information of all incoming values is within its borders; one of it describes a value.
abbrev pub AllFit : List Info → Type 0
AllFit [] = Unit
AllFit (x ∷ xs) = Fits x × AllFit xs

abbrev pub SomeDescribes : List Info → ℕ → Type 0
SomeDescribes [] v = ⊥
SomeDescribes (x ∷ xs) v = Describes x v ⊎ SomeDescribes xs v

join_all-Sound :
    (x : Info) (rest : List Info)
    → Fits x
    → AllFit rest
    → Fits (join_all x rest)
      × ((v : ℕ) → Describes x v ⊎ SomeDescribes rest v → Describes (join_all x rest) v)
unfolding join_all
join_all-Sound x [] f fs = (f, λ v some_one. elim some_one [ inl d ↦ d | inr d ↦ absurd d ])
join_all-Sound x (y ∷ rest) f fs =
    let (fits, joins) = set_max-Sound x y f fs.0 in
    let (all_fit, all) = join_all-Sound (set_max x y) rest fits fs.1 in
    (
      all_fit,
      λ v some_one. elim some_one [
        | inl d ↦ all v (inl (joins v (inl d)))
        | inr (inl d) ↦ all v (inl (joins v (inr d)))
        | inr (inr d) ↦ all v (inr d)
      ],
    )

-- `forwardPHI` on a node that is not the variable of a loop, with incoming values of its width: the
-- information of the result describes every value that one of the incoming ones may have, within
-- its borders.
pub forward_phi-Sound :
    (cur first : Info) (rest : List Info)
    → cur.bitwidth ≡ first.bitwidth
    → Fits first
    → AllFit rest
    → Fits (forward_phi cur (first ∷ rest))
      × ((v : ℕ) → SomeDescribes (first ∷ rest) v → Describes (forward_phi cur (first ∷ rest)) v)
unfolding forward_phi
forward_phi-Sound cur first rest same f fs =
    join_all-Sound (copy_info cur first) rest
      (record {
        bounded = record {
          narrow = rw same f.bounded.narrow;
          left_lt = rw same f.bounded.left_lt;
          high = f.bounded.high;
          apart = f.bounded.apart;
        };
        low = f.low;
      })
      fs
