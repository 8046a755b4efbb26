-- ===== src/Bitwidth/Describes.antt =====
-- What the bit information says of a value, and the invariant of the information.
use fpt2022_artifact.Common.{ℕ, ◌+◌, ◌≤◌, ◌<◌, ◌≡◌, ◌∙◌, ap, sym, inl, inr}
use fpt2022_artifact.Common.{false, ◌&&◌, ◌||◌, leb, arith}
use fpt2022_artifact.Common.{Bool-cases}
use fpt2022_artifact.Bitwidth.{get, Info, maybe_one, update_left}
use fpt2022_artifact.Bitwidth.{unset_range}
use fpt2022_artifact.Bitwidth.Ranges.{
  get-unset_range, find_left-le, find_left-beyond, find_right-beyond,
}
use fpt2022_artifact.Bitwidth.Forward.{settle}

-- The value has the known bits.
abbrev pub Describes : Info → ℕ → Type 0
Describes info v =
    (i : ℕ) → i < 64 → get info.unknown_bits i ≡ false → get v i ≡ get info.bit_value i

-- Nothing may be one above the left border, and no known one is unknown too.
pub record IsBounded (info : Info) : Type 0 where
  pub narrow : info.bitwidth ≤ 64
  pub left_lt : info.left < info.bitwidth
  pub high : (i : ℕ) → i < 64 → info.left < i → maybe_one info i ≡ false
  pub apart : (i : ℕ) → i < 64 → (get info.bit_value i && get info.unknown_bits i) ≡ false

-- Nothing may be one below the right border either.
pub record Fits (info : Info) : Type 0 where
  pub bounded : IsBounded info
  pub low : (i : ℕ) → i < 64 → i < info.right → maybe_one info i ≡ false

-- The end of a rule moves the borders, and no bit.
module _ (info : Info) (b : IsBounded info) where
  pub settled-outside : (i : ℕ) → i < 64 → (settle info).left < i → maybe_one info i ≡ false
  settled-outside i h above = elim (Bool-cases (leb i info.left)) [
    | inl inside ↦ find_left-beyond info info.left i above (ground (arith, inside))
    | inr outside ↦ b.high i h (ground (arith, outside))
  ]

  pub settled-below : (i : ℕ) → i < (settle info).right → maybe_one info i ≡ false
  settled-below i below =
      find_right-beyond (update_left info) ((update_left info).left + 1) 0 i (omega arith) below

  pub settle-unknown : (i : ℕ) → i < 64 → get (settle info).unknown_bits i ≡ get info.unknown_bits i
  settle-unknown i h = ground (
    arith,
    get-unset_range (unset_range info.unknown_bits ((settle info).left + 1) info.bitwidth) 0
        (settle info).right i h,
    get-unset_range info.unknown_bits ((settle info).left + 1) info.bitwidth i h,
    settled-outside i h,
    settled-below i,
  )

  settle-maybe : (i : ℕ) → i < 64 → maybe_one (settle info) i ≡ maybe_one info i
  settle-maybe i h = ap (λ u. get info.bit_value i || u) (settle-unknown i h)

  pub settle-Fits : Fits (settle info)
  settle-Fits = record {
    bounded = record {
      narrow = b.narrow;
      left_lt = omega (arith, find_left-le info info.left, b.left_lt);
      high = λ i h above. settle-maybe i h ∙ settled-outside i h above;
      apart = λ i h. ap (λ u. get info.bit_value i && u) (settle-unknown i h) ∙ b.apart i h;
    };
    low = λ i h below. settle-maybe i h ∙ settled-below i below;
  }

  pub settle-Describes : (v : ℕ) → Describes info v → Describes (settle info) v
  settle-Describes v d i h known = d i h (sym (settle-unknown i h) ∙ known)
