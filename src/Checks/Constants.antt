-- ===== src/Checks/Constants.antt =====
-- The sign extension of constants in `checkConstant`.
use fpt2022_artifact.Common.{ℕ, zero, suc, ◌+◌, ◌-◌, ◌*◌, ◌/◌, ◌%◌, ◌^◌, ◌≤◌, ◌<◌, ◌≡◌}
use fpt2022_artifact.Common.{refl, sym, ap, subst, ◌∙◌, inl, inr, arith, Bool-cases, ◌&&◌}
use fpt2022_artifact.Common.{Bool, true, some}
use fpt2022_artifact.Common.{if◌then◌else◌, ◌==◌, ltb, leb, leb→le, ltb→lt}
use fpt2022_artifact.Common.Int.{pos}
use native.Mathlib.Nat.{pow-suc, pow-le-pow_right, div-eq_of_lt, div-eq_of_lt-le}
use native.Mathlib.Nat.{add-mul-div_left, one-le-pow, mul_assoc}
use fpt2022_artifact.Checks.{sign_bits, extend_sign}

pow-add : (a b : ℕ) → 2 ^ (a + b) ≡ 2 ^ a * 2 ^ b
pow-add a zero = let e : a + 0 ≡ a = omega arith in ap (λ n. 2 ^ n) e ∙ omega arith
pow-add a (suc b) =
    let e : a + suc b ≡ suc (a + b) = omega arith in
    ap (λ n. 2 ^ n) e
    ∙ pow-suc 2 (a + b)
    ∙ ap (λ n. n * 2) (pow-add a b)
    ∙ mul_assoc (2 ^ a) (2 ^ b) 2
    ∙ ap (λ n. 2 ^ a * n) (sym (pow-suc 2 b))

le→leb : (a b : ℕ) → a ≤ b → leb a b ≡ true
le→leb a b h = ground arith

pow-positive : (u : ℕ) → 0 < 2 ^ u
pow-positive u = one-le-pow u 2 (omega arith)

-- The pattern of 64 bits of the integer that `v` denotes in `w` bits, in two's complement.
abbrev pub signed_pattern : ℕ → ℕ → ℕ
signed_pattern w v = if leb (2 ^ (w - 1)) v then v + (2 ^ 64 - 2 ^ w) else v

top_bit : (k v z : ℕ) → 0 < k → v < k * 2 → (((v + k * (2 * z)) / k) % 2 == 1) ≡ leb k v
top_bit k v z k_pos small =
    let split = add-mul-div_left v (2 * z) k_pos in
    elim (Bool-cases (leb k v)) [
      | inl high ↦
          let one : v / k ≡ 1 =
            div-eq_of_lt-le k (let le = leb→le k v high in omega (arith, le))
              (omega (arith, small)) in
          ground (arith, split, one, high)
      | inr low ↦
          let none_yet : v / k ≡ 0 = div-eq_of_lt (ground (arith, low)) in
          ground (arith, split, none_yet, low)
    ]

-- The tested bit of a pattern is the top bit of its lower `w` bits.
sign_bits_lem :
    (u v z : ℕ)
    → u < 31
    → v < 2 ^ suc u
    → sign_bits (suc u) (v + 2 ^ suc u * z) ≡ some (leb (2 ^ u) v)
unfolding sign_bits
sign_bits_lem u v z lt small =
    let k = 2 ^ u in
    let e = pow-suc 2 u in
    let width : (ltb 0 (suc u) && ltb (suc u) 32) ≡ true = ground arith in
    let pred : suc u - 1 ≡ u = omega arith in
    let same : v + 2 ^ suc u * z ≡ v + k * (2 * z) =
      ap (λ n. v + n * z) e ∙ ap (λ n. v + n) (mul_assoc k 2 z) in
    rw (width, sign_bits)
      (ap (λ n. some ((v + 2 ^ suc u * z) / 2 ^ n % 2 == 1)) pred
        ∙ ap (λ n. some (n / k % 2 == 1)) same
        ∙ ap some (top_bit k v z (pow-positive u) (rw e at small)))

sign_bits_full : (v : ℕ) → v < 2 ^ 32 → sign_bits 32 v ≡ some (leb (2 ^ 31) v)
unfolding sign_bits
sign_bits_full v small = ground arith

sign_bits_small : (u v : ℕ) → u < 32 → v < 2 ^ suc u → sign_bits (suc u) v ≡ some (leb (2 ^ u) v)
sign_bits_small u v lt small = elim (Bool-cases (ltb u 31)) [
  | inl narrow ↦
      let e : v + 2 ^ suc u * 0 ≡ v = omega arith in
      ap (sign_bits (suc u)) (sym e) ∙ sign_bits_lem u v 0 (ltb→lt u 31 narrow) small
  | inr full ↦
      let e : u ≡ 31 = ground (arith, full) in
      subst (λ n. v < 2 ^ suc n → sign_bits (suc n) v ≡ some (leb (2 ^ n) v)) (sym e)
        (sign_bits_full v) small
]

width_fits : (u : ℕ) → u < 32 → 2 ^ suc u ≤ 2 ^ 32
width_fits u lt = pow-le-pow_right (omega arith) lt

-- The extension, once the test is known.
extend_sign_by :
    (u x : ℕ) (on : Bool)
    → sign_bits (suc u) x ≡ some on
    → extend_sign (pos (suc u)) x ≡ some (if on then (x + (2 ^ 64 - 2 ^ suc u)) % 2 ^ 64 else x)
unfolding extend_sign
extend_sign_by u x on e = rw (e, extend_sign) refl

wrap_low : (p v : ℕ) → v < p → p ≤ 2 ^ 32 → (v + (2 ^ 64 - p)) % 2 ^ 64 ≡ v + (2 ^ 64 - p)
wrap_low p v small fits = omega arith

wrap_high :
    (p v : ℕ)
    → v < p
    → p ≤ 2 ^ 32
    → (v + (2 ^ 64 - p) + (2 ^ 64 - p)) % 2 ^ 64 ≡ v + (2 ^ 64 - p) - p
wrap_high p v small fits = omega arith

-- The upper bits of a negative pattern are a multiple of 2^w.
upper_bits : (u : ℕ) → u < 32 → (z : ℕ) × (2 ^ 64 - 2 ^ suc u ≡ 2 ^ suc u * z)
upper_bits u lt =
    let e : suc u + (63 - u) ≡ 64 = omega arith in
    let whole = ap (λ n. 2 ^ n) (sym e) ∙ pow-add (suc u) (63 - u) in
    (2 ^ (63 - u) - 1, upper_of (2 ^ suc u) (2 ^ (63 - u)) (2 ^ 64) whole)
  where
    upper_of : (p m whole : ℕ) → whole ≡ p * m → whole - p ≡ p * (m - 1)
    upper_of p zero whole e = omega (arith, e)
    upper_of p (suc m) whole e = let d : suc m - 1 ≡ m = omega arith in rw d (omega (arith, e))

signed_pattern-suc :
    (u v : ℕ) → signed_pattern (suc u) v ≡ (if leb (2 ^ u) v then v + (2 ^ 64 - 2 ^ suc u) else v)
signed_pattern-suc u v =
    let pred : suc u - 1 ≡ u = omega arith in
    ap (λ n. if leb (2 ^ n) v then v + (2 ^ 64 - 2 ^ suc u) else v) pred

extend_sign_once :
    (u v : ℕ)
    → u < 32
    → v < 2 ^ suc u
    → extend_sign (pos (suc u)) v ≡ some (signed_pattern (suc u) v)
extend_sign_once u v lt small =
    extend_sign_by u v (leb (2 ^ u) v) (sign_bits_small u v lt small)
    ∙ ap (λ n. some (if leb (2 ^ u) v then n else v))
        (wrap_low (2 ^ suc u) v small (width_fits u lt))
    ∙ ap some (sym (signed_pattern-suc u v))

extend_sign_twice :
    (u v : ℕ)
    → u < 31
    → v < 2 ^ suc u
    → leb (2 ^ u) v ≡ true
    → extend_sign (pos (suc u)) (v + (2 ^ 64 - 2 ^ suc u))
      ≡ some (v + (2 ^ 64 - 2 ^ suc u) - 2 ^ suc u)
extend_sign_twice u v lt small high =
    let (z, e) = upper_bits u (omega arith) in
    let bits = ap (λ n. sign_bits (suc u) (v + n)) e ∙ sign_bits_lem u v z lt small in
    extend_sign_by u (v + (2 ^ 64 - 2 ^ suc u)) true (bits ∙ ap some high)
    ∙ ap some (wrap_high (2 ^ suc u) v small (width_fits u (omega arith)))

-- For a port width `w` from 1 to 32, `checkConstant` replaces a value of `w` bits by the 64-bit
-- pattern of the integer that the value denotes in two's complement.
pub extend_sign-signed_pattern :
    (w v : ℕ) → 0 < w → w ≤ 32 → v < 2 ^ w → extend_sign (pos w) v ≡ some (signed_pattern w v)
extend_sign-signed_pattern zero v lo hi small = absurd (omega arith)
extend_sign-signed_pattern (suc u) v lo hi small = extend_sign_once u v (omega arith) small

-- The extension is not idempotent: for a port width `w` below 32, when `checkConstant` meets the
-- pattern that it made of a negative integer, it subtracts 2^w from that integer.
pub extend_sign-signed_pattern_again :
    (w v : ℕ)
    → 0 < w
    → w < 32
    → v < 2 ^ w
    → 2 ^ (w - 1) ≤ v
    → extend_sign (pos w) (signed_pattern w v) ≡ some (signed_pattern w v - 2 ^ w)
extend_sign-signed_pattern_again zero v lo hi small high = absurd (omega arith)
extend_sign-signed_pattern_again (suc u) v lo hi small high =
    let pred : suc u - 1 ≡ u = omega arith in
    let top : leb (2 ^ u) v ≡ true = le→leb (2 ^ u) v (subst (λ n. 2 ^ n ≤ v) pred high) in
    let e : signed_pattern (suc u) v ≡ v + (2 ^ 64 - 2 ^ suc u) =
      signed_pattern-suc u v ∙ rw top refl in
    ap (extend_sign (pos (suc u))) e
    ∙ extend_sign_twice u v (omega arith) small top
    ∙ ap (λ n. some (n - 2 ^ suc u)) (sym e)
