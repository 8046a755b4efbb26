-- ===== src/Bitwidth/Words.antt =====
-- The bits of the words that the operations of
-- elastic-circuits/include/OptimizeBitwidth/operations.h make.
use fpt2022_artifact.Common.{
  ℕ, zero, suc, ◌+◌, ◌-◌, ◌*◌, ◌/◌, ◌%◌, ◌^◌, ◌≤◌, ◌<◌, ◌≡◌, refl, ◌∙◌, ap, ap₂, sym,
}
use fpt2022_artifact.Common.{Bool, false, not, ◌&&◌, ◌||◌, ◌==◌, ltb, if◌then◌else◌, arith}
use Prim.Native.Nat.{bit_and, bit_or, bit_xor, digits, differ, min, max}
use Prim.Native.Nat.{bit_and-bitwise, bit_or-bitwise, bit_xor-bitwise}
use fpt2022_artifact.Bitwidth.{get, set, unset, complement}
use native.Mathlib.Nat.{div-div-eq-div-mul, pow-succ'}

-- An operation that goes over the digits of two words: `rest` is what it leaves of the second word
-- when the first one has no digits left, and `digit` is its value on two digits.
module _ (rest : ℕ → ℕ) (digit : ℕ → ℕ → ℕ) where
  spare_round :
      (rounds x y : ℕ)
      → x ≤ rounds
      → digits rest digit (suc rounds) x y ≡ digits rest digit rounds x y
  spare_round zero zero y le = refl
  spare_round zero (suc x) y le = absurd (omega arith)
  spare_round (suc rounds) zero y le = refl
  spare_round (suc rounds) (suc x) y le =
      ap (λ high. high * 2 + digit (suc x % 2) (y % 2))
        (spare_round rounds (suc x / 2) (y / 2) (omega arith))

  spare_rounds :
      (spare x y rounds : ℕ)
      → rounds ≡ spare + x
      → digits rest digit rounds x y ≡ digits rest digit x x y
  spare_rounds zero x y rounds e = ap (λ n. digits rest digit n x y) (omega arith)
  spare_rounds (suc spare) x y zero e = absurd (omega arith)
  spare_rounds (suc spare) x y (suc rounds) e =
      spare_round rounds x y (omega arith) ∙ spare_rounds spare x y rounds (omega arith)

  -- Such an operation is its value on the lowest digits below its value on the halves.
  by_halves :
      (op : ℕ → ℕ → ℕ)
      → ((x y : ℕ) → op x y ≡ digits rest digit x x y)
      → ((y : ℕ) → rest y ≡ rest (y / 2) * 2 + digit 0 (y % 2))
      → (x y : ℕ) → op x y ≡ op (x / 2) (y / 2) * 2 + digit (x % 2) (y % 2)
  by_halves op def at_end zero y =
      def 0 y ∙ (at_end y ∙ ap (λ high. high * 2 + digit 0 (y % 2)) (sym (def 0 (y / 2))))
  by_halves op def at_end (suc x) y =
      def (suc x) y
      ∙ ap (λ high. high * 2 + digit (suc x % 2) (y % 2))
          (spare_rounds (x - suc x / 2) (suc x / 2) (y / 2) x (omega arith)
            ∙ sym (def (suc x / 2) (y / 2)))

and-by_halves : (x y : ℕ) → bit_and x y ≡ bit_and (x / 2) (y / 2) * 2 + min (x % 2) (y % 2)
and-by_halves = by_halves (λ y. 0) min bit_and bit_and-bitwise (λ y. omega arith)

or-by_halves : (x y : ℕ) → bit_or x y ≡ bit_or (x / 2) (y / 2) * 2 + max (x % 2) (y % 2)
or-by_halves = by_halves (λ y. y) max bit_or bit_or-bitwise (λ y. omega arith)

xor-by_halves : (x y : ℕ) → bit_xor x y ≡ bit_xor (x / 2) (y / 2) * 2 + differ (x % 2) (y % 2)
xor-by_halves = by_halves (λ y. y) differ bit_xor bit_xor-bitwise low_digit
  where
    low_digit : (y : ℕ) → y ≡ y / 2 * 2 + y % 2
    low_digit y = omega arith

-- Exclusive or of two bits.
abbrev pub differs : Bool → Bool → Bool
differs a b = if a then not b else b

-- The bits of a number, from the lowest one on.
pub get-zero : (n : ℕ) → get n 0 ≡ (n % 2 == 1)
unfolding get
get-zero n = ap (λ m. m % 2 == 1) (omega arith)

pub get-suc : (n i : ℕ) → get n (suc i) ≡ get (n / 2) i
unfolding get
get-suc n i =
    ap (λ m. m % 2 == 1) (ap (λ p. n / p) (pow-succ' 2 i) ∙ sym (div-div-eq-div-mul n 2 (2 ^ i)))

-- An operation on numbers acts on the digits, and so on the bits.
module _ (op : ℕ → ℕ → ℕ) (f : ℕ → ℕ → ℕ) (g : Bool → Bool → Bool)
    (step : (a b : ℕ) → op a b ≡ op (a / 2) (b / 2) * 2 + f (a % 2) (b % 2))
    (small : (x y : ℕ) → x < 2 → y < 2 → f x y < 2)
    (bits : (x y : ℕ) → x < 2 → y < 2 → (f x y == 1) ≡ g (x == 1) (y == 1)) where
  op-half : (a b : ℕ) → op a b / 2 ≡ op (a / 2) (b / 2)
  op-half a b = omega (arith, step a b, small (a % 2) (b % 2) (omega arith) (omega arith))

  op-digit : (a b : ℕ) → op a b % 2 ≡ f (a % 2) (b % 2)
  op-digit a b = omega (arith, step a b, small (a % 2) (b % 2) (omega arith) (omega arith))

  get-op : (i a b : ℕ) → get (op a b) i ≡ g (get a i) (get b i)
  get-op zero a b =
      get-zero (op a b)
      ∙ (ap (λ m. m == 1) (op-digit a b)
          ∙ (bits (a % 2) (b % 2) (omega arith) (omega arith)
              ∙ sym (ap₂ g (get-zero a) (get-zero b))))
  get-op (suc i) a b =
      get-suc (op a b) i
      ∙ (ap (λ m. get m i) (op-half a b)
          ∙ (get-op i (a / 2) (b / 2) ∙ sym (ap₂ g (get-suc a i) (get-suc b i))))

abbrev Digits : (ℕ → ℕ → ℕ) → (Bool → Bool → Bool) → Type 0
Digits f g = (x y : ℕ) → x < 2 → y < 2 → (f x y < 2) × ((f x y == 1) ≡ g (x == 1) (y == 1))

and-Digits : Digits min ◌&&◌
and-Digits zero zero p q = (omega arith, refl)
and-Digits zero (suc zero) p q = (omega arith, refl)
and-Digits zero (suc (suc y)) p q = absurd (omega arith)
and-Digits (suc zero) zero p q = (omega arith, refl)
and-Digits (suc zero) (suc zero) p q = (omega arith, refl)
and-Digits (suc (suc x)) y p q = absurd (omega arith)
and-Digits (suc zero) (suc (suc y)) p q = absurd (omega arith)

or-Digits : Digits max ◌||◌
or-Digits zero zero p q = (omega arith, refl)
or-Digits zero (suc zero) p q = (omega arith, refl)
or-Digits zero (suc (suc y)) p q = absurd (omega arith)
or-Digits (suc zero) zero p q = (omega arith, refl)
or-Digits (suc zero) (suc zero) p q = (omega arith, refl)
or-Digits (suc zero) (suc (suc y)) p q = absurd (omega arith)
or-Digits (suc (suc x)) y p q = absurd (omega arith)

xor-Digits : Digits differ differs
xor-Digits zero zero p q = (omega arith, refl)
xor-Digits zero (suc zero) p q = (omega arith, refl)
xor-Digits zero (suc (suc y)) p q = absurd (omega arith)
xor-Digits (suc zero) zero p q = (omega arith, refl)
xor-Digits (suc zero) (suc zero) p q = (omega arith, refl)
xor-Digits (suc zero) (suc (suc y)) p q = absurd (omega arith)
xor-Digits (suc (suc x)) y p q = absurd (omega arith)

pub get-bit_and : (i a b : ℕ) → get (bit_and a b) i ≡ (get a i && get b i)
get-bit_and =
    get-op bit_and min ◌&&◌ and-by_halves (λ x y p q. (and-Digits x y p q).0)
      (λ x y p q. (and-Digits x y p q).1)

pub get-bit_or : (i a b : ℕ) → get (bit_or a b) i ≡ (get a i || get b i)
get-bit_or =
    get-op bit_or max ◌||◌ or-by_halves (λ x y p q. (or-Digits x y p q).0)
      (λ x y p q. (or-Digits x y p q).1)

pub get-bit_xor : (i a b : ℕ) → get (bit_xor a b) i ≡ differs (get a i) (get b i)
get-bit_xor =
    get-op bit_xor differ differs xor-by_halves (λ x y p q. (xor-Digits x y p q).0)
      (λ x y p q. (xor-Digits x y p q).1)

-- A power of two has one bit.
get-pow : (k i : ℕ) → get (2 ^ k) i ≡ (k == i)
get-pow zero zero = get-zero 1
get-pow zero (suc i) = get-suc 1 i ∙ (get-none i ∙ ground arith)
  where
    get-none : (i : ℕ) → get 0 i ≡ false
    get-none zero = get-zero 0
    get-none (suc i) = get-suc 0 i ∙ get-none i
get-pow (suc k) zero = get-zero (2 ^ suc k) ∙ ground (arith, pow-succ' 2 k)
get-pow (suc k) (suc i) =
    get-suc (2 ^ suc k) i
    ∙ (ap (λ m. get m i) (omega (arith, pow-succ' 2 k)) ∙ (get-pow k i ∙ ground arith))

-- The number 2^k - 1 has the bits below k.
get-ones : (k i : ℕ) → get (2 ^ k - 1) i ≡ ltb i k
get-ones zero zero = get-zero 0
get-ones zero (suc i) = get-suc 0 i ∙ (get-ones zero i ∙ ground arith)
get-ones (suc k) zero = get-zero (2 ^ suc k - 1) ∙ ground (arith, pow-succ' 2 k, pow-pos k)
  where
    pow-pos : (k : ℕ) → 0 < 2 ^ k
    pow-pos zero = omega arith
    pow-pos (suc k) = omega (arith, pow-succ' 2 k, pow-pos k)
get-ones (suc k) (suc i) =
    get-suc (2 ^ suc k - 1) i
    ∙ (ap (λ m. get m i) (omega (arith, pow-succ' 2 k)) ∙ (get-ones k i ∙ ground arith))

pub get-complement : (i a : ℕ) → i < 64 → get (complement a) i ≡ not (get a i)
unfolding complement
get-complement i a h = get-bit_xor i a (2 ^ 64 - 1) ∙ ground (arith, get-ones 64 i)

pub get-set : (j num i : ℕ) → get (set num i) j ≡ (get num j || (i == j))
unfolding set
get-set j num i = get-bit_or j num (2 ^ i) ∙ ap (λ b. get num j || b) (get-pow i j)

pub get-unset : (j num i : ℕ) → j < 64 → get (unset num i) j ≡ (get num j && not (i == j))
unfolding unset
get-unset j num i h =
    get-bit_and j num (complement (2 ^ i))
    ∙ ap (λ b. get num j && b) (get-complement j (2 ^ i) h ∙ ap not (get-pow i j))
