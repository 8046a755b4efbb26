-- ===== src/StringUtils/Constants.antt =====
-- The digits that `string_constant` prints (dot2vhdl/src/string_utils.cpp).
use fpt2022_artifact.Common.{
  ℕ, zero, suc, ◌+◌, ◌-◌, ◌*◌, ◌/◌, ◌%◌, ◌^◌, ◌≡◌, ◌⊎◌, refl, sym, ap, ◌∙◌, arith,
}
use fpt2022_artifact.Common.{[], ◌∷◌, ◌++◌, length, length-append}
use fpt2022_artifact.Common.{Bool-cases, inl, inr, leb, ltb, ◌&&◌, ◌<◌, ◌≤◌, subst}
use fpt2022_artifact.Common.Text.{Str}
use native.Mathlib.Nat.{pow-succ'}
use fpt2022_artifact.Common.Halves.{half-mod, even-mod}
use fpt2022_artifact.StringUtils.{bitset, constant_width, string_constant}

-- The number that binary digits denote, after the digits read before.
abbrev read_from : ℕ → Str → ℕ
read_from n [] = n
read_from n (d ∷ s) = read_from (n * 2 + (d - b'0')) s

abbrev pub read_binary : Str → ℕ
read_binary = read_from 0

read_from-append :
    (n : ℕ) (s : Str) (d : ℕ) → read_from n (s ++ d ∷ []) ≡ read_from n s * 2 + (d - b'0')
read_from-append n [] d = refl
read_from-append n (x ∷ s) d = read_from-append (n * 2 + (x - b'0')) s d

length-bitset : (w v : ℕ) → length (bitset w v) ≡ w
unfolding bitset
length-bitset zero v = refl
length-bitset (suc w) v =
    length-append (bitset w (v / 2)) _ ∙ omega (arith, length-bitset w (v / 2))

read_binary-bitset : (w v : ℕ) → read_binary (bitset w v) ≡ v % 2 ^ w
unfolding bitset
read_binary-bitset zero v = omega arith
read_binary-bitset (suc w) v =
    read_from-append 0 (bitset w (v / 2)) (b'0' + v % 2)
    ∙ (ap (λ n. n * 2 + (b'0' + v % 2 - b'0')) (read_binary-bitset w (v / 2))
        ∙ (omega (arith, half-mod v (2 ^ w), even-mod v (2 ^ w))
            ∙ ap (λ m. v % m) (sym (pow-succ' 2 w))))

-- A text of the digits 0 and 1.
abbrev pub IsBinary : Str → Type 0
IsBinary [] = Unit
IsBinary (d ∷ s) = ((d ≡ b'0') ⊎ (d ≡ b'1')) × IsBinary s

IsBinary-append : (s : Str) (d : ℕ) → IsBinary s → (d ≡ b'0') ⊎ (d ≡ b'1') → IsBinary (s ++ d ∷ [])
IsBinary-append [] d a b = (b, tt)
IsBinary-append (x ∷ s) d a b = (a.0, IsBinary-append s d a.1 b)

bitset-IsBinary : (w v : ℕ) → IsBinary (bitset w v)
unfolding bitset
bitset-IsBinary zero v = tt
bitset-IsBinary (suc w) v =
    IsBinary-append (bitset w (v / 2)) (b'0' + v % 2) (bitset-IsBinary w (v / 2)) (grind arith)

-- How many digits are asked for a value and a size: the size itself up to 16; else 64 for a size
-- above 32 and a value that needs more than 32 bits; else 32, also for the size 0 and the sizes 17 to
-- 31.
pub data Prints (value size : ℕ) : ℕ → Type 0 where
  as_asked : 1 ≤ size → size ≤ 16 → Prints value size size
  double_word : 32 < size → 2 ^ 32 ≤ value → Prints value size 64
  word : (size ≡ 0) ⊎ (16 < size) → (size ≤ 32) ⊎ (value < 2 ^ 32) → Prints value size 32

constant_width-Prints : (value size : ℕ) → Prints value size (constant_width value size)
constant_width-Prints value size = elim (Bool-cases (leb 1 size && leb size 16)) [
  | inl small ↦ rw small (as_asked (ground (arith, small)) (ground (arith, small)))
  | inr other ↦ elim (Bool-cases (ltb 4294967295 value && ltb 32 size)) [
    | inl large ↦ rw (other, large) (double_word (ground (arith, large)) (ground (arith, large)))
    | inr usual ↦ rw (other, usual) (word (grind (arith, other)) (grind (arith, usual)))
  ]
]

-- `string_constant` prints binary digits that denote the value modulo the power of two of their
-- number. There are as many as the size for the sizes 1 to 16; for a size above 32 and a value from
-- 2^32 on there are 64, and in every other case 32, whatever the size.
pub string_constant-Prints :
    (value size : ℕ)
    → IsBinary (string_constant value size)
      × Prints value size (length (string_constant value size))
      × (read_binary (string_constant value size) ≡ value % 2 ^ length (string_constant value size))
unfolding string_constant
string_constant-Prints value size =
    let w = constant_width value size in
    let long = length-bitset w value in
    (
      bitset-IsBinary w value,
      subst (Prints value size) (sym long) (constant_width-Prints value size),
      read_binary-bitset w value ∙ ap (λ n. value % 2 ^ n) (sym long),
    )
