-- ===== src/Common/Text.antt =====
-- `std::string` as the list of its character codes, `std::to_string`, and `std::map` from texts.
use Prim.Native.Nat.{ℕ, zero, suc, ◌+◌, ◌-◌, ◌*◌, ◌/◌, ◌%◌, ◌<◌}
use Prim.Native.Char.{code}
use Prim.Native.String.{String}
use mathlib.Core.Path.{◌≡◌, refl, ap, sym, ◌∙◌}
use mathlib.Core.Logic.{◌↔◌, inl, inr}
use mathlib.Core.Bool.{Bool, true, false}
use mathlib.Core.Option.{Option, none, some}
use mathlib.Core.List.{List, [], ◌∷◌, ◌++◌}
use native.Mathlib.Omega.{arith}
use fpt2022_artifact.Common.Tests.{◌==◌, ltb, if◌then◌else◌, Bool-cases}

abbrev pub Str : Type 0
Str = List ℕ

abbrev pub codes : String → Str
codes String.[] = []
codes (String.◌∷◌ c s) = code c ∷ codes s

unfoldable pub str_eq : Str → Str → Bool
str_eq [] [] = true
str_eq [] (b ∷ t) = false
str_eq (a ∷ s) [] = false
str_eq (a ∷ s) (b ∷ t) = if a == b then str_eq s t else false

abbrev pub is_empty : Str → Bool
is_empty [] = true
is_empty (a ∷ s) = false

pub str_eq_refl : (s : Str) → str_eq s s ≡ true
unfolding str_eq
str_eq_refl [] = refl
str_eq_refl (a ∷ s) = ground (arith, str_eq_refl s)

pub str_eq→eq : (s t : Str) → str_eq s t ≡ true → s ≡ t
unfolding str_eq
str_eq→eq [] [] h = refl
str_eq→eq [] (b ∷ t) h = cc
str_eq→eq (a ∷ s) [] h = cc
str_eq→eq (a ∷ s) (b ∷ t) h = ground (arith, str_eq→eq s t)

pub str_eq_iff : (s t : Str) → (str_eq s t ≡ true) ↔ (s ≡ t)
str_eq_iff s t = (str_eq→eq s t, λ e. ap (str_eq s) (sym e) ∙ str_eq_refl s)

pub append-cancel : (p s t : Str) → p ++ s ≡ p ++ t → s ≡ t
append-cancel [] s t h = h
append-cancel (x ∷ p) s t h = append-cancel p s t (cc)

-- Decimal digits, most significant first, put in front of `acc`.
unfoldable pub digits : ℕ → ℕ → Str → Str
digits zero n acc = acc
digits (suc fuel) n acc =
    let rest = digits fuel (n / 10) ((b'0' + n % 10) ∷ acc) in
    if ltb n 10 then (b'0' + n) ∷ acc else rest

-- `std::to_string` of a number that is not negative: a number has at most as many digits as its
-- successor counts.
unfoldable pub to_string : ℕ → Str
unfolding digits
to_string n = digits (suc n) n []

-- The number that a text of decimal digits denotes.
value : ℕ → Str → ℕ
value acc [] = acc
value acc (c ∷ s) = value (acc * 10 + (c - b'0')) s

value-digits : (fuel n : ℕ) (acc : Str) → n < fuel → value 0 (digits fuel n acc) ≡ value n acc
unfolding value digits
value-digits zero n acc h = elim h [ ]
value-digits (suc fuel) n acc h = elim (Bool-cases (ltb n 10)) [
  | inl small ↦ rw small (ap (λ k. value k acc) (omega arith))
  | inr big ↦ rw big (
      value-digits fuel (n / 10) ((b'0' + n % 10) ∷ acc) (ground arith)
      ∙ ap (λ k. value k acc) (omega arith))
]

to_string-value : (n : ℕ) → value 0 (to_string n) ≡ n
unfolding to_string value
to_string-value n = value-digits (suc n) n [] (omega arith)

-- Two numbers with the same decimal text are equal.
pub to_string_injective : (m n : ℕ) → to_string m ≡ to_string n → m ≡ n
to_string_injective m n h = sym (to_string-value m) ∙ ap (value 0) h ∙ to_string-value n

pub prefix_injective : (p : Str) (m n : ℕ) → p ++ to_string m ≡ p ++ to_string n → m ≡ n
prefix_injective p m n h = to_string_injective m n (append-cancel p _ _ h)

-- `std::map<std::string, int>` as an association list; a key stands in it once.
abbrev pub Dict : Type 0
Dict = List (Str × ℕ)

unfoldable pub lookup : Str → Dict → Option ℕ
lookup k [] = none
lookup k ((j, v) ∷ m) = if str_eq j k then some v else lookup k m

-- `m[k] = v`
unfoldable pub assign : Str → ℕ → Dict → Dict
assign k v [] = (k, v) ∷ []
assign k v ((j, w) ∷ m) = if str_eq j k then (k, v) ∷ m else (j, w) ∷ assign k v m

-- `m.emplace(k, v)`: a key that is there keeps its value.
unfoldable pub emplace : Str → ℕ → Dict → Dict
emplace k v [] = (k, v) ∷ []
emplace k v ((j, w) ∷ m) = if str_eq j k then (j, w) ∷ m else (j, w) ∷ emplace k v m

-- `m.erase(k)`
unfoldable pub remove : Str → Dict → Dict
remove k [] = []
remove k ((j, w) ∷ m) = if str_eq j k then remove k m else (j, w) ∷ remove k m

pub lookup-assign :
    (k j : Str) (v : ℕ) (m : Dict)
    → lookup j (assign k v m) ≡ (if str_eq k j then some v else lookup j m)
unfolding lookup assign
lookup-assign k j v [] = refl
lookup-assign k j v ((i, w) ∷ m) =
    ground (arith, str_eq_iff k j, str_eq_iff i k, str_eq_iff i j, lookup-assign k j v m)

pub lookup-emplace :
    (k j : Str) (v : ℕ) (m : Dict)
    → lookup k m ≡ none
    → lookup j (emplace k v m) ≡ (if str_eq k j then some v else lookup j m)
unfolding lookup emplace
lookup-emplace k j v [] h = refl
lookup-emplace k j v ((i, w) ∷ m) h =
    ground (arith, str_eq_iff k j, str_eq_iff i k, str_eq_iff i j, lookup-emplace k j v m)

pub lookup-remove :
    (k j : Str) (m : Dict) → lookup j (remove k m) ≡ (if str_eq k j then none else lookup j m)
unfolding lookup remove
lookup-remove k j [] = ground arith
lookup-remove k j ((i, w) ∷ m) =
    ground (arith, str_eq_iff k j, str_eq_iff i k, str_eq_iff i j, lookup-remove k j m)
