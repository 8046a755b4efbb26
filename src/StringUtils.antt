-- ===== src/StringUtils.antt =====
-- The helpers on texts of the VHDL writer (dot2vhdl/src/string_utils.cpp).
--
-- A suffix of the text stands for the position where it begins. The loops are on fuel, the length of
-- the text, and `none` of `erase_all_sub_str` is a loop that has not ended.
pub mod Split
pub mod Erase
pub mod Constants
mod Tests
use fpt2022_artifact.Common.{ℕ, zero, suc, ◌*◌, ◌+◌, ◌/◌, ◌%◌, Bool, true, false, not, ◌&&◌, ◌||◌}
use fpt2022_artifact.Common.{
  Option, none, some, List, [], ◌∷◌, ◌++◌, length, if◌then◌else◌, ◌==◌, ltb, leb,
}
use fpt2022_artifact.Common.Text.{Str, codes}

-- `s.find(c)`: the text before the first `c`, and the text behind it.
unfoldable pub cut_at : ℕ → Str → Option (Str × Str)
cut_at c [] = none
cut_at c (x ∷ s) =
    let rest = cut_at c s in
    if x == c then some ([], s) else elim rest [ none ↦ none | some (p, q) ↦ some (x ∷ p, q) ]

-- The rounds of `while (j != npos)`, from the position `i` on. The last part is added when no further
-- separator is found.
unfoldable pub split_rest : ℕ → ℕ → Str → List Str
split_rest zero c s = []
split_rest (suc fuel) c s = elim (cut_at c s) [
  | none ↦ []
  | some (p, q) ↦ elim (cut_at c q) [ none ↦ p ∷ q ∷ [] | some found ↦ p ∷ split_rest fuel c q ]
]

unfoldable pub string_split : Str → ℕ → List Str → List Str
string_split s c v = v ++ split_rest (length s) c s

-- `erase(remove(begin, end, c), end)`
unfoldable pub remove_char : ℕ → Str → Str
remove_char c [] = []
remove_char c (x ∷ s) = if x == c then remove_char c s else x ∷ remove_char c s

abbrev pub string_remove_blank : Str → Str
string_remove_blank = remove_char b' '

abbrev pub string_clean : Str → Str
string_clean s =
    remove_char b';' (remove_char b']' (remove_char b'"' (remove_char b' ' (remove_char 9 s))))

-- Whether the text begins with another one, and the text behind that.
unfoldable pub drop_prefix : Str → Str → Option Str
drop_prefix [] s = some s
drop_prefix (x ∷ p) [] = none
drop_prefix (x ∷ p) (y ∷ s) = if x == y then drop_prefix p s else none

-- `s.rfind(t)` and `s.resize` at its answer: the text before the last occurrence.
unfoldable pub before_last : Str → Str → Option Str
before_last t [] = elim (drop_prefix t []) [ none ↦ none | some r ↦ some [] ]
before_last t (x ∷ s) = elim (before_last t s) [
  | some r ↦ some (x ∷ r)
  | none ↦ elim (drop_prefix t (x ∷ s)) [ none ↦ none | some r ↦ some [] ]
]

unfoldable pub strip_extension : Str → Str → Str
strip_extension s extension = elim (before_last extension s) [ none ↦ s | some r ↦ r ]

-- `std::bitset<width>`, printed: its digits, the highest first.
unfoldable pub bitset : ℕ → ℕ → Str
bitset zero value = []
bitset (suc width) value = bitset width (value / 2) ++ (b'0' + value % 2) ∷ []

-- The width that the `switch` of `string_constant` takes.
abbrev pub constant_width : ℕ → ℕ → ℕ
constant_width value size =
    if leb 1 size && leb size 16
    then size
    else if ltb 4294967295 value && ltb 32 size
    then 64
    else 32

unfoldable pub string_constant : ℕ → ℕ → Str
string_constant value size = bitset (constant_width value size) value

-- `find` and `erase`: the text without the first occurrence.
unfoldable pub erase_first : Str → Str → Option Str
erase_first t [] = drop_prefix t []
erase_first t (x ∷ s) = elim (drop_prefix t (x ∷ s)) [
  | some r ↦ some r
  | none ↦ elim (erase_first t s) [ none ↦ none | some r ↦ some (x ∷ r) ]
]

unfoldable pub erase_rounds : ℕ → Str → Str → Option Str
erase_rounds zero s t = none
erase_rounds (suc fuel) s t = elim (erase_first t s) [
  | none ↦ some s
  | some r ↦ erase_rounds fuel r t
]

unfoldable pub erase_all_sub_str : Str → Str → Option Str
erase_all_sub_str s t = erase_rounds (suc (length s)) s t

-- The last part, or the whole text.
abbrev pub last_part : Str → List Str → Str
last_part s [] = s
last_part s (p ∷ ps) = last_part p ps

abbrev erase_then : Option Str → Str → Option Str
erase_then none t = none
erase_then (some s) t = erase_all_sub_str s t

unfoldable pub clean_entity : Str → Option Str
clean_entity filename =
    erase_then
      (erase_then
        (erase_all_sub_str (last_part filename (string_split filename b'/' []))
          (codes "_elaborated"))
        (codes "_optimized"))
      (codes "_area")
