-- ===== src/StringUtils/Tests.antt =====
-- Runs of the helpers on texts.
use fpt2022_artifact.Common.{◌≡◌, refl, arith, true, false, some, [], length, ◌%◌, ◌^◌}
use fpt2022_artifact.Common.Sets.{mem}
use fpt2022_artifact.Common.Text.{codes}
use fpt2022_artifact.StringUtils.{
  cut_at, split_rest, string_split, strip_extension, before_last, drop_prefix, string_constant,
  erase_first, erase_rounds, erase_all_sub_str, clean_entity,
}
use fpt2022_artifact.StringUtils.Split.{joined, AllWithout, string_split-joined}
use fpt2022_artifact.StringUtils.Erase.{ErasesAll, erase_all_sub_str-ErasesAll}
use fpt2022_artifact.StringUtils.Constants.{IsBinary, read_binary, string_constant-Prints, Prints}

string_split-joined_example :
    (mem b'=' (codes "a=b=") ≡ true
      → (joined b'=' (string_split (codes "a=b=") b'=' []) ≡ codes "a=b=")
        × AllWithout b'=' (string_split (codes "a=b=") b'=' []))
    × (mem b'=' (codes "a=b=") ≡ false → string_split (codes "a=b=") b'=' [] ≡ [])
string_split-joined_example = string_split-joined (codes "a=b=") b'='

erase_all_sub_str-ErasesAll_example :
    ErasesAll (codes "ab") (codes "aabbc") (erase_all_sub_str (codes "aabbc") (codes "ab"))
erase_all_sub_str-ErasesAll_example =
    erase_all_sub_str-ErasesAll (codes "aabbc") (codes "ab") (omega arith)

string_constant-Prints_example :
    IsBinary (string_constant 5 20)
    × Prints 5 20 (length (string_constant 5 20))
    × (read_binary (string_constant 5 20) ≡ 5 % 2 ^ length (string_constant 5 20))
string_constant-Prints_example = string_constant-Prints 5 20

-- An extension in the middle is taken off with all that is behind it.
strip_middle : strip_extension (codes "a.dot.old") (codes ".dot") ≡ codes "a"
unfolding strip_extension before_last drop_prefix
strip_middle = refl

-- A removal may join an occurrence.
erase_joined : erase_all_sub_str (codes "aabbc") (codes "ab") ≡ some (codes "c")
unfolding erase_all_sub_str erase_rounds erase_first drop_prefix
erase_joined = refl

entity_of_path : clean_entity (codes "out/fir_optimized_area") ≡ some (codes "fir")
unfolding clean_entity string_split split_rest cut_at erase_all_sub_str erase_rounds erase_first
    drop_prefix
entity_of_path = refl
