-- ===== src/Bitwidth.antt =====
-- The bit information that the bitwidth optimisation keeps of a value: the operations on words
-- (elastic-circuits/include/OptimizeBitwidth/operations.h), the class Info (info.h there, and
-- elastic-circuits/OptimizeBitwidth/info.cpp) and the helpers of elastic-circuits/OptimizeBitwidth/
-- utils.cpp.
--
-- A `uintmax_t` is a number below 2^64. A range of bits from `start` to `end` is written with
-- `stop`, which is `end + 1`: no range has an end below -1, and none has an index from 64 on.
pub mod Words
pub mod Ranges
pub mod Forward
pub mod Describes
pub mod Bitwise
pub mod Joins
pub mod Extends
pub mod Initial
mod Tests
use fpt2022_artifact.Common.{ℕ, zero, suc, ◌+◌, ◌-◌, ◌/◌, ◌%◌, ◌^◌, Bool, true, false, ◌||◌}
use fpt2022_artifact.Common.{◌==◌, if◌then◌else◌}
use Prim.Native.Nat.{bit_and, bit_or, bit_xor}

-- `~num`
unfoldable pub complement : ℕ → ℕ
complement num = bit_xor num (2 ^ 64 - 1)

-- `op::get`
unfoldable pub get : ℕ → ℕ → Bool
get num i = (num / 2 ^ i) % 2 == 1

-- `op::set` and `op::unset` of one bit
unfoldable pub set : ℕ → ℕ → ℕ
set num i = bit_or num (2 ^ i)

unfoldable pub unset : ℕ → ℕ → ℕ
unset num i = bit_and num (complement (2 ^ i))

-- The loops of `op::set` and `op::unset` on ranges, with the rounds that are left.
unfoldable pub set_rounds : ℕ → ℕ → ℕ → ℕ
set_rounds zero i num = num
set_rounds (suc n) i num = set_rounds n (i + 1) (set num i)

unfoldable pub unset_rounds : ℕ → ℕ → ℕ → ℕ
unset_rounds zero i num = num
unset_rounds (suc n) i num = unset_rounds n (i + 1) (unset num i)

-- `op::set` and `op::unset` on ranges; an empty range has no round.
abbrev pub set_range : ℕ → ℕ → ℕ → ℕ
set_range num start stop = set_rounds (stop - start) start num

abbrev pub unset_range : ℕ → ℕ → ℕ → ℕ
unset_range num start stop = unset_rounds (stop - start) start num

-- `Info`, without the fields that no rule of the propagation reads.
pub record Info : Type 0 where
  pub bitwidth : ℕ
  pub left : ℕ
  pub right : ℕ
  pub extend_point : ℕ
  pub unknown_bits : ℕ
  pub bit_value : ℕ

-- `Info::operator=` keeps the width of the target.
abbrev pub copy_info : Info → Info → Info
copy_info to from = record from { bitwidth = to.bitwidth }

-- `Info::getLeftBorder` of a constant: the index of the highest bit. `bits` is the width of the
-- constant.
unfoldable pub get_left_border : ℕ → ℕ → ℕ
get_left_border zero val = 0
get_left_border (suc i) val = let rest = get_left_border i val in if get val i then i else rest

-- `Info::getRightBorder`: the index of the lowest bit, or 0 when there is none. `n` rounds are left.
unfoldable pub get_right_border : ℕ → ℕ → ℕ → ℕ
get_right_border zero i val = 0
get_right_border (suc n) i val =
    let rest = get_right_border n (i + 1) val in if get val i then i else rest

-- A bit that is one, or unknown.
abbrev pub maybe_one : Info → ℕ → Bool
maybe_one info i = get info.bit_value i || get info.unknown_bits i

-- `updateLeft`: down from an index to the first bit that may be one.
unfoldable pub find_left : Info → ℕ → ℕ
find_left info zero = 0
find_left info (suc i) =
    let rest = find_left info i in if maybe_one info (suc i) then suc i else rest

abbrev pub update_left : Info → Info
update_left info = record info { left = find_left info info.left }

-- `updateRight`: up from 0 to the first bit that may be one, with the rounds that are left.
unfoldable pub find_right : Info → ℕ → ℕ → ℕ
find_right info zero i = 0
find_right info (suc n) i =
    let rest = find_right info n (i + 1) in if maybe_one info i then i else rest

abbrev pub update_right : Info → Info
update_right info = record info { right = find_right info (info.left + 1) 0 }

-- `setOneDyn`, `setOne`, `setZeroDyn` and `setZero`
abbrev pub set_one_dyn : ℕ → ℕ → Info → Info
set_one_dyn start stop info = record info { unknown_bits = set_range info.unknown_bits start stop }

abbrev pub set_one : ℕ → ℕ → Info → Info
set_one start stop info = record info { bit_value = set_range info.bit_value start stop }

abbrev pub set_zero_dyn : ℕ → ℕ → Info → Info
set_zero_dyn start stop info = record info {
  unknown_bits = unset_range info.unknown_bits start stop;
}

abbrev pub set_zero : ℕ → ℕ → Info → Info
set_zero start stop info = record info { bit_value = unset_range info.bit_value start stop }

-- `minPossibleVal` and `maxPossibleVal`
abbrev pub min_possible_val : Info → ℕ
min_possible_val info = info.bit_value

unfoldable pub fill_unknown : ℕ → ℕ → ℕ → ℕ → ℕ
fill_unknown zero i unknown res = res
fill_unknown (suc n) i unknown res =
    fill_unknown n (i + 1) unknown (if get unknown i then set res i else res)

abbrev pub max_possible_val : Info → ℕ
max_possible_val info =
    fill_unknown (info.left + 1 - info.right) info.right info.unknown_bits info.bit_value

-- `findRightDyn`: the lowest unknown bit below `m_left`.
unfoldable pub find_dyn : ℕ → ℕ → ℕ → ℕ
find_dyn zero i unknown = 0
find_dyn (suc n) i unknown =
    let rest = find_dyn n (i + 1) unknown in if get unknown i then i else rest

abbrev pub find_right_dyn : Info → ℕ
find_right_dyn info = find_dyn info.left 0 info.unknown_bits

-- `correctDyn`
abbrev pub correct_dyn : Info → Info
correct_dyn info = record info {
  unknown_bits =
      unset_range (unset_range info.unknown_bits (info.left + 1) info.bitwidth) 0 info.right;
}

-- `createUndefined`; the range that it sets runs from `m_left` to `m_right`.
abbrev pub create_undefined : Info → Info
create_undefined info = record info {
  bit_value = 0;
  left = info.bitwidth - 1;
  right = 0;
  unknown_bits = set_range info.unknown_bits (info.bitwidth - 1) 1;
  extend_point = info.bitwidth - 1;
}
