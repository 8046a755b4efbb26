-- ===== src/Bitwidth/Forward.antt =====
-- The forward rules of the bitwidth optimisation, on the information of the result and of the
-- operands (elastic-circuits/OptimizeBitwidth/OptimizeBitwidth.cpp). What they log and count is
-- left out.
use fpt2022_artifact.Common.{ℕ, ◌+◌, ◌-◌, ◌%◌, Bool, true, false, List, [], ◌∷◌}
use fpt2022_artifact.Common.{◌==◌, if◌then◌else◌}
use Prim.Native.Nat.{bit_and, bit_or, bit_xor, min, max}
use fpt2022_artifact.Bitwidth.{
  Info, complement, get, copy_info, update_left, update_right, correct_dyn,
}
use fpt2022_artifact.Bitwidth.{set_one_dyn, set_one, set_zero_dyn, set_zero}
use fpt2022_artifact.Bitwidth.{set_range, get_left_border, get_right_border}

-- `createBitInfo` of a constant, and of an operand or an argument that may have any value.
abbrev pub constant_info : ℕ → ℕ → Info
constant_info bitwidth val = record {
  bitwidth = bitwidth;
  left = get_left_border bitwidth val;
  right = get_right_border 64 0 val;
  extend_point = get_left_border bitwidth val;
  unknown_bits = 0;
  bit_value = val;
}

abbrev pub argument_info : ℕ → Info
argument_info bitwidth = record {
  bitwidth = bitwidth;
  left = bitwidth - 1;
  right = 0;
  extend_point = bitwidth - 1;
  unknown_bits = set_range 0 0 bitwidth;
  bit_value = 0;
}

-- `updateLeft`, `updateRight` and `correctDyn`, with which most rules end.
abbrev pub settle : Info → Info
settle info = correct_dyn (update_right (update_left info))

-- `forwardAnd`
unfoldable pub forward_and : Info → Info → Info → Info
forward_and cur op0 op1 =
    let value = bit_and op0.bit_value op1.bit_value in
    settle (record cur {
      left = min op0.left op1.left;
      right = max op0.right op1.right;
      bit_value = value;
      unknown_bits =
          bit_and (complement value) (
            bit_and (bit_or op0.unknown_bits op0.bit_value)
              (bit_or op1.unknown_bits op1.bit_value));
      extend_point = max op0.extend_point op1.extend_point;
    })

-- `forwardOr`, which keeps the ones of the result that are known.
unfoldable pub forward_or : Info → Info → Info → Info
forward_or cur op0 op1 =
    let value = bit_or cur.bit_value (bit_or op0.bit_value op1.bit_value) in
    settle (record cur {
      left = max op0.left op1.left;
      right = min op0.right op1.right;
      bit_value = value;
      unknown_bits = bit_and (bit_or op0.unknown_bits op1.unknown_bits) (complement value);
      extend_point = max op0.extend_point op1.extend_point;
    })

-- `forwardXor`
unfoldable pub forward_xor : Info → Info → Info → Info
forward_xor cur op0 op1 =
    let unknown = bit_or op0.unknown_bits op1.unknown_bits in
    record cur {
      left = max op0.left op1.left;
      right = min op0.right op1.right;
      extend_point = max op0.extend_point op1.extend_point;
      unknown_bits = unknown;
      bit_value = bit_and (bit_xor op0.bit_value op1.bit_value) (complement unknown);
    }

-- The bits in which two values may differ, in `forwardSelect`, `setMax` and `setMin`.
abbrev pub differing : Info → Info → ℕ
differing a b = bit_or (bit_or a.unknown_bits b.unknown_bits) (bit_xor a.bit_value b.bit_value)

-- `forwardSelect`; the condition is not looked at.
unfoldable pub forward_select : Info → Info → Info → Info
forward_select cur op1 op2 = settle (record cur {
  left = max op1.left op2.left;
  right = min op1.right op2.right;
  extend_point = max op1.extend_point op2.extend_point;
  unknown_bits = differing op1 op2;
  bit_value = bit_and op1.bit_value (complement (differing op1 op2));
})

-- `forwardTrunc`; `uint8_t(m_bitwidth - 1)` wraps around.
unfoldable pub forward_trunc : Info → Info → Info
forward_trunc cur op0 =
    let left = min ((cur.bitwidth + 255) % 256) op0.left in
    let info = settle (
      set_zero_dyn (left + 1) op0.bitwidth (
        set_zero (left + 1) op0.bitwidth (record cur {
          left = left;
          right = min left op0.right;
          bit_value = op0.bit_value;
          unknown_bits = op0.unknown_bits;
        }))) in
    record info { extend_point = min info.left op0.extend_point }

-- `forwardZExt`
unfoldable pub forward_zext : Info → Info → Info
forward_zext cur op0 = update_right (update_left (copy_info cur op0))

-- The extension of the sign in `forwardSExt`: an unknown sign makes the new bits unknown, and any
-- other sets them.
unfoldable pub extend_info : Bool → Info → Info → Info
extend_info true op0 info =
    set_zero op0.bitwidth info.bitwidth
      (set_one_dyn op0.bitwidth info.bitwidth (record info { extend_point = op0.bitwidth - 1 }))
extend_info false op0 info =
    set_one op0.bitwidth info.bitwidth
      (set_zero_dyn op0.bitwidth info.bitwidth (record info { extend_point = info.bitwidth - 1 }))

-- `forwardSExt`
unfoldable pub forward_sext : Info → Info → Info
forward_sext cur op0 =
    let info = copy_info cur op0 in
    settle (
      if op0.left + 1 == op0.bitwidth
      then record (extend_info (get op0.unknown_bits (op0.bitwidth - 1)) op0 info) {
        left = info.bitwidth - 1;
      }
      else info)

-- The end of `setMax` and `setMin`: nothing is left outside of the borders.
abbrev pub trim : Info → Info
trim info = set_zero 0 info.right (
    set_zero_dyn 0 info.right
      (set_zero (info.left + 1) info.bitwidth (set_zero_dyn (info.left + 1) info.bitwidth info)))

-- `setMax`
unfoldable pub set_max : Info → Info → Info
set_max to from = trim (record {
  bitwidth = max to.bitwidth from.bitwidth;
  left = max to.left from.left;
  right = min to.right from.right;
  extend_point = max to.extend_point from.extend_point;
  unknown_bits = differing to from;
  bit_value = bit_and to.bit_value from.bit_value;
})

-- `setMin`
unfoldable pub set_min : Info → Info → Info
set_min to from =
    let left = min to.left from.left in
    trim (record {
      bitwidth = min to.bitwidth from.bitwidth;
      left = left;
      right = min left (max to.right from.right);
      extend_point = min to.extend_point from.extend_point;
      unknown_bits = differing to from;
      bit_value = bit_and to.bit_value from.bit_value;
    })

-- `forwardPHI` of a node that is not the variable of a loop. The information of the incoming values is
-- that from before the call, so none of them is the node itself.
unfoldable pub join_all : Info → List Info → Info
join_all cur [] = cur
join_all cur (from ∷ rest) = join_all (set_max cur from) rest

unfoldable pub forward_phi : Info → List Info → Info
forward_phi cur [] = cur
forward_phi cur (first ∷ rest) = join_all (copy_info cur first) rest
