-- ===== src/Bitwidth/Tests.antt =====
-- Runs of the rules on an argument and a constant of eight bits.
use fpt2022_artifact.Common.{ℕ, ◌≡◌, refl, sym, ◌∙◌, true, arith, [], ◌∷◌, ◌%◌, ◌^◌, ◌<◌}
use Prim.Native.Nat.{bit_and, bit_or, bit_xor}
use fpt2022_artifact.Bitwidth.{
  get, Info, maybe_one, find_left, find_right, unset_rounds, set_rounds, set, unset, complement,
  get_left_border, get_right_border,
}
use fpt2022_artifact.Bitwidth.Forward.{constant_info, argument_info, forward_and, forward_or}
use fpt2022_artifact.Bitwidth.Forward.{forward_xor, forward_trunc, forward_sext, forward_phi}
use fpt2022_artifact.Bitwidth.Ranges.{get-set_range}
use fpt2022_artifact.Bitwidth.Describes.{Describes, Fits}
use fpt2022_artifact.Bitwidth.Bitwise.{
  Operands, forward_and-Sound, forward_or-Sound, forward_xor-Sound,
}
use fpt2022_artifact.Bitwidth.Joins.{SomeDescribes, forward_phi-Sound}
use fpt2022_artifact.Bitwidth.Extends.{forward_trunc-Sound, forward_sext-Sound, IsSignExtension}
use fpt2022_artifact.Bitwidth.Initial.{
  get-nothing, get-narrow, initial_info-Sound, forward_sext-constant_false,
}

-- `x & 12` has its ones between the bits 2 and 3.
and_borders :
    ((forward_and (argument_info 8) (argument_info 8) (constant_info 8 12)).left ≡ 3)
    × ((forward_and (argument_info 8) (argument_info 8) (constant_info 8 12)).right ≡ 2)
unfolding forward_and find_left find_right unset_rounds set_rounds set unset complement get
    get_left_border get_right_border
and_borders = (refl, refl)

-- An argument of value 5, and the constant 12.
abbrev arg : Info
arg = argument_info 8

abbrev const : Info
const = constant_info 8 12

arg-Sound : Fits arg × Describes arg 5
arg-Sound = (initial_info-Sound 8 5 (omega arith) (omega arith) (omega arith)).1

const-Sound : Fits const × Describes const 12
const-Sound = (initial_info-Sound 8 12 (omega arith) (omega arith) (omega arith)).0

operands : Operands 8 arg arg const 5 12
operands = record {
  cur_width = refl;
  width0 = refl;
  width1 = refl;
  fits0 = arg-Sound.0;
  fits1 = const-Sound.0;
  value0 = arg-Sound.1;
  value1 = const-Sound.1;
}

initial_info-Sound_example : (Fits const × Describes const 12) × (Fits arg × Describes arg 12)
initial_info-Sound_example = initial_info-Sound 8 12 (omega arith) (omega arith) (omega arith)

forward_and-Sound_example :
    Fits (forward_and arg arg const) × Describes (forward_and arg arg const) (bit_and 5 12)
forward_and-Sound_example = forward_and-Sound 8 arg arg const 5 12 operands

nothing_before : (i : ℕ) → i < 64 → get arg.bit_value i ≡ true → get (bit_or 5 12) i ≡ true
nothing_before i h k = absurd (ground (arith, get-nothing i, k))

forward_or-Sound_example :
    Fits (forward_or arg arg const) × Describes (forward_or arg arg const) (bit_or 5 12)
forward_or-Sound_example = forward_or-Sound 8 arg arg const 5 12 operands nothing_before

forward_xor-Sound_example :
    Fits (forward_xor arg arg const) × Describes (forward_xor arg arg const) (bit_xor 5 12)
forward_xor-Sound_example = forward_xor-Sound 8 arg arg const 5 12 operands

forward_phi-Sound_example :
    Fits (forward_phi arg (const ∷ arg ∷ []))
    × ((v : ℕ)
        → SomeDescribes (const ∷ arg ∷ []) v
        → Describes (forward_phi arg (const ∷ arg ∷ [])) v)
forward_phi-Sound_example =
    forward_phi-Sound arg const (arg ∷ []) refl const-Sound.0 (arg-Sound.0, tt)

forward_trunc-Sound_example :
    Fits (forward_trunc (argument_info 2) arg)
    × Describes (forward_trunc (argument_info 2) arg) (5 % 2 ^ 2)
forward_trunc-Sound_example =
    forward_trunc-Sound (argument_info 2) arg 5 arg-Sound.0 (omega arith) (omega arith) arg-Sound.1

-- 5 of eight bits is 5 of sixteen.
five-IsSignExtension : IsSignExtension 8 16 5 5
five-IsSignExtension = record {
  low = λ i h. refl;
  sign = λ i from to.
      get-narrow 3 5 i (omega arith) (omega (arith, from))
      ∙ sym (get-narrow 3 5 7 (omega arith) (omega arith));
  none_above = λ i to. get-narrow 3 5 i (omega arith) (omega (arith, to));
}

arg_sign : maybe_one arg 7 ≡ true
arg_sign = ground (arith, get-set_range 0 0 8 7)

forward_sext-Sound_example :
    Fits (forward_sext (argument_info 16) arg) × Describes (forward_sext (argument_info 16) arg) 5
forward_sext-Sound_example =
    forward_sext-Sound (argument_info 16) arg 5 5 arg-Sound.0 (omega arith) (omega arith)
      (λ full. arg_sign) arg-Sound.1 five-IsSignExtension

forward_sext-constant_false_example :
    ¬ Describes (forward_sext (argument_info 32) (constant_info 1 0)) 0
forward_sext-constant_false_example =
    forward_sext-constant_false (argument_info 32) (omega arith) (omega arith)
