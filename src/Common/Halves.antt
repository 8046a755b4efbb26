-- ===== src/Common/Halves.antt =====
-- The last binary digit of a remainder, and the digits before it.
use Prim.Native.Nat.{ℕ, ◌-◌, ◌*◌, ◌/◌, ◌%◌}
use mathlib.Core.Path.{◌≡◌, ◌∙◌, ap}
use native.Mathlib.Omega.{arith}
use native.Mathlib.Nat.{div-div-eq-div-mul, mod-eq-sub-mul-div, div-add-mod}

-- Half of a remainder.
double-mul : (m q : ℕ) → (2 * m) * q ≡ 2 * (m * q)
double-mul m q = grind arith

pub half-mod : (a m : ℕ) → (a % (2 * m)) / 2 ≡ (a / 2) % m
half-mod a m =
    let whole = mod-eq-sub-mul-div a (2 * m) in
    let part = mod-eq-sub-mul-div (a / 2) m ∙ ap (λ q. a / 2 - m * q) (div-div-eq-div-mul a 2 m) in
    omega (arith, whole, part, double-mul m (a / (2 * m)))

pub even-mod : (a m : ℕ) → (a % (2 * m)) % 2 ≡ a % 2
even-mod a m =
    omega (arith, mod-eq-sub-mul-div a (2 * m), double-mul m (a / (2 * m)), div-add-mod a (2 * m))
