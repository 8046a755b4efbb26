-- ===== src/Bitwidth/Ranges.antt =====
-- The helpers on the bit information: the ranges that they set and clear, the borders that they
-- find, and the well-formedness that they establish (elastic-circuits/OptimizeBitwidth/utils.cpp).
use fpt2022_artifact.Common.{ℕ, zero, suc, ◌+◌, ◌-◌, ◌≤◌, ◌<◌, ◌≡◌, inl, inr}
use fpt2022_artifact.Common.{false, not, ◌&&◌, ◌||◌, ◌==◌, ltb, leb, arith}
use fpt2022_artifact.Common.{Bool-cases}
use fpt2022_artifact.Bitwidth.{get, set, unset, set_rounds, unset_rounds, set_range, unset_range}
use fpt2022_artifact.Bitwidth.{Info, maybe_one, find_left, find_right}
use fpt2022_artifact.Bitwidth.Words.{get-set, get-unset}

get-set_rounds :
    (n i num j : ℕ) → get (set_rounds n i num) j ≡ (get num j || (leb i j && ltb j (i + n)))
unfolding set_rounds
get-set_rounds zero i num j = ground arith
get-set_rounds (suc n) i num j =
    ground (arith, get-set_rounds n (i + 1) (set num i) j, get-set j num i)

get-unset_rounds :
    (n i num j : ℕ)
    → j < 64
    → get (unset_rounds n i num) j ≡ (get num j && not (leb i j && ltb j (i + n)))
unfolding unset_rounds
get-unset_rounds zero i num j h = ground arith
get-unset_rounds (suc n) i num j h =
    ground (arith, get-unset_rounds n (i + 1) (unset num i) j h, get-unset j num i h)

-- Exactly the bits of the range are set, or cleared.
pub get-set_range :
    (num start stop j : ℕ)
    → get (set_range num start stop) j ≡ (get num j || (leb start j && ltb j stop))
get-set_range num start stop j = ground (arith, get-set_rounds (stop - start) start num j)

pub get-unset_range :
    (num start stop j : ℕ)
    → j < 64
    → get (unset_range num start stop) j ≡ (get num j && not (leb start j && ltb j stop))
get-unset_range num start stop j h = ground (arith, get-unset_rounds (stop - start) start num j h)

-- The borders that are found, and that nothing stands beyond them.
pub find_left-le : (info : Info) (i : ℕ) → find_left info i ≤ i
unfolding find_left
find_left-le info zero = omega arith
find_left-le info (suc i) = ground (arith, find_left-le info i)

pub find_left-beyond :
    (info : Info) (i j : ℕ) → find_left info i < j → j ≤ i → maybe_one info j ≡ false
unfolding find_left
find_left-beyond info zero j p q = absurd (omega (arith, p, q))
find_left-beyond info (suc i) j p q = elim (Bool-cases (maybe_one info (suc i))) [
  | inl here ↦ absurd (ground (arith, here, p, q))
  | inr none ↦ elim (Bool-cases (j == suc i)) [
    | inl last ↦ ground (arith, last, none)
    | inr before ↦ find_left-beyond info i j (ground (arith, none, p)) (ground (arith, before, q))
  ]
]

pub find_right-beyond :
    (info : Info) (n i j : ℕ) → i ≤ j → j < find_right info n i → maybe_one info j ≡ false
unfolding find_right
find_right-beyond info zero i j p q = absurd (omega (arith, p, q))
find_right-beyond info (suc n) i j p q = elim (Bool-cases (maybe_one info i)) [
  | inl here ↦ absurd (ground (arith, here, p, q))
  | inr none ↦ elim (Bool-cases (j == i)) [
    | inl first ↦ ground (arith, first, none)
    | inr later ↦
        find_right-beyond info n (i + 1) j (ground (arith, later, p)) (ground (arith, none, q))
  ]
]
