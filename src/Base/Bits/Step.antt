-- ===== src/Base/Bits/Step.antt =====
-- The lowest digit of the native bit operations, from the recursion on digits they stand for.
use Prim.Native.Nat.{
  ℕ, zero, suc, ◌+◌, ◌*◌, ◌/◌, ◌%◌, ◌≤◌, min, max, bit_and, bit_or, digits, bitwise,
  bit_and-bitwise, bit_or-bitwise, bit_xor, bit_xor-bitwise, differ,
}
use mathlib.Core.Path.{◌≡◌, refl, sym, ap, ◌∙◌}
use native.Mathlib.Omega.{arith}

module _ (over : ℕ → ℕ) (op : ℕ → ℕ → ℕ) where
  -- A first argument of zero ends the recursion at once.
  at_zero : (fuel b : ℕ) → digits over op fuel 0 b ≡ over b
  at_zero zero b = refl
  at_zero (suc fuel) b = refl

  -- The fuel that is left over does not matter.
  spare_fuel :
      (b less more a : ℕ)
      → less ≤ more
      → a ≤ less
      → digits over op more a b ≡ digits over op less a b
  spare_fuel b less more zero order enough = at_zero more b ∙ sym (at_zero less b)
  spare_fuel b zero more (suc a) order enough = absurd (omega arith)
  spare_fuel b (suc less) zero (suc a) order enough = absurd (omega arith)
  spare_fuel b (suc less) (suc more) (suc a) order enough =
      ap (λ high. high * 2 + op (suc a % 2) (b % 2))
        (spare_fuel (b / 2) less more (suc a / 2) (omega arith) (omega arith))

  lowest_digit :
      (b a : ℕ)
      → bitwise over op (suc a) b ≡ bitwise over op (suc a / 2) (b / 2) * 2 + op (suc a % 2) (b % 2)
  lowest_digit b a =
      ap (λ high. high * 2 + op (suc a % 2) (b % 2))
        (spare_fuel (b / 2) (suc a / 2) a (suc a / 2) (omega arith) (omega arith))

pub bit_xor_step : (a b : ℕ) → bit_xor a b ≡ bit_xor (a / 2) (b / 2) * 2 + differ (a % 2) (b % 2)
bit_xor_step zero b = simp bit_xor-bitwise (omega arith)
bit_xor_step (suc a) b = simp bit_xor-bitwise (lowest_digit (λ y. y) differ b a)

pub bit_or_step : (a b : ℕ) → bit_or a b ≡ max (a % 2) (b % 2) + 2 * bit_or (a / 2) (b / 2)
bit_or_step zero b = simp bit_or-bitwise (omega arith)
bit_or_step (suc a) b = simp bit_or-bitwise (omega (arith, lowest_digit (λ y. y) max b a))

pub bit_and_step : (a b : ℕ) → bit_and a b ≡ min (a % 2) (b % 2) + 2 * bit_and (a / 2) (b / 2)
bit_and_step zero b = simp bit_and-bitwise (omega arith)
bit_and_step (suc a) b = simp bit_and-bitwise (omega (arith, lowest_digit (λ y. 0) min b a))
