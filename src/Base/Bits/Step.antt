-- ===== src/Base/Bits/Step.antt =====
-- `bit_and` and `bit_or` by their lowest bit. The native operations stand for a recursion on binary
-- digits with the first number as its fuel; any larger fuel gives the same.
use Prim.Native.Nat.{ℕ, zero, suc, ◌+◌, ◌*◌, ◌/◌, ◌%◌, ◌≤◌, bit_and, bit_or}
use Prim.Native.Nat.{min, max, digits, bit_and-bitwise, bit_or-bitwise}
use mathlib.Core.Path.{◌≡◌, refl, sym, ap, ◌∙◌}
use native.Mathlib.Omega.{arith}

module _ (last : ℕ → ℕ) (bit : ℕ → ℕ → ℕ) where
  digits-zero : (fuel y : ℕ) → digits last bit fuel 0 y ≡ last y
  digits-zero zero y = refl
  digits-zero (suc fuel) y = refl

  digits_any_fuel :
      (x y : ℕ) (fuel more : ℕ)
      → x ≤ fuel
      → x ≤ more
      → digits last bit more x y ≡ digits last bit fuel x y
  digits_any_fuel zero y fuel more low high = digits-zero more y ∙ sym (digits-zero fuel y)
  digits_any_fuel (suc x) y zero more low high = absurd (omega arith)
  digits_any_fuel (suc x) y (suc fuel) zero low high = absurd (omega arith)
  digits_any_fuel (suc x) y (suc fuel) (suc more) low high =
      ap (λ (upper : ℕ). upper * 2 + bit (suc x % 2) (y % 2))
        (digits_any_fuel (suc x / 2) (y / 2) fuel more (omega arith) (omega arith))

  lowest_bit :
      (x y : ℕ)
      → digits last bit (suc x) (suc x) y
        ≡ digits last bit (suc x / 2) (suc x / 2) (y / 2) * 2 + bit (suc x % 2) (y % 2)
  lowest_bit x y =
      ap (λ (upper : ℕ). upper * 2 + bit (suc x % 2) (y % 2))
        (digits_any_fuel (suc x / 2) (y / 2) (suc x / 2) x (omega arith) (omega arith))

pub bit_and_step : (x y : ℕ) → bit_and x y ≡ bit_and (x / 2) (y / 2) * 2 + min (x % 2) (y % 2)
bit_and_step zero y = omega (arith, bit_and-bitwise 0 y, bit_and-bitwise 0 (y / 2))
bit_and_step (suc x) y = omega (
  arith,
  lowest_bit (λ _. 0) min x y,
  bit_and-bitwise (suc x) y,
  bit_and-bitwise (suc x / 2) (y / 2),
)

pub bit_or_step : (x y : ℕ) → bit_or x y ≡ bit_or (x / 2) (y / 2) * 2 + max (x % 2) (y % 2)
bit_or_step zero y = omega (arith, bit_or-bitwise 0 y, bit_or-bitwise 0 (y / 2))
bit_or_step (suc x) y = omega (
  arith,
  lowest_bit (λ y. y) max x y,
  bit_or-bitwise (suc x) y,
  bit_or-bitwise (suc x / 2) (y / 2),
)
