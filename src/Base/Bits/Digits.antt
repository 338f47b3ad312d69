-- ===== src/Base/Bits/Digits.antt =====
-- One equation for the lowest digit of each operation. The native operations stand for `bitwise`,
-- a recursion on the digits with fuel.
use Prim.Native.Nat.{
  ℕ, zero, suc, ◌+◌, ◌*◌, ◌/◌, ◌%◌, ◌≤◌, ◌<◌, min, max, bit_and, bit_or, bit_xor, digits, bitwise,
  differ, bit_and-bitwise, bit_or-bitwise, bit_xor-bitwise,
}
use mathlib.Core.Path.{◌≡◌, refl}
use native.Mathlib.Omega.{arith}

module _ (low : ℕ → ℕ) (op : ℕ → ℕ → ℕ) where
  -- Fuel that covers the first number is enough: more changes nothing.
  more_fuel :
      (x y big small : ℕ)
      → x ≤ small
      → small ≤ big
      → digits low op big x y ≡ digits low op small x y
  more_fuel zero y zero zero covers le = refl
  more_fuel zero y (suc big) zero covers le = refl
  more_fuel zero y (suc big) (suc small) covers le = refl
  more_fuel zero y zero (suc small) covers le = absurd (omega arith)
  more_fuel (suc x) y big zero covers le = absurd (omega arith)
  more_fuel (suc x) y zero (suc small) covers le = absurd (omega arith)
  more_fuel (suc x) y (suc big) (suc small) covers le =
      omega (arith, more_fuel (suc x / 2) (y / 2) big small (omega arith) (omega arith))

  lowest_digit :
      (x y : ℕ)
      → bitwise low op (suc x) y ≡ op (suc x % 2) (y % 2) + 2 * bitwise low op (suc x / 2) (y / 2)
  lowest_digit x y =
      omega (arith, more_fuel (suc x / 2) (y / 2) x (suc x / 2) (omega arith) (omega arith))

-- The exclusive or of two digits is their sum modulo 2.
differ_lem : (x y : ℕ) → x < 2 → y < 2 → differ x y ≡ (x + y) % 2
differ_lem zero y h k = omega arith
differ_lem (suc zero) zero h k = refl
differ_lem (suc zero) (suc zero) h k = refl
differ_lem (suc zero) (suc (suc y)) h k = absurd (omega arith)
differ_lem (suc (suc x)) y h k = absurd (omega arith)

pub bit_and_step : (x y : ℕ) → bit_and x y ≡ bit_and (x / 2) (y / 2) * 2 + min (x % 2) (y % 2)
bit_and_step zero y = simp bit_and-bitwise (omega arith)
bit_and_step (suc x) y = simp bit_and-bitwise (omega (arith, lowest_digit (λ c. 0) min x y))

xor_digits : (x y : ℕ) → bit_xor x y ≡ bit_xor (x / 2) (y / 2) * 2 + differ (x % 2) (y % 2)
xor_digits zero y = simp bit_xor-bitwise (omega arith)
xor_digits (suc x) y = simp bit_xor-bitwise (omega (arith, lowest_digit (λ c. c) differ x y))

pub bit_xor_step : (x y : ℕ) → bit_xor x y ≡ bit_xor (x / 2) (y / 2) * 2 + (x % 2 + y % 2) % 2
bit_xor_step x y =
    omega (arith, xor_digits x y, differ_lem (x % 2) (y % 2) (omega arith) (omega arith))

pub bit_or_step : (x y : ℕ) → bit_or x y ≡ bit_or (x / 2) (y / 2) * 2 + max (x % 2) (y % 2)
bit_or_step zero y = simp bit_or-bitwise (omega arith)
bit_or_step (suc x) y = simp bit_or-bitwise (omega (arith, lowest_digit (λ c. c) max x y))
