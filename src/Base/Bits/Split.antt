-- ===== src/Base/Bits/Split.antt =====
-- The operations work on the two parts of a split word separately, at every split.
use Prim.Native.Nat.{
  ℕ, zero, suc, ◌+◌, ◌*◌, ◌/◌, ◌%◌, ◌^◌, ◌<◌, bit_and, bit_or, bit_xor, min, max, bit_or-bitwise,
}
use mathlib.Core.Path.{◌≡◌}
use native.Mathlib.Omega.{arith}
use native.Mathlib.Nat.{pow-suc}
use libsidplayfp.Base.Bits.Digits.{bit_and_step, bit_or_step, bit_xor_step}
use libsidplayfp.Base.Bits.Shifts.{bit_and-zero, bit_or-zero, bit_xor-zero, double_pow}

module _ (f : ℕ → ℕ → ℕ) (digit : ℕ → ℕ → ℕ) (zeros : f 0 0 ≡ 0)
    (step : (a b : ℕ) → f a b ≡ f (a / 2) (b / 2) * 2 + digit (a % 2) (b % 2)) where
  split :
      (k p r q s : ℕ)
      → r < 2 ^ k
      → s < 2 ^ k
      → f (p * 2 ^ k + r) (q * 2 ^ k + s) ≡ f p q * 2 ^ k + f r s
  split zero p zero q zero h l = ground (arith, zeros)
  split zero p (suc r) q s h l = absurd (omega arith)
  split zero p zero q (suc s) h l = absurd (omega arith)
  split (suc k) p r q s h l = ground (
    arith,
    step (p * 2 ^ suc k + r) (q * 2 ^ suc k + s),
    step r s,
    double_pow p k,
    double_pow q k,
    double_pow (f p q) k,
    split k p (r / 2) q (s / 2) (omega (arith, pow-suc 2 k)) (omega (arith, pow-suc 2 k)),
  )

pub bit_and_split :
    (k p r q s : ℕ)
    → r < 2 ^ k
    → s < 2 ^ k
    → bit_and (p * 2 ^ k + r) (q * 2 ^ k + s) ≡ bit_and p q * 2 ^ k + bit_and r s
bit_and_split = split bit_and min (bit_and-zero 0) bit_and_step

pub bit_or_split :
    (k p r q s : ℕ)
    → r < 2 ^ k
    → s < 2 ^ k
    → bit_or (p * 2 ^ k + r) (q * 2 ^ k + s) ≡ bit_or p q * 2 ^ k + bit_or r s
bit_or_split = split bit_or max (bit_or-zero 0) bit_or_step

pub bit_xor_split :
    (k p r q s : ℕ)
    → r < 2 ^ k
    → s < 2 ^ k
    → bit_xor (p * 2 ^ k + r) (q * 2 ^ k + s) ≡ bit_xor p q * 2 ^ k + bit_xor r s
bit_xor_split = split bit_xor (λ x y. (x + y) % 2) (bit_xor-zero 0) bit_xor_step

pub zero-bit_or : (q : ℕ) → bit_or 0 q ≡ q
zero-bit_or q = bit_or-bitwise 0 q

-- `r | (q << k)` is a sum when `r` fits into `k` bits.
pub bit_or_low : (k q r : ℕ) → r < 2 ^ k → bit_or r (q * 2 ^ k) ≡ q * 2 ^ k + r
bit_or_low k q r h = ground (arith, bit_or_split k 0 r q 0, zero-bit_or q, bit_or-zero r)
