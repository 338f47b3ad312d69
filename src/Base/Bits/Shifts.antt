-- ===== src/Base/Bits/Shifts.antt =====
-- Masks and shifts by `k` bits, at every `k`.
use Prim.Native.Nat.{
  ℕ, zero, suc, ◌+◌, ◌*◌, ◌-◌, ◌/◌, ◌%◌, ◌^◌, ◌≤◌, ◌<◌, bit_and, bit_or, bit_xor, min,
}
use mathlib.Core.Path.{◌≡◌, refl, ap, ap₂, sym, ◌∙◌, ◌≡⟨◌⟩◌, ◌∎}
use native.Mathlib.Omega.{arith}
use native.Mathlib.Nat.{pow-suc, one-le-pow, div-div-eq-div-mul, div-one, mul-one}
use libsidplayfp.Base.Bits.Digits.{bit_and_step, bit_or_step, bit_xor_step}

-- Induction from `a / 2` to `a`, on a bound.
zero_right :
    (f : ℕ → ℕ) (g : ℕ → ℕ)
    → (f 0 ≡ g 0)
    → ((a : ℕ) → f (a / 2) ≡ g (a / 2) → f a ≡ g a)
    → (n a : ℕ) → a ≤ n
    → f a ≡ g a
zero_right f g base step zero zero h = base
zero_right f g base step zero (suc a) h = absurd (omega arith)
zero_right f g base step (suc n) zero h = base
zero_right f g base step (suc n) (suc a) h =
    step (suc a) (zero_right f g base step n (suc a / 2) (omega arith))

pub bit_and-zero : (a : ℕ) → bit_and a 0 ≡ 0
bit_and-zero a =
    zero_right (λ x. bit_and x 0) (λ x. 0) refl (λ x ih. omega (arith, bit_and_step x 0)) a a
      (omega arith)

pub bit_or-zero : (a : ℕ) → bit_or a 0 ≡ a
bit_or-zero a =
    zero_right (λ x. bit_or x 0) (λ x. x) refl (λ x ih. omega (arith, bit_or_step x 0)) a a
      (omega arith)

pub bit_xor-zero : (a : ℕ) → bit_xor a 0 ≡ a
bit_xor-zero a =
    zero_right (λ x. bit_xor x 0) (λ x. x) refl (λ x ih. omega (arith, bit_xor_step x 0)) a a
      (omega arith)

pub double_pow : (q k : ℕ) → q * 2 ^ suc k ≡ 2 * (q * 2 ^ k)
double_pow q k = omega (arith, ap (λ (t : ℕ). q * t) (pow-suc 2 k))

halve_pow : (q k : ℕ) → q * 2 ^ suc k / 2 ≡ q * 2 ^ k
halve_pow q k = omega (arith, double_pow q k)

pub div_pow-suc : (a k : ℕ) → a / 2 ^ suc k ≡ a / 2 / 2 ^ k
div_pow-suc a k =
    ap (λ (t : ℕ). a / t) (omega (arith, pow-suc 2 k)) ∙ sym (div-div-eq-div-mul a 2 (2 ^ k))

-- `a & (m << k)` is `((a >> k) & m) << k`.
pub bit_and_shifted : (k a m : ℕ) → bit_and a (m * 2 ^ k) ≡ bit_and (a / 2 ^ k) m * 2 ^ k
bit_and_shifted zero a m = rw (mul-one m, div-one a, mul-one (bit_and a m))
bit_and_shifted (suc k) a m =
    bit_and a (m * 2 ^ suc k)
    ≡⟨ bit_and_step a (m * 2 ^ suc k) ⟩
      bit_and (a / 2) (m * 2 ^ suc k / 2) * 2 + min (a % 2) (m * 2 ^ suc k % 2)
    ≡⟨ omega (
      arith,
      ap (λ (t : ℕ). bit_and (a / 2) t) (halve_pow m k),
      double_pow m k,
      bit_and_shifted k (a / 2) m,
    ) ⟩
      2 * (bit_and (a / 2 / 2 ^ k) m * 2 ^ k)
    ≡⟨ sym (double_pow (bit_and (a / 2 / 2 ^ k) m) k) ⟩ bit_and (a / 2 / 2 ^ k) m * 2 ^ suc k
    ≡⟨ ap (λ (t : ℕ). bit_and t m * 2 ^ suc k) (sym (div_pow-suc a k)) ⟩
      bit_and (a / 2 ^ suc k) m * 2 ^ suc k ∎

-- `(high << k) | low` is a sum when `low` fits into `k` bits.
pub bit_or_fields : (k high low : ℕ) → low < 2 ^ k → bit_or (high * 2 ^ k) low ≡ high * 2 ^ k + low
bit_or_fields zero high low narrow = ground (arith, bit_or-zero high)
bit_or_fields (suc k) high low narrow =
    let rest = bit_or_fields k high (low / 2) (omega (arith, pow-suc 2 k)) in
    ground (arith, rest, double_pow high k, bit_or_step (high * 2 ^ suc k) low)

-- `a & (2^k - 1)` is the remainder by `2^k`.
masked_sum : (k high low : ℕ) → low < 2 ^ k → bit_and (high * 2 ^ k + low) (2 ^ k - 1) ≡ low
masked_sum zero high low narrow = rw (bit_and-zero (high * 1 + low)) (omega arith)
masked_sum (suc k) high low narrow =
    let rest = masked_sum k high (low / 2) (omega (arith, pow-suc 2 k)) in
    let step = bit_and_step (high * 2 ^ suc k + low) (2 ^ suc k - 1) in
    ground (arith, rest, step, double_pow high k, one-le-pow k 2, pow-suc 2 k)

pub bit_and_mask : (k a : ℕ) → bit_and a (2 ^ k - 1) ≡ a % 2 ^ k
bit_and_mask k a = ground (arith, masked_sum k (a / 2 ^ k) (a % 2 ^ k), one-le-pow k 2)

-- A shift to the right goes through all three operations.
pub bit_and-shr : (k a b : ℕ) → bit_and a b / 2 ^ k ≡ bit_and (a / 2 ^ k) (b / 2 ^ k)
bit_and-shr zero a b = rw (div-one (bit_and a b), div-one a, div-one b)
bit_and-shr (suc k) a b =
    div_pow-suc (bit_and a b) k
    ∙ ap (λ (t : ℕ). t / 2 ^ k) (omega (arith, bit_and_step a b))
    ∙ bit_and-shr k (a / 2) (b / 2)
    ∙ ap₂ bit_and (sym (div_pow-suc a k)) (sym (div_pow-suc b k))

pub bit_xor-shr : (k a b : ℕ) → bit_xor a b / 2 ^ k ≡ bit_xor (a / 2 ^ k) (b / 2 ^ k)
bit_xor-shr zero a b = rw (div-one (bit_xor a b), div-one a, div-one b)
bit_xor-shr (suc k) a b =
    div_pow-suc (bit_xor a b) k
    ∙ ap (λ (t : ℕ). t / 2 ^ k) (omega (arith, bit_xor_step a b))
    ∙ bit_xor-shr k (a / 2) (b / 2)
    ∙ ap₂ bit_xor (sym (div_pow-suc a k)) (sym (div_pow-suc b k))

-- Bit `k` of an exclusive or.
pub bit_xor-bit : (k a b : ℕ) → bit_xor a b / 2 ^ k % 2 ≡ (a / 2 ^ k % 2 + b / 2 ^ k % 2) % 2
bit_xor-bit k a b = omega (arith, bit_xor-shr k a b, bit_xor_step (a / 2 ^ k) (b / 2 ^ k))

-- The operations stay inside the width of their arguments.
pub bit_and-le_right : (n a b : ℕ) → b ≤ n → bit_and a b ≤ b
bit_and-le_right zero a zero h = omega (arith, bit_and-zero a)
bit_and-le_right zero a (suc b) h = absurd (omega arith)
bit_and-le_right (suc n) a b h =
    omega (arith, bit_and_step a b, bit_and-le_right n (a / 2) (b / 2) (omega arith))

pub bit_or-lt : (k a b : ℕ) → a < 2 ^ k → b < 2 ^ k → bit_or a b < 2 ^ k
bit_or-lt zero zero zero h l = omega (arith, bit_or-zero 0)
bit_or-lt zero zero (suc b) h l = absurd (omega arith)
bit_or-lt zero (suc a) b h l = absurd (omega arith)
bit_or-lt (suc k) a b h l = omega (
  arith,
  pow-suc 2 k,
  bit_or_step a b,
  bit_or-lt k (a / 2) (b / 2) (omega (arith, pow-suc 2 k)) (omega (arith, pow-suc 2 k)),
)

pub bit_xor-lt : (k a b : ℕ) → a < 2 ^ k → b < 2 ^ k → bit_xor a b < 2 ^ k
bit_xor-lt zero zero zero h l = omega (arith, bit_xor-zero 0)
bit_xor-lt zero zero (suc b) h l = absurd (omega arith)
bit_xor-lt zero (suc a) b h l = absurd (omega arith)
bit_xor-lt (suc k) a b h l = omega (
  arith,
  pow-suc 2 k,
  bit_xor_step a b,
  bit_xor-lt k (a / 2) (b / 2) (omega (arith, pow-suc 2 k)) (omega (arith, pow-suc 2 k)),
)
