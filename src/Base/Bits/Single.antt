-- ===== src/Base/Bits/Single.antt =====
-- Bit `k` of a conjunction, a disjunction and a complement.
use Prim.Native.Nat.{ℕ, zero, suc, ◌-◌, ◌/◌, ◌%◌, ◌^◌, ◌<◌, min, max, bit_and, bit_or}
use mathlib.Core.Path.{◌≡◌, ap, ap₂, sym, ◌∙◌}
use native.Mathlib.Omega.{arith}
use native.Mathlib.Nat.{div-one}
use libsidplayfp.Base.Bits.Digits.{bit_and_step, bit_or_step}
use libsidplayfp.Base.Bits.Shifts.{bit_and-shr, div_pow-suc}

pub bit_and-bit : (k a b : ℕ) → bit_and a b / 2 ^ k % 2 ≡ min (a / 2 ^ k % 2) (b / 2 ^ k % 2)
bit_and-bit k a b = omega (arith, bit_and-shr k a b, bit_and_step (a / 2 ^ k) (b / 2 ^ k))

pub bit_or-shr : (k a b : ℕ) → bit_or a b / 2 ^ k ≡ bit_or (a / 2 ^ k) (b / 2 ^ k)
bit_or-shr zero a b = rw (div-one (bit_or a b), div-one a, div-one b)
bit_or-shr (suc k) a b =
    div_pow-suc (bit_or a b) k
    ∙ ap (λ (t : ℕ). t / 2 ^ k) (omega (arith, bit_or_step a b))
    ∙ bit_or-shr k (a / 2) (b / 2)
    ∙ ap₂ bit_or (sym (div_pow-suc a k)) (sym (div_pow-suc b k))

pub bit_or-bit : (k a b : ℕ) → bit_or a b / 2 ^ k % 2 ≡ max (a / 2 ^ k % 2) (b / 2 ^ k % 2)
bit_or-bit k a b = omega (arith, bit_or-shr k a b, bit_or_step (a / 2 ^ k) (b / 2 ^ k))

pub complement-bit : (k a : ℕ) → k < 8 → a < 256 → (255 - a) / 2 ^ k % 2 ≡ 1 - a / 2 ^ k % 2
complement-bit zero a h byte = omega arith
complement-bit (suc zero) a h byte = omega arith
complement-bit (suc (suc zero)) a h byte = omega arith
complement-bit (suc (suc (suc zero))) a h byte = omega arith
complement-bit (suc (suc (suc (suc zero)))) a h byte = omega arith
complement-bit (suc (suc (suc (suc (suc zero))))) a h byte = omega arith
complement-bit (suc (suc (suc (suc (suc (suc zero)))))) a h byte = omega arith
complement-bit (suc (suc (suc (suc (suc (suc (suc zero))))))) a h byte = omega arith
complement-bit (suc (suc (suc (suc (suc (suc (suc (suc k)))))))) a h byte = absurd (omega arith)
