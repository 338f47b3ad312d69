-- ===== src/Base/Bits.antt =====
-- `&`, `|` and `^` of the C++ as arithmetic: masks, shifted fields and single bits.
mod Digits
pub use Digits.{bit_and_step, bit_or_step, bit_xor_step}
mod Shifts
pub use Shifts.*
mod Single
pub use Single.{bit_and-bit, bit_or-shr, bit_or-bit, complement-bit}
mod Split
pub use Split.*
use Prim.Native.Nat.{ℕ, zero, suc, ◌+◌, ◌*◌, ◌-◌, ◌/◌, ◌%◌, ◌^◌, ◌≤◌, ◌<◌, bit_and, bit_or, bit_xor}
use mathlib.Core.Path.{◌≡◌, refl, ap, ◌∙◌}
use native.Mathlib.Omega.{arith}

-- Bit `k` of a word, as the number 0 or 1.
abbrev pub bit : ℕ → ℕ → ℕ
bit k a = a / 2 ^ k % 2

-- The masks of one byte that the sources use, as remainders and quotients.
pub bit_and-0x01 : (a : ℕ) → bit_and a 0x01 ≡ a % 2
bit_and-0x01 a = bit_and_mask 1 a

pub bit_and-0x07 : (a : ℕ) → bit_and a 0x07 ≡ a % 8
bit_and-0x07 a = bit_and_mask 3 a

pub bit_and-0x0f : (a : ℕ) → bit_and a 0x0f ≡ a % 16
bit_and-0x0f a = bit_and_mask 4 a

pub bit_and-0xff : (a : ℕ) → bit_and a 0xff ≡ a % 256
bit_and-0xff a = bit_and_mask 8 a

pub bit_and-0xffff : (a : ℕ) → bit_and a 0xffff ≡ a % 65536
bit_and-0xffff a = bit_and_mask 16 a

pub bit_and-0xf0 : (a : ℕ) → bit_and a 0xf0 ≡ a / 16 % 16 * 16
bit_and-0xf0 a = omega (arith, bit_and_shifted 4 a 0x0f, bit_and_mask 4 (a / 16))

pub bit_and-0xff00 : (a : ℕ) → bit_and a 0xff00 ≡ a / 256 % 256 * 256
bit_and-0xff00 a = omega (arith, bit_and_shifted 8 a 0xff, bit_and_mask 8 (a / 256))

pub bit_and-0x80 : (a : ℕ) → bit_and a 0x80 ≡ a / 128 % 2 * 128
bit_and-0x80 a = omega (arith, bit_and_shifted 7 a 1, bit_and_mask 1 (a / 128))
