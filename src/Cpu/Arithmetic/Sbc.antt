-- ===== src/Cpu/Arithmetic/Sbc.antt =====
-- `doSBC` and `compare` against the differences that they stand for.
use libsidplayfp.Base.{
  all_below, all_below_3, ==_iff, ℕ, ◌+◌, ◌-◌, ◌%◌, ◌<◌, bit_and, bit_xor, bit_and-0xff,
  bit_and-0x80, bit_xor-bit, Bool, true, ◌&&◌, ◌||◌, ◌==◌, ltb, leb, to_ℕ, arith, ◌≡◌, refl,
}
use libsidplayfp.Cpu.Flags.{Flags, set_nz, truth}
use libsidplayfp.Cpu.Arithmetic.{sbc_difference, sbc_decimal, sbc_flags}
use libsidplayfp.Cpu.Arithmetic.Adc.{packed, to_ℕ-lt}

-- Two numbers of 8 bits in two's complement, each 128 higher than its value, and a borrow: whether
-- their difference is out of the range from -128 to 127.
unfoldable pub underflows : (a s borrow : ℕ) → Bool
underflows a s borrow =
    let left = (a + 128) % 256 + 256 in
    let right = (s + 128) % 256 + borrow in ltb left (right + 128) || leb (right + 384) left

module _ (a s : ℕ) (borrow : Bool) (a_byte : a < 256) (s_byte : s < 256) where
  -- In binary mode `doSBC` leaves the difference as a byte.
  pub sbc_binary_lem :
      bit_and (sbc_difference a s (to_ℕ borrow)) 0xff ≡ (a + 512 - (s + to_ℕ borrow)) % 256
  unfolding sbc_difference
  sbc_binary_lem = ground (arith, bit_and-0xff (sbc_difference a s (to_ℕ borrow)))

  overflow_lem :
      (truth (bit_and (bit_xor (sbc_difference a s (to_ℕ borrow)) a) 0x80)
        && truth (bit_and (bit_xor a s) 0x80))
      ≡ underflows a s (to_ℕ borrow)
  unfolding sbc_difference underflows
  overflow_lem = ground (
    arith,
    bit_and-0x80 (bit_xor (sbc_difference a s (to_ℕ borrow)) a),
    bit_xor-bit 7 (sbc_difference a s (to_ℕ borrow)) a,
    bit_and-0x80 (bit_xor a s),
    bit_xor-bit 7 a s,
  )

  -- In both modes `doSBC` sets C unless it borrows, V for an overflow in two's complement, and Z
  -- and N for the difference as a byte; D and I stay.
  pub sbc_flags_lem :
      (f : Flags)
      → sbc_flags a s (to_ℕ borrow) f ≡ record {
        c = leb (s + to_ℕ borrow) a;
        z = (a + 512 - (s + to_ℕ borrow)) % 256 == 0;
        i = f.i;
        d = f.d;
        v = underflows a s (to_ℕ borrow);
        n = leb 128 ((a + 512 - (s + to_ℕ borrow)) % 256);
      }
  unfolding sbc_flags sbc_difference set_nz
  sbc_flags_lem f =
      ground (arith, overflow_lem, bit_and-0x80 (sbc_difference a s (to_ℕ borrow) % 256))

unfoldable differs_in_decimal : ℕ → ℕ → ℕ → Bool
differs_in_decimal borrow m n =
    sbc_decimal (packed m) (packed n) borrow == packed ((m + 200 - (n + borrow)) % 100)

decimal_sweep :
    all_below 2 (λ b. all_below 100 (λ m. all_below 100 (differs_in_decimal b m))) ≡ true
unfolding all_below differs_in_decimal sbc_decimal packed
decimal_sweep = refl

-- In decimal mode `doSBC` subtracts a number below 100 of two decimal digits and the borrow from
-- another: the accumulator has the difference, plus 100 where it would be negative.
pub sbc_decimal_lem :
    (m n : ℕ) (borrow : Bool)
    → m < 100
    → n < 100
    → sbc_decimal (packed m) (packed n) (to_ℕ borrow) ≡ packed ((m + 200 - (n + to_ℕ borrow)) % 100)
unfolding differs_in_decimal
sbc_decimal_lem m n borrow hm hn = (==_iff _ _).0 (
    all_below_3 2 100 100 differs_in_decimal (to_ℕ borrow) m n decimal_sweep (to_ℕ-lt borrow) hm hn)
