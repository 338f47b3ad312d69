-- ===== src/Cpu/Arithmetic/Adc.antt =====
-- `doADC` against the sums that it stands for.
use libsidplayfp.Base.{
  all_below, all_below_3, and_both, same, same→≡, ==_iff, ℕ, ◌+◌, ◌*◌, ◌/◌, ◌%◌, ◌<◌, bit_and,
  bit_xor, bit_and-0xff, bit_and-0x80, bit_xor-bit, Bool, true, not, ◌&&◌, ◌||◌, ◌==◌, ltb, leb,
  to_ℕ, arith, ◌≡◌, refl,
}
use libsidplayfp.Cpu.Flags.{Flags, reset_flags, set_nz, truth}
use libsidplayfp.Cpu.Arithmetic.{adc_binary, adc_decimal}

-- Two numbers of 8 bits in two's complement, each 128 higher than its value, and a carry: whether
-- their sum is out of the range from -128 to 127.
unfoldable pub overflows : (a s carry : ℕ) → Bool
overflows a s carry =
    let biased = (a + 128) % 256 + (s + 128) % 256 + carry in ltb biased 128 || leb 384 biased

module _ (a s : ℕ) (carry : Bool) (a_byte : a < 256) (s_byte : s < 256) where
  overflow_lem :
      (truth (bit_and (bit_xor (a + s + to_ℕ carry) a) 0x80)
        && not (truth (bit_and (bit_xor a s) 0x80)))
      ≡ overflows a s (to_ℕ carry)
  unfolding overflows
  overflow_lem = ground (
    arith,
    bit_and-0x80 (bit_xor (a + s + to_ℕ carry) a),
    bit_xor-bit 7 (a + s + to_ℕ carry) a,
    bit_and-0x80 (bit_xor a s),
    bit_xor-bit 7 a s,
  )

  -- In binary mode `doADC` leaves the sum of the two bytes and the carry as a byte, with C for a
  -- sum above 255, V for an overflow in two's complement, Z and N for the result; D and I stay.
  pub adc_binary_lem :
      (f : Flags)
      → adc_binary a s (to_ℕ carry) f ≡ (
        (a + s + to_ℕ carry) % 256,
        record {
          c = leb 256 (a + s + to_ℕ carry);
          z = (a + s + to_ℕ carry) % 256 == 0;
          i = f.i;
          d = f.d;
          v = overflows a s (to_ℕ carry);
          n = leb 128 ((a + s + to_ℕ carry) % 256);
        },
      )
  unfolding adc_binary set_nz
  adc_binary_lem f = ground (
    arith,
    overflow_lem,
    bit_and-0xff (a + s + to_ℕ carry),
    bit_and-0x80 ((a + s + to_ℕ carry) % 256),
  )

-- A number below 100 as two decimal digits of 4 bits each.
unfoldable pub packed : ℕ → ℕ
packed n = n / 10 % 10 * 16 + n % 10

pub to_ℕ-lt : (b : Bool) → to_ℕ b < 2
to_ℕ-lt b = ground arith

unfoldable sums_in_decimal : ℕ → ℕ → ℕ → Bool
sums_in_decimal carry m n =
    let r : ℕ × Flags = adc_decimal (packed m) (packed n) carry reset_flags in
    (r.0 == packed ((m + n + carry) % 100)) && same r.1.c (leb 100 (m + n + carry))

decimal_sweep : all_below 2 (λ c. all_below 100 (λ m. all_below 100 (sums_in_decimal c m))) ≡ true
unfolding all_below sums_in_decimal adc_decimal packed
decimal_sweep = refl

-- In decimal mode `doADC` adds two numbers below 100 of two decimal digits each and the carry: the
-- accumulator has the last two digits of the sum, and C says whether it is above 99.
pub adc_decimal_lem :
    (m n : ℕ) (carry : Bool) (f : Flags)
    → m < 100
    → n < 100
    → ((adc_decimal (packed m) (packed n) (to_ℕ carry) f).0 ≡ packed ((m + n + to_ℕ carry) % 100))
      × ((adc_decimal (packed m) (packed n) (to_ℕ carry) f).1.c ≡ leb 100 (m + n + to_ℕ carry))
unfolding sums_in_decimal adc_decimal
adc_decimal_lem m n carry f hm hn =
    let both = and_both _ _ (
      all_below_3 2 100 100 sums_in_decimal (to_ℕ carry) m n decimal_sweep (to_ℕ-lt carry) hm hn) in
    ((==_iff _ _).0 both.0, same→≡ _ _ both.1)
