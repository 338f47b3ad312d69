-- ===== src/Cpu/Arithmetic.antt =====
-- src/c64/CPU/mos6510.cpp: `doADC`, `doSBC` and `compare`. An `unsigned int` has 32 bits.
pub mod Adc
pub mod Sbc
use libsidplayfp.Base.{
  ℕ, ◌+◌, ◌-◌, ◌*◌, ◌/◌, ◌%◌, ◌^◌, bit_and, bit_or, bit_xor, Bool, true, false, not, ◌&&◌, ◌==◌,
  ltb, to_ℕ, if◌then◌else◌,
}
use libsidplayfp.Cpu.Flags.{Flags, truth}
use libsidplayfp.Cpu.Flags
use libsidplayfp.Cpu.State.{Cpu, Bus, u8, u16, u32, set_c, set_nz}
use libsidplayfp.Cpu.Access.{interrupts_and_next_opcode}

-- The accumulator and the flags after `doADC` in decimal mode.
unfoldable pub adc_decimal : (a s carry : ℕ) → Flags → ℕ × Flags
adc_decimal a s carry f =
    let sum = a + s + carry in
    let low = bit_and a 0x0f + bit_and s 0x0f + carry in
    let high = bit_and a 0xf0 + bit_and s 0xf0 in
    let low_fixed = if ltb 0x09 low then low + 0x06 else low in
    let high_carried = if ltb 0x0f low_fixed then high + 0x10 else high in
    let high_fixed = if ltb 0x90 high_carried then high_carried + 0x60 else high_carried in
    let n = truth (bit_and high_carried 0x80) in
    let v =
      truth (bit_and (bit_xor high_carried a) 0x80) && not (truth (bit_and (bit_xor a s) 0x80)) in
    (
      u8 (bit_or high_fixed (bit_and low_fixed 0x0f)),
      record f { z = not (truth (bit_and sum 0xff)); n = n; v = v; c = ltb 0xff high_fixed },
    )

-- The same in binary mode.
unfoldable pub adc_binary : (a s carry : ℕ) → Flags → ℕ × Flags
adc_binary a s carry f =
    let sum = a + s + carry in
    let v = truth (bit_and (bit_xor sum a) 0x80) && not (truth (bit_and (bit_xor a s) 0x80)) in
    (bit_and sum 0xff, Flags.set_nz (bit_and sum 0xff) (record f { c = ltb 0xff sum; v = v }))

-- The accumulator after `doSBC` in decimal mode.
unfoldable pub sbc_decimal : (a s borrow : ℕ) → ℕ
sbc_decimal a s borrow =
    let low = u32 (bit_and a 0x0f + 2 ^ 32 - bit_and s 0x0f + 2 ^ 32 - borrow) in
    let high = u32 (bit_and a 0xf0 + 2 ^ 32 - bit_and s 0xf0) in
    let borrowed = truth (bit_and low 0x10) in
    let low_fixed = if borrowed then u32 (low + 2 ^ 32 - 0x06) else low in
    let high_borrowed = if borrowed then u32 (high + 2 ^ 32 - 0x10) else high in
    let high_fixed =
      if truth (bit_and high_borrowed 0x100)
      then u32 (high_borrowed + 2 ^ 32 - 0x60)
      else high_borrowed in
    u8 (bit_or high_fixed (bit_and low_fixed 0x0f))

-- `regAC2`
unfoldable pub sbc_difference : (a s borrow : ℕ) → ℕ
sbc_difference a s borrow = u32 (a + 2 ^ 32 - s + 2 ^ 32 - borrow)

unfoldable pub sbc_flags : (a s borrow : ℕ) → Flags → Flags
sbc_flags a s borrow f =
    let difference = sbc_difference a s borrow in
    let v = truth (bit_and (bit_xor difference a) 0x80) && truth (bit_and (bit_xor a s) 0x80) in
    Flags.set_nz difference (record f { c = ltb difference 0x100; v = v })

module _ {S : Type 0} where
  -- `doADC`
  unfoldable pub do_adc : Cpu S → Cpu S
  do_adc s =
      let r : ℕ × Flags =
        if s.flags.d
        then adc_decimal s.accumulator s.data_byte (to_ℕ s.flags.c) s.flags
        else adc_binary s.accumulator s.data_byte (to_ℕ s.flags.c) s.flags in
      record s { accumulator = r.0; flags = r.1 }

  -- `doSBC`
  unfoldable pub do_sbc : Cpu S → Cpu S
  do_sbc s =
      let borrow = to_ℕ (not s.flags.c) in
      let result =
        if s.flags.d
        then sbc_decimal s.accumulator s.data_byte borrow
        else bit_and (sbc_difference s.accumulator s.data_byte borrow) 0xff in
      record s { accumulator = result; flags = sbc_flags s.accumulator s.data_byte borrow s.flags }

  -- `compare` up to the call of `interruptsAndNextOpcode`
  unfoldable pub compare_with : ℕ → Cpu S → Cpu S
  compare_with byte s =
      let difference = u16 (byte + 2 ^ 16 - s.data_byte) in
      set_c (ltb difference 0x100) (set_nz difference s)

module _ {S : Type 0} (bus : Bus S) where
  unfoldable pub compare : ℕ → Cpu S → Cpu S
  compare byte s = interrupts_and_next_opcode bus (compare_with byte s)
