-- ===== src/Cpu/Undocumented.antt =====
-- src/c64/CPU/mos6510.cpp: the undocumented instructions, each from its own function.
use libsidplayfp.Base.{
  ℕ, ◌+◌, ◌-◌, ◌*◌, ◌/◌, ◌^◌, bit_and, bit_or, bit_xor, ◌==◌, ltb, if◌then◌else◌,
}
use libsidplayfp.Endian.{get_16hi8, set_16hi8}
use libsidplayfp.Cpu.Flags.{truth}
use libsidplayfp.Cpu.State.{Cpu, Bus, u8, u32, set_c, set_z, set_v, set_n}
use libsidplayfp.Cpu.Access.{
  interrupts_and_next_opcode, put_eff_addr_data_byte, put_data, put_address,
}
use libsidplayfp.Cpu.Arithmetic.{do_adc, do_sbc, compare_with}
use libsidplayfp.Cpu.Official.{load_a, load_x, load_data, rolled, rored}

abbrev pub lxa_magic : ℕ
lxa_magic = 0xee

abbrev pub ane_magic : ℕ
ane_magic = 0xef

module _ {S : Type 0} where
  -- `arr_instr` in decimal mode: the accumulator and the flags. `data` is the operand masked by
  -- the accumulator, `ror` that rotated.
  unfoldable pub arr_decimal : (data_and ror : ℕ) → Cpu S → Cpu S
  arr_decimal data_and ror s =
      let low_fixed =
        if ltb 5 (bit_and data_and 0x0f + bit_and data_and 0x01)
        then bit_or (bit_and ror 0xf0) (bit_and (ror + 6) 0x0f)
        else ror in
      let carry = ltb 0x50 (bit_and (data_and + bit_and data_and 0x10) 0x1f0) in
      let result = if carry then u8 (low_fixed + 0x60) else low_fixed in
      let t : Cpu S = set_c carry (
        set_v (truth (bit_and (bit_xor data_and ror) 0x40))
          (set_z (ror == 0) (set_n s.flags.c s))) in
      record t { accumulator = result }

  -- The same in binary mode.
  unfoldable pub arr_binary : (ror : ℕ) → Cpu S → Cpu S
  arr_binary ror s =
      set_v (truth (bit_xor (bit_and ror 0x40) (bit_and ror 0x20 * 2)))
        (set_c (truth (bit_and ror 0x40)) (load_a ror s))

module _ {S : Type 0} (bus : Bus S) where
  unfoldable pub sh_instr : Cpu S → Cpu S
  sh_instr s =
      let high = get_16hi8 s.effective_address in
      let tmp = if s.adl_carry then high else u8 (high + 1) in
      let t : Cpu S =
        (if s.adl_carry
          then put_address (set_16hi8 s.effective_address (bit_and high s.data_byte)) s
          else s) in
      put_eff_addr_data_byte bus
        (if t.rdy_on_throw_away_read then t else put_data (bit_and t.data_byte tmp) t)

  unfoldable pub axa_instr : Cpu S → Cpu S
  axa_instr s = sh_instr (put_data (bit_and s.x s.accumulator) s)

  unfoldable pub say_instr : Cpu S → Cpu S
  say_instr s = sh_instr (put_data s.y s)

  unfoldable pub xas_instr : Cpu S → Cpu S
  xas_instr s = sh_instr (put_data s.x s)

  unfoldable pub axs_instr : Cpu S → Cpu S
  axs_instr s = put_eff_addr_data_byte bus (put_data (bit_and s.accumulator s.x) s)

  unfoldable pub ane_instr : Cpu S → Cpu S
  ane_instr s =
      interrupts_and_next_opcode bus
        (load_a (bit_and (bit_and (bit_or s.accumulator ane_magic) s.x) s.data_byte) s)

  unfoldable pub sbx_instr : Cpu S → Cpu S
  sbx_instr s =
      let tmp = u32 (bit_and s.x s.accumulator + 2 ^ 32 - s.data_byte) in
      interrupts_and_next_opcode bus (set_c (ltb tmp 0x100) (load_x (bit_and tmp 0xff) s))

  unfoldable pub shs_instr : Cpu S → Cpu S
  shs_instr s =
      let sp = bit_and s.accumulator s.x in sh_instr (put_data sp (record s { stack_pointer = sp }))

  unfoldable pub alr_instr : Cpu S → Cpu S
  alr_instr s =
      let masked = bit_and s.accumulator s.data_byte in
      interrupts_and_next_opcode bus (load_a (masked / 2) (set_c (truth (bit_and masked 0x01)) s))

  unfoldable pub anc_instr : Cpu S → Cpu S
  anc_instr s =
      let t : Cpu S = load_a (bit_and s.accumulator s.data_byte) s in
      interrupts_and_next_opcode bus (set_c t.flags.n t)

  unfoldable pub arr_instr : Cpu S → Cpu S
  arr_instr s =
      let data_and = bit_and s.data_byte s.accumulator in
      let ror = rored s.flags.c data_and in
      interrupts_and_next_opcode bus
        (if s.flags.d then arr_decimal data_and ror s else arr_binary ror s)

  unfoldable pub aso_instr : Cpu S → Cpu S
  aso_instr s =
      let t : Cpu S = put_eff_addr_data_byte bus s in
      let shifted = u8 (t.data_byte * 2) in
      load_a (bit_or t.accumulator shifted)
        (put_data shifted (set_c (truth (bit_and t.data_byte 0x80)) t))

  unfoldable pub dcm_instr : Cpu S → Cpu S
  dcm_instr s =
      let t : Cpu S = put_eff_addr_data_byte bus s in
      let u : Cpu S = put_data (u8 (t.data_byte + 255)) t in compare_with u.accumulator u

  unfoldable pub ins_instr : Cpu S → Cpu S
  ins_instr s =
      let t : Cpu S = put_eff_addr_data_byte bus s in do_sbc (put_data (u8 (t.data_byte + 1)) t)

  unfoldable pub las_instr : Cpu S → Cpu S
  las_instr s =
      let masked = bit_and s.data_byte s.stack_pointer in
      let t : Cpu S = load_data masked s in
      interrupts_and_next_opcode bus
        (record t { accumulator = masked; x = masked; stack_pointer = masked })

  unfoldable pub lax_instr : Cpu S → Cpu S
  lax_instr s = interrupts_and_next_opcode bus (load_a s.data_byte (record s { x = s.data_byte }))

  unfoldable pub lse_instr : Cpu S → Cpu S
  lse_instr s =
      let t : Cpu S = put_eff_addr_data_byte bus s in
      let shifted = t.data_byte / 2 in
      load_a (bit_xor t.accumulator shifted)
        (put_data shifted (set_c (truth (bit_and t.data_byte 0x01)) t))

  unfoldable pub oal_instr : Cpu S → Cpu S
  oal_instr s =
      let value = bit_and s.data_byte (bit_or s.accumulator lxa_magic) in
      interrupts_and_next_opcode bus (load_x value (record s { accumulator = value }))

  unfoldable pub rla_instr : Cpu S → Cpu S
  rla_instr s =
      let new_c = bit_and s.data_byte 0x80 in
      let t : Cpu S = put_eff_addr_data_byte bus s in
      let byte = rolled t.flags.c t.data_byte in
      load_a (bit_and t.accumulator byte) (set_c (truth new_c) (put_data byte t))

  unfoldable pub rra_instr : Cpu S → Cpu S
  rra_instr s =
      let new_c = bit_and s.data_byte 0x01 in
      let t : Cpu S = put_eff_addr_data_byte bus s in
      do_adc (set_c (truth new_c) (put_data (rored t.flags.c t.data_byte) t))
