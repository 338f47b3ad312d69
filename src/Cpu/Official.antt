-- ===== src/Cpu/Official.antt =====
-- src/c64/CPU/mos6510.cpp: the documented instructions, each from its own function.
pub mod Branches
use libsidplayfp.Base.{
  same, ℕ, ◌+◌, ◌*◌, ◌/◌, ◌%◌, ◌^◌, bit_and, bit_or, bit_xor, Bool, true, false, not, xor, ◌&&◌,
  ◌||◌, ◌==◌, ◌!=◌, ltb, if◌then◌else◌,
}
use libsidplayfp.Endian.{get_16lo8, get_16hi8, set_16hi8}
use libsidplayfp.Cpu.Flags.{truth}
use libsidplayfp.Cpu.State.{
  Cpu, Bus, u8, u16, cycle_bias, never, calculate_interrupt_trigger_cycle, set_c, set_z, set_i,
  set_d, set_v, set_n, set_nz, reading,
}
use libsidplayfp.Cpu.Access.{
  interrupts_and_next_opcode, put_eff_addr_data_byte, push, pop, next_pc, put_data,
}
use libsidplayfp.Cpu.Arithmetic.{do_adc, do_sbc, compare}

-- The values that the rotations leave: the carry comes in at the free end.

abbrev pub rolled : Bool → ℕ → ℕ
rolled carry byte = if carry then bit_or (u8 (byte * 2)) 0x01 else u8 (byte * 2)

abbrev pub rored : Bool → ℕ → ℕ
rored carry byte = if carry then bit_or (byte / 2) 0x80 else byte / 2

module _ {S : Type 0} where
  -- A register and the flags of its value: `flags.setNZ(Register_Accumulator = value)`
  abbrev pub load_a : ℕ → Cpu S → Cpu S
  load_a value s = set_nz value (record s { accumulator = value })

  abbrev pub load_x : ℕ → Cpu S → Cpu S
  load_x value s = set_nz value (record s { x = value })

  abbrev pub load_y : ℕ → Cpu S → Cpu S
  load_y value s = set_nz value (record s { y = value })

  abbrev pub load_data : ℕ → Cpu S → Cpu S
  load_data value s = set_nz value (put_data value s)

  -- `branch_instr` when the branch is taken, up to the change of the interrupt cycle
  unfoldable pub branch_taken : Cpu S → Cpu S
  branch_taken s =
      let target = u16 (get_16lo8 s.program_counter + s.data_byte) in
      let carry = not (same (ltb 0xff target) (ltb 0x7f s.data_byte)) in
      let address = set_16hi8 target (get_16hi8 s.program_counter) in
      let t : Cpu S = record s {
        effective_address = address;
        adl_carry = carry;
        program_counter = address;
      } in
      if carry then t else record t { cycle_count = t.cycle_count + 1 }

  -- A branch within its page delays an interrupt past the instruction.
  unfoldable pub delay_interrupt : Cpu S → Cpu S
  delay_interrupt s =
      if not s.adl_carry && (s.interrupt_cycle / 2 ^ 3 == (s.cycle_count + cycle_bias) / 2 ^ 3)
      then record s { interrupt_cycle = s.interrupt_cycle + 2 }
      else s

module _ {S : Type 0} (bus : Bus S) where
  unfoldable pub cld_instr : Cpu S → Cpu S
  cld_instr s = interrupts_and_next_opcode bus (set_d false s)

  unfoldable pub cli_instr : Cpu S → Cpu S
  cli_instr s = interrupts_and_next_opcode bus (calculate_interrupt_trigger_cycle (set_i false s))

  unfoldable pub jmp_instr : Cpu S → Cpu S
  jmp_instr s = interrupts_and_next_opcode bus (record s { program_counter = s.effective_address })

  unfoldable pub pha_instr : Cpu S → Cpu S
  pha_instr s = push bus s.accumulator s

  unfoldable pub rti_instr : Cpu S → Cpu S
  rti_instr s = interrupts_and_next_opcode bus (record s { program_counter = s.effective_address })

  unfoldable pub rts_instr : Cpu S → Cpu S
  rts_instr s =
      reading bus s.effective_address
        (λ v t. next_pc (record t { program_counter = t.effective_address })) s

  unfoldable pub sed_instr : Cpu S → Cpu S
  sed_instr s = interrupts_and_next_opcode bus (set_d true s)

  unfoldable pub sei_instr : Cpu S → Cpu S
  sei_instr s =
      let t : Cpu S = interrupts_and_next_opcode bus (set_i true s) in
      if not t.rst_flag && (not t.nmi_flag && t.interrupt_cycle != never)
      then record t { interrupt_cycle = never }
      else t

  unfoldable pub sta_instr : Cpu S → Cpu S
  sta_instr s = put_eff_addr_data_byte bus (put_data s.accumulator s)

  unfoldable pub stx_instr : Cpu S → Cpu S
  stx_instr s = put_eff_addr_data_byte bus (put_data s.x s)

  unfoldable pub sty_instr : Cpu S → Cpu S
  sty_instr s = put_eff_addr_data_byte bus (put_data s.y s)

  unfoldable pub adc_instr : Cpu S → Cpu S
  adc_instr s = interrupts_and_next_opcode bus (do_adc s)

  unfoldable pub and_instr : Cpu S → Cpu S
  and_instr s = interrupts_and_next_opcode bus (load_a (bit_and s.accumulator s.data_byte) s)

  unfoldable pub asl_instr : Cpu S → Cpu S
  asl_instr s =
      let t : Cpu S = put_eff_addr_data_byte bus s in
      load_data (u8 (t.data_byte * 2)) (set_c (truth (bit_and t.data_byte 0x80)) t)

  unfoldable pub asla_instr : Cpu S → Cpu S
  asla_instr s =
      interrupts_and_next_opcode bus
        (load_a (u8 (s.accumulator * 2)) (set_c (truth (bit_and s.accumulator 0x80)) s))

  unfoldable pub fix_branch : Cpu S → Cpu S
  fix_branch s =
      reading bus s.effective_address
        (λ v t. record t {
          program_counter =
              u16 (t.program_counter + (if ltb t.data_byte 0x80 then 0x0100 else 0xff00));
        })
        s

  unfoldable pub branch_instr : Bool → Cpu S → Cpu S
  branch_instr condition s =
      let next : Cpu S = interrupts_and_next_opcode bus s in
      let branch : Cpu S =
        reading bus s.program_counter (λ v t. delay_interrupt (branch_taken t)) s in
      if condition then branch else next

  unfoldable pub bcc_instr : Cpu S → Cpu S
  bcc_instr s = branch_instr (not s.flags.c) s

  unfoldable pub bcs_instr : Cpu S → Cpu S
  bcs_instr s = branch_instr s.flags.c s

  unfoldable pub beq_instr : Cpu S → Cpu S
  beq_instr s = branch_instr s.flags.z s

  unfoldable pub bit_instr : Cpu S → Cpu S
  bit_instr s = interrupts_and_next_opcode bus (
      set_v (truth (bit_and s.data_byte 0x40)) (
        set_n (truth (bit_and s.data_byte 0x80))
          (set_z (bit_and s.accumulator s.data_byte == 0) s)))

  unfoldable pub bmi_instr : Cpu S → Cpu S
  bmi_instr s = branch_instr s.flags.n s

  unfoldable pub bne_instr : Cpu S → Cpu S
  bne_instr s = branch_instr (not s.flags.z) s

  unfoldable pub bpl_instr : Cpu S → Cpu S
  bpl_instr s = branch_instr (not s.flags.n) s

  unfoldable pub bvc_instr : Cpu S → Cpu S
  bvc_instr s = branch_instr (not s.flags.v) s

  unfoldable pub bvs_instr : Cpu S → Cpu S
  bvs_instr s = branch_instr s.flags.v s

  unfoldable pub clc_instr : Cpu S → Cpu S
  clc_instr s = interrupts_and_next_opcode bus (set_c false s)

  unfoldable pub clv_instr : Cpu S → Cpu S
  clv_instr s = interrupts_and_next_opcode bus (set_v false s)

  unfoldable pub cmp_instr : Cpu S → Cpu S
  cmp_instr s = compare bus s.accumulator s

  unfoldable pub cpx_instr : Cpu S → Cpu S
  cpx_instr s = compare bus s.x s

  unfoldable pub cpy_instr : Cpu S → Cpu S
  cpy_instr s = compare bus s.y s

  unfoldable pub dec_instr : Cpu S → Cpu S
  dec_instr s = let t : Cpu S = put_eff_addr_data_byte bus s in load_data (u8 (t.data_byte + 255)) t

  unfoldable pub dex_instr : Cpu S → Cpu S
  dex_instr s = interrupts_and_next_opcode bus (load_x (u8 (s.x + 255)) s)

  unfoldable pub dey_instr : Cpu S → Cpu S
  dey_instr s = interrupts_and_next_opcode bus (load_y (u8 (s.y + 255)) s)

  unfoldable pub eor_instr : Cpu S → Cpu S
  eor_instr s = interrupts_and_next_opcode bus (load_a (bit_xor s.accumulator s.data_byte) s)

  unfoldable pub inc_instr : Cpu S → Cpu S
  inc_instr s = let t : Cpu S = put_eff_addr_data_byte bus s in load_data (u8 (t.data_byte + 1)) t

  unfoldable pub inx_instr : Cpu S → Cpu S
  inx_instr s = interrupts_and_next_opcode bus (load_x (u8 (s.x + 1)) s)

  unfoldable pub iny_instr : Cpu S → Cpu S
  iny_instr s = interrupts_and_next_opcode bus (load_y (u8 (s.y + 1)) s)

  unfoldable pub lda_instr : Cpu S → Cpu S
  lda_instr s = interrupts_and_next_opcode bus (load_a s.data_byte s)

  unfoldable pub ldx_instr : Cpu S → Cpu S
  ldx_instr s = interrupts_and_next_opcode bus (load_x s.data_byte s)

  unfoldable pub ldy_instr : Cpu S → Cpu S
  ldy_instr s = interrupts_and_next_opcode bus (load_y s.data_byte s)

  unfoldable pub lsr_instr : Cpu S → Cpu S
  lsr_instr s =
      let t : Cpu S = put_eff_addr_data_byte bus s in
      load_data (t.data_byte / 2) (set_c (truth (bit_and t.data_byte 0x01)) t)

  unfoldable pub lsra_instr : Cpu S → Cpu S
  lsra_instr s =
      interrupts_and_next_opcode bus
        (load_a (s.accumulator / 2) (set_c (truth (bit_and s.accumulator 0x01)) s))

  unfoldable pub ora_instr : Cpu S → Cpu S
  ora_instr s = interrupts_and_next_opcode bus (load_a (bit_or s.accumulator s.data_byte) s)

  unfoldable pub pla_instr : Cpu S → Cpu S
  pla_instr s = pop bus (λ v t. load_a v t) s

  unfoldable pub rol_instr : Cpu S → Cpu S
  rol_instr s =
      let new_c = bit_and s.data_byte 0x80 in
      let t : Cpu S = put_eff_addr_data_byte bus s in
      set_c (truth new_c) (load_data (rolled t.flags.c t.data_byte) t)

  unfoldable pub rola_instr : Cpu S → Cpu S
  rola_instr s =
      let new_c = bit_and s.accumulator 0x80 in
      interrupts_and_next_opcode bus
        (set_c (truth new_c) (load_a (rolled s.flags.c s.accumulator) s))

  unfoldable pub ror_instr : Cpu S → Cpu S
  ror_instr s =
      let new_c = bit_and s.data_byte 0x01 in
      let t : Cpu S = put_eff_addr_data_byte bus s in
      set_c (truth new_c) (load_data (rored t.flags.c t.data_byte) t)

  unfoldable pub rora_instr : Cpu S → Cpu S
  rora_instr s =
      let new_c = bit_and s.accumulator 0x01 in
      interrupts_and_next_opcode bus
        (set_c (truth new_c) (load_a (rored s.flags.c s.accumulator) s))

  unfoldable pub sbc_instr : Cpu S → Cpu S
  sbc_instr s = interrupts_and_next_opcode bus (do_sbc s)

  unfoldable pub sec_instr : Cpu S → Cpu S
  sec_instr s = interrupts_and_next_opcode bus (set_c true s)

  unfoldable pub tax_instr : Cpu S → Cpu S
  tax_instr s = interrupts_and_next_opcode bus (load_x s.accumulator s)

  unfoldable pub tay_instr : Cpu S → Cpu S
  tay_instr s = interrupts_and_next_opcode bus (load_y s.accumulator s)

  unfoldable pub tsx_instr : Cpu S → Cpu S
  tsx_instr s = interrupts_and_next_opcode bus (load_x s.stack_pointer s)

  unfoldable pub txa_instr : Cpu S → Cpu S
  txa_instr s = interrupts_and_next_opcode bus (load_a s.x s)

  unfoldable pub txs_instr : Cpu S → Cpu S
  txs_instr s = interrupts_and_next_opcode bus (record s { stack_pointer = s.x })

  unfoldable pub tya_instr : Cpu S → Cpu S
  tya_instr s = interrupts_and_next_opcode bus (load_a s.y s)
