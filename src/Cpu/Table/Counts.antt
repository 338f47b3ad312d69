-- ===== src/Cpu/Table/Counts.antt =====
-- How often a function of the instruction table writes to the bus.
use libsidplayfp.Base.{ℕ, suc, ◌≡◌, refl, ◌∙◌, arith, Bool, if◌then◌else◌}
use libsidplayfp.Cpu.Func.{Func}
use libsidplayfp.Cpu.State.{Cpu, Bus, calculate_interrupt_trigger_cycle}
use libsidplayfp.Cpu.Execute.{Outcome, running, halted, undefined, execute}
use libsidplayfp.Cpu.Table.Writes.{writes}
use libsidplayfp.Cpu.Access.{
  skip_unless_carry, put_eff_addr_data_byte, push_high_pc, brk_push_low_pc, push_sr, push_low_pc,
  push, throw_away_fetch, fetch_data_byte, fetch_low_addr, fetch_low_addr_x, waste_cycle,
  fetch_low_addr_y, fetch_high_addr, fetch_high_addr_x2, throw_away_read, fetch_high_addr_x,
  fetch_high_addr_y2, fetch_high_addr_y, fetch_low_pointer, fetch_high_pointer, fetch_low_eff_addr,
  fetch_high_eff_addr, fetch_low_pointer_x, fetch_high_eff_addr_y2, fetch_high_eff_addr_y,
  irq_lo_request, irq_hi_request, fetch_next_opcode, pop_sr, pop_low_pc, pop_high_pc,
  fetch_eff_addr_data_byte, interrupts_and_next_opcode, pop,
}
use libsidplayfp.Cpu.Arithmetic.{do_adc, do_sbc, compare_with, compare}
use libsidplayfp.Cpu.Official.{
  asl_instr, dec_instr, inc_instr, pha_instr, lsr_instr, rol_instr, ror_instr, sta_instr, stx_instr,
  sty_instr, branch_taken, delay_interrupt, branch_instr, adc_instr, and_instr, asla_instr,
  bcc_instr, fix_branch, bcs_instr, beq_instr, bit_instr, bmi_instr, bne_instr, bpl_instr,
  bvc_instr, bvs_instr, clc_instr, cld_instr, cli_instr, clv_instr, cmp_instr, cpx_instr, cpy_instr,
  dex_instr, dey_instr, eor_instr, inx_instr, iny_instr, jmp_instr, lda_instr, ldx_instr, ldy_instr,
  lsra_instr, ora_instr, pla_instr, rola_instr, rora_instr, rti_instr, rts_instr, sbc_instr,
  sec_instr, sed_instr, sei_instr, tax_instr, tay_instr, tsx_instr, txa_instr, txs_instr, tya_instr,
}
use libsidplayfp.Cpu.Undocumented.{
  arr_decimal, arr_binary, sh_instr, dcm_instr, ins_instr, rla_instr, rra_instr, axs_instr,
  axa_instr, shs_instr, xas_instr, say_instr, aso_instr, lse_instr, anc_instr, ane_instr, arr_instr,
  alr_instr, las_instr, lax_instr, oal_instr, sbx_instr,
}

-- A bus whose reads give the bytes of a memory, and whose writes are counted
abbrev pub counting : (ℕ → ℕ) → Bus ℕ
counting bytes = record {
  cpu_read = λ a s. (bytes a, s);
  cpu_write = λ a v s. record s { rest = suc s.rest };
}

-- The writes that were counted
abbrev pub count : Outcome ℕ → ℕ
count (running s) = s.rest
count (halted s) = s.rest
count (undefined s) = s.rest

-- What keeps the number of writes
calculate_keeps : (s : Cpu ℕ) → (calculate_interrupt_trigger_cycle s).rest ≡ s.rest
unfolding calculate_interrupt_trigger_cycle
calculate_keeps s = ground arith

skip_keeps : (s : Cpu ℕ) → (skip_unless_carry s).rest ≡ s.rest
skip_keeps s = ground arith

module _ (bytes : ℕ → ℕ) where
  fetch_next_opcode_keeps : (s : Cpu ℕ) → (fetch_next_opcode (counting bytes) s).rest ≡ s.rest
  unfolding fetch_next_opcode
  fetch_next_opcode_keeps s = ground arith

  next_keeps : (s : Cpu ℕ) → (interrupts_and_next_opcode (counting bytes) s).rest ≡ s.rest
  unfolding interrupts_and_next_opcode fetch_next_opcode
  next_keeps s = ground arith

  fetch_data_byte_keeps : (s : Cpu ℕ) → (fetch_data_byte (counting bytes) s).rest ≡ s.rest
  unfolding fetch_data_byte
  fetch_data_byte_keeps s = ground arith

  throw_away_read_keeps : (s : Cpu ℕ) → (throw_away_read (counting bytes) s).rest ≡ s.rest
  unfolding throw_away_read
  throw_away_read_keeps s = ground arith

  sei_keeps : (s : Cpu ℕ) → (sei_instr (counting bytes) s).rest ≡ s.rest
  unfolding sei_instr interrupts_and_next_opcode fetch_next_opcode
  sei_keeps s = ground arith

  branch_keeps :
      (condition : Bool) (s : Cpu ℕ) → (branch_instr (counting bytes) condition s).rest ≡ s.rest
  unfolding branch_instr branch_taken delay_interrupt fetch_next_opcode interrupts_and_next_opcode
      calculate_interrupt_trigger_cycle
  branch_keeps condition s = ground arith

  arr_keeps : (s : Cpu ℕ) → (arr_instr (counting bytes) s).rest ≡ s.rest
  unfolding arr_instr arr_decimal arr_binary interrupts_and_next_opcode fetch_next_opcode
  arr_keeps s = ground arith

  sh_writes : (s : Cpu ℕ) → (sh_instr (counting bytes) s).rest ≡ suc s.rest
  unfolding sh_instr put_eff_addr_data_byte
  sh_writes s = ground arith

-- A function of the table writes to the bus exactly once if `writes` lists it, and never otherwise.
pub count-execute :
    (bytes : ℕ → ℕ) (f : Func) (s : Cpu ℕ)
    → count (execute (counting bytes) f s) ≡ (if writes f then suc s.rest else s.rest)
unfolding writes execute throw_away_fetch fetch_low_addr fetch_low_addr_x waste_cycle
    fetch_low_addr_y fetch_high_addr fetch_high_addr_x2 fetch_high_addr_x fetch_high_addr_y2
    fetch_high_addr_y fetch_low_pointer fetch_high_pointer fetch_low_eff_addr fetch_high_eff_addr
    fetch_low_pointer_x fetch_high_eff_addr_y2 fetch_high_eff_addr_y adc_instr anc_instr and_instr
    ane_instr asla_instr alr_instr bcc_instr fix_branch bcs_instr beq_instr bit_instr bmi_instr
    bne_instr bpl_instr irq_lo_request irq_hi_request bvc_instr bvs_instr clc_instr cld_instr
    cli_instr clv_instr cmp_instr cpx_instr cpy_instr dex_instr dey_instr eor_instr inx_instr
    iny_instr jmp_instr las_instr lax_instr lda_instr ldx_instr ldy_instr lsra_instr oal_instr
    ora_instr pla_instr pop_sr rola_instr rora_instr pop_low_pc pop_high_pc rti_instr rts_instr
    sbc_instr sbx_instr sec_instr sed_instr tax_instr tay_instr tsx_instr txa_instr txs_instr
    tya_instr fetch_eff_addr_data_byte pop compare asl_instr dec_instr inc_instr pha_instr lsr_instr
    rol_instr ror_instr sta_instr stx_instr sty_instr dcm_instr ins_instr rla_instr rra_instr
    axs_instr axa_instr shs_instr xas_instr say_instr aso_instr lse_instr put_eff_addr_data_byte
    push_high_pc brk_push_low_pc push_sr push_low_pc push do_adc do_sbc compare_with
count-execute bytes Func.throw_away_fetch s = refl
count-execute bytes Func.fetch_data_byte s = fetch_data_byte_keeps bytes s
count-execute bytes Func.fetch_low_addr s = refl
count-execute bytes Func.fetch_low_addr_x s = refl
count-execute bytes Func.waste_cycle s = refl
count-execute bytes Func.fetch_low_addr_y s = refl
count-execute bytes Func.fetch_high_addr s = refl
count-execute bytes Func.fetch_high_addr_x2 s = skip_keeps _
count-execute bytes Func.throw_away_read s = throw_away_read_keeps bytes s
count-execute bytes Func.fetch_high_addr_x s = refl
count-execute bytes Func.fetch_high_addr_y2 s = skip_keeps _
count-execute bytes Func.fetch_high_addr_y s = refl
count-execute bytes Func.fetch_low_pointer s = refl
count-execute bytes Func.fetch_high_pointer s = refl
count-execute bytes Func.fetch_low_eff_addr s = refl
count-execute bytes Func.fetch_high_eff_addr s = refl
count-execute bytes Func.fetch_low_pointer_x s = refl
count-execute bytes Func.fetch_high_eff_addr_y2 s = skip_keeps _
count-execute bytes Func.fetch_high_eff_addr_y s = refl
count-execute bytes Func.adc_instr s = next_keeps bytes _
count-execute bytes Func.anc_instr s = next_keeps bytes _
count-execute bytes Func.and_instr s = next_keeps bytes _
count-execute bytes Func.ane_instr s = next_keeps bytes _
count-execute bytes Func.arr_instr s = arr_keeps bytes s
count-execute bytes Func.asla_instr s = next_keeps bytes _
count-execute bytes Func.asl_instr s = refl
count-execute bytes Func.put_eff_addr_data_byte s = refl
count-execute bytes Func.alr_instr s = next_keeps bytes _
count-execute bytes Func.bcc_instr s = branch_keeps bytes _ s
count-execute bytes Func.fix_branch s = refl
count-execute bytes Func.bcs_instr s = branch_keeps bytes _ s
count-execute bytes Func.beq_instr s = branch_keeps bytes _ s
count-execute bytes Func.bit_instr s = next_keeps bytes _
count-execute bytes Func.bmi_instr s = branch_keeps bytes _ s
count-execute bytes Func.bne_instr s = branch_keeps bytes _ s
count-execute bytes Func.bpl_instr s = branch_keeps bytes _ s
count-execute bytes Func.push_high_pc s = refl
count-execute bytes Func.brk_push_low_pc s = calculate_keeps _
count-execute bytes Func.push_sr s = refl
count-execute bytes Func.irq_lo_request s = refl
count-execute bytes Func.irq_hi_request s = refl
count-execute bytes Func.fetch_next_opcode s = fetch_next_opcode_keeps bytes s
count-execute bytes Func.bvc_instr s = branch_keeps bytes _ s
count-execute bytes Func.bvs_instr s = branch_keeps bytes _ s
count-execute bytes Func.clc_instr s = next_keeps bytes _
count-execute bytes Func.cld_instr s = next_keeps bytes _
count-execute bytes Func.cli_instr s = next_keeps bytes _ ∙ calculate_keeps _
count-execute bytes Func.clv_instr s = next_keeps bytes _
count-execute bytes Func.cmp_instr s = next_keeps bytes _
count-execute bytes Func.cpx_instr s = next_keeps bytes _
count-execute bytes Func.cpy_instr s = next_keeps bytes _
count-execute bytes Func.dcm_instr s = refl
count-execute bytes Func.dec_instr s = refl
count-execute bytes Func.dex_instr s = next_keeps bytes _
count-execute bytes Func.dey_instr s = next_keeps bytes _
count-execute bytes Func.eor_instr s = next_keeps bytes _
count-execute bytes Func.inc_instr s = refl
count-execute bytes Func.inx_instr s = next_keeps bytes _
count-execute bytes Func.iny_instr s = next_keeps bytes _
count-execute bytes Func.ins_instr s = refl
count-execute bytes Func.push_low_pc s = refl
count-execute bytes Func.jmp_instr s = next_keeps bytes _
count-execute bytes Func.las_instr s = next_keeps bytes _
count-execute bytes Func.lax_instr s = next_keeps bytes _
count-execute bytes Func.lda_instr s = next_keeps bytes _
count-execute bytes Func.ldx_instr s = next_keeps bytes _
count-execute bytes Func.ldy_instr s = next_keeps bytes _
count-execute bytes Func.lsra_instr s = next_keeps bytes _
count-execute bytes Func.lsr_instr s = refl
count-execute bytes Func.oal_instr s = next_keeps bytes _
count-execute bytes Func.ora_instr s = next_keeps bytes _
count-execute bytes Func.pha_instr s = refl
count-execute bytes Func.pla_instr s = refl
count-execute bytes Func.pop_sr s = calculate_keeps _
count-execute bytes Func.rla_instr s = refl
count-execute bytes Func.rola_instr s = next_keeps bytes _
count-execute bytes Func.rol_instr s = refl
count-execute bytes Func.rora_instr s = next_keeps bytes _
count-execute bytes Func.ror_instr s = refl
count-execute bytes Func.rra_instr s = refl
count-execute bytes Func.pop_low_pc s = refl
count-execute bytes Func.pop_high_pc s = refl
count-execute bytes Func.rti_instr s = next_keeps bytes _
count-execute bytes Func.rts_instr s = refl
count-execute bytes Func.axs_instr s = refl
count-execute bytes Func.sbc_instr s = next_keeps bytes _
count-execute bytes Func.sbx_instr s = next_keeps bytes _
count-execute bytes Func.sec_instr s = next_keeps bytes _
count-execute bytes Func.sed_instr s = next_keeps bytes _
count-execute bytes Func.sei_instr s = sei_keeps bytes s
count-execute bytes Func.axa_instr s = sh_writes bytes _
count-execute bytes Func.shs_instr s = sh_writes bytes _
count-execute bytes Func.xas_instr s = sh_writes bytes _
count-execute bytes Func.say_instr s = sh_writes bytes _
count-execute bytes Func.aso_instr s = refl
count-execute bytes Func.lse_instr s = refl
count-execute bytes Func.sta_instr s = refl
count-execute bytes Func.stx_instr s = refl
count-execute bytes Func.sty_instr s = refl
count-execute bytes Func.tax_instr s = next_keeps bytes _
count-execute bytes Func.tay_instr s = next_keeps bytes _
count-execute bytes Func.tsx_instr s = next_keeps bytes _
count-execute bytes Func.txa_instr s = next_keeps bytes _
count-execute bytes Func.txs_instr s = next_keeps bytes _
count-execute bytes Func.tya_instr s = next_keeps bytes _
count-execute bytes Func.fetch_eff_addr_data_byte s = refl
count-execute bytes Func.interrupts_and_next_opcode s = next_keeps bytes _
count-execute bytes Func.invalid_opcode s = refl
