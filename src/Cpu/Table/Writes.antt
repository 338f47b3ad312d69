-- ===== src/Cpu/Table/Writes.antt =====
-- The entries of the instruction table that leave the bus unwritten.
use libsidplayfp.Base.{ℕ, Bool, true, false, true≢false, ◌≡◌, refl}
use libsidplayfp.Cpu.Func.{Func}
use libsidplayfp.Cpu.State.{Cpu}
use libsidplayfp.Cpu.Execute.{execute}
use libsidplayfp.Cpu.Access.{
  throw_away_fetch, fetch_data_byte, fetch_low_addr, fetch_low_addr_x, waste_cycle,
  fetch_low_addr_y, fetch_high_addr, fetch_high_addr_x2, throw_away_read, fetch_high_addr_x,
  fetch_high_addr_y2, fetch_high_addr_y, fetch_low_pointer, fetch_high_pointer, fetch_low_eff_addr,
  fetch_high_eff_addr, fetch_low_pointer_x, fetch_high_eff_addr_y2, fetch_high_eff_addr_y,
  irq_lo_request, irq_hi_request, fetch_next_opcode, pop_sr, pop_low_pc, pop_high_pc,
  fetch_eff_addr_data_byte, interrupts_and_next_opcode, pop,
}
use libsidplayfp.Cpu.Arithmetic.{compare}
use libsidplayfp.Cpu.Official.{
  branch_taken, delay_interrupt, branch_instr, adc_instr, and_instr, asla_instr, bcc_instr,
  fix_branch, bcs_instr, beq_instr, bit_instr, bmi_instr, bne_instr, bpl_instr, bvc_instr,
  bvs_instr, clc_instr, cld_instr, cli_instr, clv_instr, cmp_instr, cpx_instr, cpy_instr, dex_instr,
  dey_instr, eor_instr, inx_instr, iny_instr, jmp_instr, lda_instr, ldx_instr, ldy_instr,
  lsra_instr, ora_instr, pla_instr, rola_instr, rora_instr, rti_instr, rts_instr, sbc_instr,
  sec_instr, sed_instr, sei_instr, tax_instr, tay_instr, tsx_instr, txa_instr, txs_instr, tya_instr,
}
use libsidplayfp.Cpu.Undocumented.{
  anc_instr, ane_instr, arr_instr, alr_instr, las_instr, lax_instr, oal_instr, sbx_instr,
}

-- The functions that call `cpuWrite`.
unfoldable pub writes : Func → Bool
writes Func.asl_instr = true
writes Func.put_eff_addr_data_byte = true
writes Func.push_high_pc = true
writes Func.brk_push_low_pc = true
writes Func.push_sr = true
writes Func.dcm_instr = true
writes Func.dec_instr = true
writes Func.inc_instr = true
writes Func.ins_instr = true
writes Func.push_low_pc = true
writes Func.lsr_instr = true
writes Func.pha_instr = true
writes Func.rla_instr = true
writes Func.rol_instr = true
writes Func.ror_instr = true
writes Func.rra_instr = true
writes Func.axs_instr = true
writes Func.axa_instr = true
writes Func.shs_instr = true
writes Func.xas_instr = true
writes Func.say_instr = true
writes Func.aso_instr = true
writes Func.lse_instr = true
writes Func.sta_instr = true
writes Func.stx_instr = true
writes Func.sty_instr = true
writes _ = false

-- A function that `writes` does not list does the same on a bus whose writes are lost.
pub execute-reads_only :
    {S : Type 0} (read : ℕ → Cpu S → ℕ × Cpu S) (write write' : ℕ → ℕ → Cpu S → Cpu S) (f : Func)
    (s : Cpu S)
    → writes f ≡ false
    → execute (record { cpu_read = read; cpu_write = write }) f s
      ≡ execute (record { cpu_read = read; cpu_write = write' }) f s
unfolding writes execute throw_away_fetch fetch_data_byte fetch_low_addr fetch_low_addr_x
    waste_cycle fetch_low_addr_y fetch_high_addr fetch_high_addr_x2 throw_away_read
    fetch_high_addr_x fetch_high_addr_y2 fetch_high_addr_y fetch_low_pointer fetch_high_pointer
    fetch_low_eff_addr fetch_high_eff_addr fetch_low_pointer_x fetch_high_eff_addr_y2
    fetch_high_eff_addr_y adc_instr anc_instr and_instr ane_instr arr_instr asla_instr alr_instr
    bcc_instr fix_branch bcs_instr beq_instr bit_instr bmi_instr bne_instr bpl_instr irq_lo_request
    irq_hi_request fetch_next_opcode bvc_instr bvs_instr clc_instr cld_instr cli_instr clv_instr
    cmp_instr cpx_instr cpy_instr dex_instr dey_instr eor_instr inx_instr iny_instr jmp_instr
    las_instr lax_instr lda_instr ldx_instr ldy_instr lsra_instr oal_instr ora_instr pla_instr
    pop_sr rola_instr rora_instr pop_low_pc pop_high_pc rti_instr rts_instr sbc_instr sbx_instr
    sec_instr sed_instr sei_instr tax_instr tay_instr tsx_instr txa_instr txs_instr tya_instr
    fetch_eff_addr_data_byte interrupts_and_next_opcode pop compare branch_instr branch_taken
    delay_interrupt
execute-reads_only read write write' Func.throw_away_fetch s h = refl
execute-reads_only read write write' Func.fetch_data_byte s h = refl
execute-reads_only read write write' Func.fetch_low_addr s h = refl
execute-reads_only read write write' Func.fetch_low_addr_x s h = refl
execute-reads_only read write write' Func.waste_cycle s h = refl
execute-reads_only read write write' Func.fetch_low_addr_y s h = refl
execute-reads_only read write write' Func.fetch_high_addr s h = refl
execute-reads_only read write write' Func.fetch_high_addr_x2 s h = refl
execute-reads_only read write write' Func.throw_away_read s h = refl
execute-reads_only read write write' Func.fetch_high_addr_x s h = refl
execute-reads_only read write write' Func.fetch_high_addr_y2 s h = refl
execute-reads_only read write write' Func.fetch_high_addr_y s h = refl
execute-reads_only read write write' Func.fetch_low_pointer s h = refl
execute-reads_only read write write' Func.fetch_high_pointer s h = refl
execute-reads_only read write write' Func.fetch_low_eff_addr s h = refl
execute-reads_only read write write' Func.fetch_high_eff_addr s h = refl
execute-reads_only read write write' Func.fetch_low_pointer_x s h = refl
execute-reads_only read write write' Func.fetch_high_eff_addr_y2 s h = refl
execute-reads_only read write write' Func.fetch_high_eff_addr_y s h = refl
execute-reads_only read write write' Func.adc_instr s h = refl
execute-reads_only read write write' Func.anc_instr s h = refl
execute-reads_only read write write' Func.and_instr s h = refl
execute-reads_only read write write' Func.ane_instr s h = refl
execute-reads_only read write write' Func.arr_instr s h = refl
execute-reads_only read write write' Func.asla_instr s h = refl
execute-reads_only read write write' Func.asl_instr s h = absurd (true≢false h)
execute-reads_only read write write' Func.put_eff_addr_data_byte s h = absurd (true≢false h)
execute-reads_only read write write' Func.alr_instr s h = refl
execute-reads_only read write write' Func.bcc_instr s h = refl
execute-reads_only read write write' Func.fix_branch s h = refl
execute-reads_only read write write' Func.bcs_instr s h = refl
execute-reads_only read write write' Func.beq_instr s h = refl
execute-reads_only read write write' Func.bit_instr s h = refl
execute-reads_only read write write' Func.bmi_instr s h = refl
execute-reads_only read write write' Func.bne_instr s h = refl
execute-reads_only read write write' Func.bpl_instr s h = refl
execute-reads_only read write write' Func.push_high_pc s h = absurd (true≢false h)
execute-reads_only read write write' Func.brk_push_low_pc s h = absurd (true≢false h)
execute-reads_only read write write' Func.push_sr s h = absurd (true≢false h)
execute-reads_only read write write' Func.irq_lo_request s h = refl
execute-reads_only read write write' Func.irq_hi_request s h = refl
execute-reads_only read write write' Func.fetch_next_opcode s h = refl
execute-reads_only read write write' Func.bvc_instr s h = refl
execute-reads_only read write write' Func.bvs_instr s h = refl
execute-reads_only read write write' Func.clc_instr s h = refl
execute-reads_only read write write' Func.cld_instr s h = refl
execute-reads_only read write write' Func.cli_instr s h = refl
execute-reads_only read write write' Func.clv_instr s h = refl
execute-reads_only read write write' Func.cmp_instr s h = refl
execute-reads_only read write write' Func.cpx_instr s h = refl
execute-reads_only read write write' Func.cpy_instr s h = refl
execute-reads_only read write write' Func.dcm_instr s h = absurd (true≢false h)
execute-reads_only read write write' Func.dec_instr s h = absurd (true≢false h)
execute-reads_only read write write' Func.dex_instr s h = refl
execute-reads_only read write write' Func.dey_instr s h = refl
execute-reads_only read write write' Func.eor_instr s h = refl
execute-reads_only read write write' Func.inc_instr s h = absurd (true≢false h)
execute-reads_only read write write' Func.inx_instr s h = refl
execute-reads_only read write write' Func.iny_instr s h = refl
execute-reads_only read write write' Func.ins_instr s h = absurd (true≢false h)
execute-reads_only read write write' Func.push_low_pc s h = absurd (true≢false h)
execute-reads_only read write write' Func.jmp_instr s h = refl
execute-reads_only read write write' Func.las_instr s h = refl
execute-reads_only read write write' Func.lax_instr s h = refl
execute-reads_only read write write' Func.lda_instr s h = refl
execute-reads_only read write write' Func.ldx_instr s h = refl
execute-reads_only read write write' Func.ldy_instr s h = refl
execute-reads_only read write write' Func.lsra_instr s h = refl
execute-reads_only read write write' Func.lsr_instr s h = absurd (true≢false h)
execute-reads_only read write write' Func.oal_instr s h = refl
execute-reads_only read write write' Func.ora_instr s h = refl
execute-reads_only read write write' Func.pha_instr s h = absurd (true≢false h)
execute-reads_only read write write' Func.pla_instr s h = refl
execute-reads_only read write write' Func.pop_sr s h = refl
execute-reads_only read write write' Func.rla_instr s h = absurd (true≢false h)
execute-reads_only read write write' Func.rola_instr s h = refl
execute-reads_only read write write' Func.rol_instr s h = absurd (true≢false h)
execute-reads_only read write write' Func.rora_instr s h = refl
execute-reads_only read write write' Func.ror_instr s h = absurd (true≢false h)
execute-reads_only read write write' Func.rra_instr s h = absurd (true≢false h)
execute-reads_only read write write' Func.pop_low_pc s h = refl
execute-reads_only read write write' Func.pop_high_pc s h = refl
execute-reads_only read write write' Func.rti_instr s h = refl
execute-reads_only read write write' Func.rts_instr s h = refl
execute-reads_only read write write' Func.axs_instr s h = absurd (true≢false h)
execute-reads_only read write write' Func.sbc_instr s h = refl
execute-reads_only read write write' Func.sbx_instr s h = refl
execute-reads_only read write write' Func.sec_instr s h = refl
execute-reads_only read write write' Func.sed_instr s h = refl
execute-reads_only read write write' Func.sei_instr s h = refl
execute-reads_only read write write' Func.axa_instr s h = absurd (true≢false h)
execute-reads_only read write write' Func.shs_instr s h = absurd (true≢false h)
execute-reads_only read write write' Func.xas_instr s h = absurd (true≢false h)
execute-reads_only read write write' Func.say_instr s h = absurd (true≢false h)
execute-reads_only read write write' Func.aso_instr s h = absurd (true≢false h)
execute-reads_only read write write' Func.lse_instr s h = absurd (true≢false h)
execute-reads_only read write write' Func.sta_instr s h = absurd (true≢false h)
execute-reads_only read write write' Func.stx_instr s h = absurd (true≢false h)
execute-reads_only read write write' Func.sty_instr s h = absurd (true≢false h)
execute-reads_only read write write' Func.tax_instr s h = refl
execute-reads_only read write write' Func.tay_instr s h = refl
execute-reads_only read write write' Func.tsx_instr s h = refl
execute-reads_only read write write' Func.txa_instr s h = refl
execute-reads_only read write write' Func.txs_instr s h = refl
execute-reads_only read write write' Func.tya_instr s h = refl
execute-reads_only read write write' Func.fetch_eff_addr_data_byte s h = refl
execute-reads_only read write write' Func.interrupts_and_next_opcode s h = refl
execute-reads_only read write write' Func.invalid_opcode s h = refl
