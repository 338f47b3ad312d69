-- ===== src/Cpu/Execute.antt =====
-- src/c64/CPU/mos6510.cpp: the functions of the instruction table as one function, the call
-- `(instr.func)(*this)`.
use libsidplayfp.Cpu.State.{Cpu, Bus}
use libsidplayfp.Cpu.Func.{Func}
use libsidplayfp.Cpu.Access.{
  throw_away_fetch, fetch_data_byte, fetch_low_addr, fetch_low_addr_x, waste_cycle,
  fetch_low_addr_y, fetch_high_addr, fetch_high_addr_x2, throw_away_read, fetch_high_addr_x,
  fetch_high_addr_y2, fetch_high_addr_y, fetch_low_pointer, fetch_high_pointer, fetch_low_eff_addr,
  fetch_high_eff_addr, fetch_low_pointer_x, fetch_high_eff_addr_y2, fetch_high_eff_addr_y,
  put_eff_addr_data_byte, push_high_pc, brk_push_low_pc, push_sr, irq_lo_request, irq_hi_request,
  fetch_next_opcode, push_low_pc, pop_sr, pop_low_pc, pop_high_pc, fetch_eff_addr_data_byte,
  interrupts_and_next_opcode,
}
use libsidplayfp.Cpu.Official.{
  adc_instr, and_instr, asla_instr, asl_instr, bcc_instr, fix_branch, bcs_instr, beq_instr,
  bit_instr, bmi_instr, bne_instr, bpl_instr, bvc_instr, bvs_instr, clc_instr, cld_instr, cli_instr,
  clv_instr, cmp_instr, cpx_instr, cpy_instr, dec_instr, dex_instr, dey_instr, eor_instr, inc_instr,
  inx_instr, iny_instr, jmp_instr, lda_instr, ldx_instr, ldy_instr, lsra_instr, lsr_instr,
  ora_instr, pha_instr, pla_instr, rola_instr, rol_instr, rora_instr, ror_instr, rti_instr,
  rts_instr, sbc_instr, sec_instr, sed_instr, sei_instr, sta_instr, stx_instr, sty_instr, tax_instr,
  tay_instr, tsx_instr, txa_instr, txs_instr, tya_instr,
}
use libsidplayfp.Cpu.Undocumented.{
  anc_instr, ane_instr, arr_instr, alr_instr, dcm_instr, ins_instr, las_instr, lax_instr, oal_instr,
  rla_instr, rra_instr, axs_instr, sbx_instr, axa_instr, shs_instr, xas_instr, say_instr, aso_instr,
  lse_instr,
}

-- The CPU runs on, `haltInstruction` is thrown, or the C++ is undefined.
pub data Outcome (S : Type 0) : Type 0 where
  running : Cpu S → Outcome S
  halted : Cpu S → Outcome S
  undefined : Cpu S → Outcome S

module _ {S : Type 0} (bus : Bus S) where
  unfoldable pub execute : Func → Cpu S → Outcome S
  execute Func.throw_away_fetch s = running (throw_away_fetch bus s)
  execute Func.fetch_data_byte s = running (fetch_data_byte bus s)
  execute Func.fetch_low_addr s = running (fetch_low_addr bus s)
  execute Func.fetch_low_addr_x s = running (fetch_low_addr_x bus s)
  execute Func.waste_cycle s = running (waste_cycle bus s)
  execute Func.fetch_low_addr_y s = running (fetch_low_addr_y bus s)
  execute Func.fetch_high_addr s = running (fetch_high_addr bus s)
  execute Func.fetch_high_addr_x2 s = running (fetch_high_addr_x2 bus s)
  execute Func.throw_away_read s = running (throw_away_read bus s)
  execute Func.fetch_high_addr_x s = running (fetch_high_addr_x bus s)
  execute Func.fetch_high_addr_y2 s = running (fetch_high_addr_y2 bus s)
  execute Func.fetch_high_addr_y s = running (fetch_high_addr_y bus s)
  execute Func.fetch_low_pointer s = running (fetch_low_pointer bus s)
  execute Func.fetch_high_pointer s = running (fetch_high_pointer bus s)
  execute Func.fetch_low_eff_addr s = running (fetch_low_eff_addr bus s)
  execute Func.fetch_high_eff_addr s = running (fetch_high_eff_addr bus s)
  execute Func.fetch_low_pointer_x s = running (fetch_low_pointer_x bus s)
  execute Func.fetch_high_eff_addr_y2 s = running (fetch_high_eff_addr_y2 bus s)
  execute Func.fetch_high_eff_addr_y s = running (fetch_high_eff_addr_y bus s)
  execute Func.adc_instr s = running (adc_instr bus s)
  execute Func.anc_instr s = running (anc_instr bus s)
  execute Func.and_instr s = running (and_instr bus s)
  execute Func.ane_instr s = running (ane_instr bus s)
  execute Func.arr_instr s = running (arr_instr bus s)
  execute Func.asla_instr s = running (asla_instr bus s)
  execute Func.asl_instr s = running (asl_instr bus s)
  execute Func.put_eff_addr_data_byte s = running (put_eff_addr_data_byte bus s)
  execute Func.alr_instr s = running (alr_instr bus s)
  execute Func.bcc_instr s = running (bcc_instr bus s)
  execute Func.fix_branch s = running (fix_branch bus s)
  execute Func.bcs_instr s = running (bcs_instr bus s)
  execute Func.beq_instr s = running (beq_instr bus s)
  execute Func.bit_instr s = running (bit_instr bus s)
  execute Func.bmi_instr s = running (bmi_instr bus s)
  execute Func.bne_instr s = running (bne_instr bus s)
  execute Func.bpl_instr s = running (bpl_instr bus s)
  execute Func.push_high_pc s = running (push_high_pc bus s)
  execute Func.brk_push_low_pc s = running (brk_push_low_pc bus s)
  execute Func.push_sr s = running (push_sr bus s)
  execute Func.irq_lo_request s = running (irq_lo_request bus s)
  execute Func.irq_hi_request s = running (irq_hi_request bus s)
  execute Func.fetch_next_opcode s = running (fetch_next_opcode bus s)
  execute Func.bvc_instr s = running (bvc_instr bus s)
  execute Func.bvs_instr s = running (bvs_instr bus s)
  execute Func.clc_instr s = running (clc_instr bus s)
  execute Func.cld_instr s = running (cld_instr bus s)
  execute Func.cli_instr s = running (cli_instr bus s)
  execute Func.clv_instr s = running (clv_instr bus s)
  execute Func.cmp_instr s = running (cmp_instr bus s)
  execute Func.cpx_instr s = running (cpx_instr bus s)
  execute Func.cpy_instr s = running (cpy_instr bus s)
  execute Func.dcm_instr s = running (dcm_instr bus s)
  execute Func.dec_instr s = running (dec_instr bus s)
  execute Func.dex_instr s = running (dex_instr bus s)
  execute Func.dey_instr s = running (dey_instr bus s)
  execute Func.eor_instr s = running (eor_instr bus s)
  execute Func.inc_instr s = running (inc_instr bus s)
  execute Func.inx_instr s = running (inx_instr bus s)
  execute Func.iny_instr s = running (iny_instr bus s)
  execute Func.ins_instr s = running (ins_instr bus s)
  execute Func.push_low_pc s = running (push_low_pc bus s)
  execute Func.jmp_instr s = running (jmp_instr bus s)
  execute Func.las_instr s = running (las_instr bus s)
  execute Func.lax_instr s = running (lax_instr bus s)
  execute Func.lda_instr s = running (lda_instr bus s)
  execute Func.ldx_instr s = running (ldx_instr bus s)
  execute Func.ldy_instr s = running (ldy_instr bus s)
  execute Func.lsra_instr s = running (lsra_instr bus s)
  execute Func.lsr_instr s = running (lsr_instr bus s)
  execute Func.oal_instr s = running (oal_instr bus s)
  execute Func.ora_instr s = running (ora_instr bus s)
  execute Func.pha_instr s = running (pha_instr bus s)
  execute Func.pla_instr s = running (pla_instr bus s)
  execute Func.pop_sr s = running (pop_sr bus s)
  execute Func.rla_instr s = running (rla_instr bus s)
  execute Func.rola_instr s = running (rola_instr bus s)
  execute Func.rol_instr s = running (rol_instr bus s)
  execute Func.rora_instr s = running (rora_instr bus s)
  execute Func.ror_instr s = running (ror_instr bus s)
  execute Func.rra_instr s = running (rra_instr bus s)
  execute Func.pop_low_pc s = running (pop_low_pc bus s)
  execute Func.pop_high_pc s = running (pop_high_pc bus s)
  execute Func.rti_instr s = running (rti_instr bus s)
  execute Func.rts_instr s = running (rts_instr bus s)
  execute Func.axs_instr s = running (axs_instr bus s)
  execute Func.sbc_instr s = running (sbc_instr bus s)
  execute Func.sbx_instr s = running (sbx_instr bus s)
  execute Func.sec_instr s = running (sec_instr bus s)
  execute Func.sed_instr s = running (sed_instr bus s)
  execute Func.sei_instr s = running (sei_instr bus s)
  execute Func.axa_instr s = running (axa_instr bus s)
  execute Func.shs_instr s = running (shs_instr bus s)
  execute Func.xas_instr s = running (xas_instr bus s)
  execute Func.say_instr s = running (say_instr bus s)
  execute Func.aso_instr s = running (aso_instr bus s)
  execute Func.lse_instr s = running (lse_instr bus s)
  execute Func.sta_instr s = running (sta_instr bus s)
  execute Func.stx_instr s = running (stx_instr bus s)
  execute Func.sty_instr s = running (sty_instr bus s)
  execute Func.tax_instr s = running (tax_instr bus s)
  execute Func.tay_instr s = running (tay_instr bus s)
  execute Func.tsx_instr s = running (tsx_instr bus s)
  execute Func.txa_instr s = running (txa_instr bus s)
  execute Func.txs_instr s = running (txs_instr bus s)
  execute Func.tya_instr s = running (tya_instr bus s)
  execute Func.fetch_eff_addr_data_byte s = running (fetch_eff_addr_data_byte bus s)
  execute Func.interrupts_and_next_opcode s = running (interrupts_and_next_opcode bus s)
  execute Func.invalid_opcode s = halted s
