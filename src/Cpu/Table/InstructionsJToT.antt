-- ===== src/Cpu/Table/InstructionsJToT.antt =====
-- src/c64/CPU/mos6510.cpp, `buildInstructionTable`: the switch on the instructions, JSR to TYA.
use libsidplayfp.Base.{false, List, [], ◌∷◌, ◌++◌}
use libsidplayfp.Cpu.Func.{Func, cycle, nosteal_cycle}
use libsidplayfp.Cpu.Table.Rows.{Row}
use libsidplayfp.Cpu.Opcodes.{
  jsr_w, jmp_w, jmp_i, las_ay, lax_z, lax_zy, lax_a, lax_ay, lax_ix, lax_iy, lda_z, lda_zx, lda_a,
  lda_ax, lda_ay, lda_ix, lda_iy, lda_b, ldx_z, ldx_zy, ldx_a, ldx_ay, ldx_b, ldy_z, ldy_zx, ldy_a,
  ldy_ax, ldy_b, lsr_n, lsr_z, lsr_zx, lsr_a, lsr_ax, nop_n_all, nop_b_all, nop_z_all, nop_zx_all,
  nop_a, nop_ax_all, lxa_b, ora_z, ora_zx, ora_a, ora_ax, ora_ay, ora_ix, ora_iy, ora_b, pha_n,
  php_n, pla_n, plp_n, rla_z, rla_zx, rla_ix, rla_a, rla_ax, rla_ay, rla_iy, rol_n, rol_z, rol_zx,
  rol_a, rol_ax, ror_n, ror_z, ror_zx, ror_a, ror_ax, rra_a, rra_ax, rra_ay, rra_z, rra_zx, rra_ix,
  rra_iy, rti_n, rts_n, sax_z, sax_zy, sax_a, sax_ix, sbc_z, sbc_zx, sbc_a, sbc_ax, sbc_ay, sbc_ix,
  sbc_iy, sbc_b_all, sbx_b, sec_n, sed_n, sei_n, sha_ay, sha_iy, shs_ay, shx_ay, shy_ax, slo_z,
  slo_zx, slo_a, slo_ax, slo_ay, slo_ix, slo_iy, sre_z, sre_zx, sre_a, sre_ax, sre_ay, sre_ix,
  sre_iy, sta_z, sta_zx, sta_a, sta_ax, sta_ay, sta_ix, sta_iy, stx_z, stx_zy, stx_a, sty_z, sty_zx,
  sty_a, tax_n, tay_n, tsx_n, txa_n, txs_n, tya_n,
}

unfoldable pub instructions_jsr_to_rra : List Row
instructions_jsr_to_rra =
    record {
      opcodes = jsr_w ∷ [];
      reads = false;
      cycles =
          cycle Func.waste_cycle
          ∷ nosteal_cycle Func.push_high_pc
          ∷ nosteal_cycle Func.push_low_pc
          ∷ cycle Func.fetch_high_addr
          ∷ cycle Func.jmp_instr
          ∷ [];
    }
    ∷ record { opcodes = jmp_w ∷ jmp_i ∷ []; reads = false; cycles = cycle Func.jmp_instr ∷ [] }
    ∷ record { opcodes = las_ay ∷ []; reads = false; cycles = cycle Func.las_instr ∷ [] }
    ∷ record {
      opcodes = lax_z ∷ lax_zy ∷ lax_a ∷ lax_ay ∷ lax_ix ∷ lax_iy ∷ [];
      reads = false;
      cycles = cycle Func.lax_instr ∷ [];
    }
    ∷ record {
      opcodes = lda_z ∷ lda_zx ∷ lda_a ∷ lda_ax ∷ lda_ay ∷ lda_ix ∷ lda_iy ∷ lda_b ∷ [];
      reads = false;
      cycles = cycle Func.lda_instr ∷ [];
    }
    ∷ record {
      opcodes = ldx_z ∷ ldx_zy ∷ ldx_a ∷ ldx_ay ∷ ldx_b ∷ [];
      reads = false;
      cycles = cycle Func.ldx_instr ∷ [];
    }
    ∷ record {
      opcodes = ldy_z ∷ ldy_zx ∷ ldy_a ∷ ldy_ax ∷ ldy_b ∷ [];
      reads = false;
      cycles = cycle Func.ldy_instr ∷ [];
    }
    ∷ record { opcodes = lsr_n ∷ []; reads = false; cycles = cycle Func.lsra_instr ∷ [] }
    ∷ record {
      opcodes = lsr_z ∷ lsr_zx ∷ lsr_a ∷ lsr_ax ∷ [];
      reads = false;
      cycles = nosteal_cycle Func.lsr_instr ∷ nosteal_cycle Func.put_eff_addr_data_byte ∷ [];
    }
    ∷ record {
      opcodes = nop_n_all ++ nop_b_all ++ nop_z_all ++ nop_zx_all ++ (nop_a ∷ []) ++ nop_ax_all;
      reads = false;
      cycles = [];
    }
    ∷ record { opcodes = lxa_b ∷ []; reads = false; cycles = cycle Func.oal_instr ∷ [] }
    ∷ record {
      opcodes = ora_z ∷ ora_zx ∷ ora_a ∷ ora_ax ∷ ora_ay ∷ ora_ix ∷ ora_iy ∷ ora_b ∷ [];
      reads = false;
      cycles = cycle Func.ora_instr ∷ [];
    }
    ∷ record { opcodes = pha_n ∷ []; reads = false; cycles = nosteal_cycle Func.pha_instr ∷ [] }
    ∷ record { opcodes = php_n ∷ []; reads = false; cycles = nosteal_cycle Func.push_sr ∷ [] }
    ∷ record {
      opcodes = pla_n ∷ [];
      reads = false;
      cycles = cycle Func.waste_cycle ∷ cycle Func.pla_instr ∷ [];
    }
    ∷ record {
      opcodes = plp_n ∷ [];
      reads = false;
      cycles = cycle Func.waste_cycle ∷ cycle Func.pop_sr ∷ [];
    }
    ∷ record {
      opcodes = rla_z ∷ rla_zx ∷ rla_ix ∷ rla_a ∷ rla_ax ∷ rla_ay ∷ rla_iy ∷ [];
      reads = false;
      cycles = nosteal_cycle Func.rla_instr ∷ nosteal_cycle Func.put_eff_addr_data_byte ∷ [];
    }
    ∷ record { opcodes = rol_n ∷ []; reads = false; cycles = cycle Func.rola_instr ∷ [] }
    ∷ record {
      opcodes = rol_z ∷ rol_zx ∷ rol_a ∷ rol_ax ∷ [];
      reads = false;
      cycles = nosteal_cycle Func.rol_instr ∷ nosteal_cycle Func.put_eff_addr_data_byte ∷ [];
    }
    ∷ record { opcodes = ror_n ∷ []; reads = false; cycles = cycle Func.rora_instr ∷ [] }
    ∷ record {
      opcodes = ror_z ∷ ror_zx ∷ ror_a ∷ ror_ax ∷ [];
      reads = false;
      cycles = nosteal_cycle Func.ror_instr ∷ nosteal_cycle Func.put_eff_addr_data_byte ∷ [];
    }
    ∷ record {
      opcodes = rra_a ∷ rra_ax ∷ rra_ay ∷ rra_z ∷ rra_zx ∷ rra_ix ∷ rra_iy ∷ [];
      reads = false;
      cycles = nosteal_cycle Func.rra_instr ∷ nosteal_cycle Func.put_eff_addr_data_byte ∷ [];
    }
    ∷ record {
      opcodes = rti_n ∷ [];
      reads = false;
      cycles =
          cycle Func.waste_cycle
          ∷ cycle Func.pop_sr
          ∷ cycle Func.pop_low_pc
          ∷ cycle Func.pop_high_pc
          ∷ cycle Func.rti_instr
          ∷ [];
    }
    ∷ []

unfoldable pub instructions_rti_to_tya : List Row
instructions_rti_to_tya =
    record {
      opcodes = rts_n ∷ [];
      reads = false;
      cycles =
          cycle Func.waste_cycle
          ∷ cycle Func.pop_low_pc
          ∷ cycle Func.pop_high_pc
          ∷ cycle Func.rts_instr
          ∷ [];
    }
    ∷ record {
      opcodes = sax_z ∷ sax_zy ∷ sax_a ∷ sax_ix ∷ [];
      reads = false;
      cycles = nosteal_cycle Func.axs_instr ∷ [];
    }
    ∷ record {
      opcodes = (sbc_z ∷ sbc_zx ∷ sbc_a ∷ sbc_ax ∷ sbc_ay ∷ sbc_ix ∷ sbc_iy ∷ []) ++ sbc_b_all;
      reads = false;
      cycles = cycle Func.sbc_instr ∷ [];
    }
    ∷ record { opcodes = sbx_b ∷ []; reads = false; cycles = cycle Func.sbx_instr ∷ [] }
    ∷ record { opcodes = sec_n ∷ []; reads = false; cycles = cycle Func.sec_instr ∷ [] }
    ∷ record { opcodes = sed_n ∷ []; reads = false; cycles = cycle Func.sed_instr ∷ [] }
    ∷ record { opcodes = sei_n ∷ []; reads = false; cycles = cycle Func.sei_instr ∷ [] }
    ∷ record {
      opcodes = sha_ay ∷ sha_iy ∷ [];
      reads = false;
      cycles = nosteal_cycle Func.axa_instr ∷ [];
    }
    ∷ record { opcodes = shs_ay ∷ []; reads = false; cycles = nosteal_cycle Func.shs_instr ∷ [] }
    ∷ record { opcodes = shx_ay ∷ []; reads = false; cycles = nosteal_cycle Func.xas_instr ∷ [] }
    ∷ record { opcodes = shy_ax ∷ []; reads = false; cycles = nosteal_cycle Func.say_instr ∷ [] }
    ∷ record {
      opcodes = slo_z ∷ slo_zx ∷ slo_a ∷ slo_ax ∷ slo_ay ∷ slo_ix ∷ slo_iy ∷ [];
      reads = false;
      cycles = nosteal_cycle Func.aso_instr ∷ nosteal_cycle Func.put_eff_addr_data_byte ∷ [];
    }
    ∷ record {
      opcodes = sre_z ∷ sre_zx ∷ sre_a ∷ sre_ax ∷ sre_ay ∷ sre_ix ∷ sre_iy ∷ [];
      reads = false;
      cycles = nosteal_cycle Func.lse_instr ∷ nosteal_cycle Func.put_eff_addr_data_byte ∷ [];
    }
    ∷ record {
      opcodes = sta_z ∷ sta_zx ∷ sta_a ∷ sta_ax ∷ sta_ay ∷ sta_ix ∷ sta_iy ∷ [];
      reads = false;
      cycles = nosteal_cycle Func.sta_instr ∷ [];
    }
    ∷ record {
      opcodes = stx_z ∷ stx_zy ∷ stx_a ∷ [];
      reads = false;
      cycles = nosteal_cycle Func.stx_instr ∷ [];
    }
    ∷ record {
      opcodes = sty_z ∷ sty_zx ∷ sty_a ∷ [];
      reads = false;
      cycles = nosteal_cycle Func.sty_instr ∷ [];
    }
    ∷ record { opcodes = tax_n ∷ []; reads = false; cycles = cycle Func.tax_instr ∷ [] }
    ∷ record { opcodes = tay_n ∷ []; reads = false; cycles = cycle Func.tay_instr ∷ [] }
    ∷ record { opcodes = tsx_n ∷ []; reads = false; cycles = cycle Func.tsx_instr ∷ [] }
    ∷ record { opcodes = txa_n ∷ []; reads = false; cycles = cycle Func.txa_instr ∷ [] }
    ∷ record { opcodes = txs_n ∷ []; reads = false; cycles = cycle Func.txs_instr ∷ [] }
    ∷ record { opcodes = tya_n ∷ []; reads = false; cycles = cycle Func.tya_instr ∷ [] }
    ∷ []
