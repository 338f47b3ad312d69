-- ===== src/Cpu/Table/Modes.antt =====
-- src/c64/CPU/mos6510.cpp, `buildInstructionTable`: the switch on the addressing modes.
use libsidplayfp.Base.{true, false, List, [], ◌∷◌, ◌++◌}
use libsidplayfp.Cpu.Func.{Func, cycle}
use libsidplayfp.Cpu.Table.Rows.{Row}
use libsidplayfp.Cpu.Opcodes.{
  asl_n, clc_n, cld_n, cli_n, clv_n, dex_n, dey_n, inx_n, iny_n, lsr_n, nop_n_all, pha_n, php_n,
  pla_n, plp_n, rol_n, ror_n, sec_n, sed_n, sei_n, tax_n, tay_n, tsx_n, txa_n, txs_n, tya_n, adc_b,
  and_b, anc_b_all, ane_b, asr_b, arr_b, bcc_r, bcs_r, beq_r, bmi_r, bne_r, bpl_r, brk_n, bvc_r,
  bvs_r, cmp_b, cpx_b, cpy_b, eor_b, lda_b, ldx_b, ldy_b, lxa_b, nop_b_all, ora_b, sbc_b_all, sbx_b,
  rti_n, rts_n, adc_z, and_z, bit_z, cmp_z, cpx_z, cpy_z, eor_z, lax_z, lda_z, ldx_z, ldy_z, ora_z,
  nop_z_all, sbc_z, asl_z, dcp_z, dec_z, inc_z, isb_z, lsr_z, rol_z, ror_z, sre_z, slo_z, rla_z,
  rra_z, sax_z, sta_z, stx_z, sty_z, adc_zx, and_zx, cmp_zx, eor_zx, lda_zx, ldy_zx, nop_zx_all,
  ora_zx, sbc_zx, asl_zx, dcp_zx, dec_zx, inc_zx, isb_zx, lsr_zx, rla_zx, rol_zx, ror_zx, rra_zx,
  slo_zx, sre_zx, sta_zx, sty_zx, ldx_zy, lax_zy, stx_zy, sax_zy, adc_a, and_a, bit_a, cmp_a, cpx_a,
  cpy_a, eor_a, lax_a, lda_a, ldx_a, ldy_a, nop_a, ora_a, sbc_a, asl_a, dcp_a, dec_a, inc_a, isb_a,
  lsr_a, rol_a, ror_a, slo_a, sre_a, rla_a, rra_a, jmp_w, sax_a, sta_a, stx_a, sty_a, jsr_w, adc_ax,
  and_ax, cmp_ax, eor_ax, lda_ax, ldy_ax, nop_ax_all, ora_ax, sbc_ax, asl_ax, dcp_ax, dec_ax,
  inc_ax, isb_ax, lsr_ax, rla_ax, rol_ax, ror_ax, rra_ax, slo_ax, sre_ax, shy_ax, sta_ax, adc_ay,
  and_ay, cmp_ay, eor_ay, las_ay, lax_ay, lda_ay, ldx_ay, ora_ay, sbc_ay, dcp_ay, isb_ay, rla_ay,
  rra_ay, slo_ay, sre_ay, sha_ay, shs_ay, shx_ay, sta_ay, jmp_i, adc_ix, and_ix, cmp_ix, eor_ix,
  lax_ix, lda_ix, ora_ix, sbc_ix, dcp_ix, isb_ix, slo_ix, sre_ix, rla_ix, rra_ix, sax_ix, sta_ix,
  adc_iy, and_iy, cmp_iy, eor_iy, lax_iy, lda_iy, ora_iy, sbc_iy, dcp_iy, isb_iy, rla_iy, rra_iy,
  slo_iy, sre_iy, sha_iy, sta_iy,
}

unfoldable pub simple_modes : List Row
simple_modes =
    record {
      opcodes =
          (asl_n ∷ clc_n ∷ cld_n ∷ cli_n ∷ clv_n ∷ dex_n ∷ dey_n ∷ inx_n ∷ iny_n ∷ lsr_n ∷ [])
          ++ nop_n_all
          ++ (pha_n ∷ php_n ∷ pla_n ∷ plp_n ∷ rol_n ∷ ror_n ∷ sec_n ∷ sed_n ∷ sei_n ∷ tax_n ∷ tay_n
              ∷ tsx_n ∷ txa_n ∷ txs_n ∷ tya_n ∷ []);
      reads = false;
      cycles = cycle Func.throw_away_fetch ∷ [];
    }
    ∷ record {
      opcodes =
          (adc_b ∷ and_b ∷ [])
          ++ anc_b_all
          ++ (ane_b ∷ asr_b ∷ arr_b ∷ bcc_r ∷ bcs_r ∷ beq_r ∷ bmi_r ∷ bne_r ∷ bpl_r ∷ brk_n ∷ bvc_r
              ∷ bvs_r ∷ cmp_b ∷ cpx_b ∷ cpy_b ∷ eor_b ∷ lda_b ∷ ldx_b ∷ ldy_b ∷ lxa_b ∷ [])
          ++ nop_b_all
          ++ (ora_b ∷ [])
          ++ sbc_b_all
          ++ (sbx_b ∷ rti_n ∷ rts_n ∷ []);
      reads = false;
      cycles = cycle Func.fetch_data_byte ∷ [];
    }
    ∷ record {
      opcodes =
          (adc_z ∷ and_z ∷ bit_z ∷ cmp_z ∷ cpx_z ∷ cpy_z ∷ eor_z ∷ lax_z ∷ lda_z ∷ ldx_z ∷ ldy_z
            ∷ ora_z ∷ [])
          ++ nop_z_all
          ++ (sbc_z ∷ asl_z ∷ dcp_z ∷ dec_z ∷ inc_z ∷ isb_z ∷ lsr_z ∷ rol_z ∷ ror_z ∷ sre_z ∷ slo_z
              ∷ rla_z ∷ rra_z ∷ []);
      reads = true;
      cycles = cycle Func.fetch_low_addr ∷ [];
    }
    ∷ record {
      opcodes = sax_z ∷ sta_z ∷ stx_z ∷ sty_z ∷ [];
      reads = false;
      cycles = cycle Func.fetch_low_addr ∷ [];
    }
    ∷ record {
      opcodes =
          (adc_zx ∷ and_zx ∷ cmp_zx ∷ eor_zx ∷ lda_zx ∷ ldy_zx ∷ [])
          ++ nop_zx_all
          ++ (ora_zx ∷ sbc_zx ∷ asl_zx ∷ dcp_zx ∷ dec_zx ∷ inc_zx ∷ isb_zx ∷ lsr_zx ∷ rla_zx
              ∷ rol_zx ∷ ror_zx ∷ rra_zx ∷ slo_zx ∷ sre_zx ∷ []);
      reads = true;
      cycles = cycle Func.fetch_low_addr_x ∷ cycle Func.waste_cycle ∷ [];
    }
    ∷ record {
      opcodes = sta_zx ∷ sty_zx ∷ [];
      reads = false;
      cycles = cycle Func.fetch_low_addr_x ∷ cycle Func.waste_cycle ∷ [];
    }
    ∷ record {
      opcodes = ldx_zy ∷ lax_zy ∷ [];
      reads = true;
      cycles = cycle Func.fetch_low_addr_y ∷ cycle Func.waste_cycle ∷ [];
    }
    ∷ record {
      opcodes = stx_zy ∷ sax_zy ∷ [];
      reads = false;
      cycles = cycle Func.fetch_low_addr_y ∷ cycle Func.waste_cycle ∷ [];
    }
    ∷ record {
      opcodes =
          adc_a ∷ and_a ∷ bit_a ∷ cmp_a ∷ cpx_a ∷ cpy_a ∷ eor_a ∷ lax_a ∷ lda_a ∷ ldx_a ∷ ldy_a
          ∷ nop_a ∷ ora_a ∷ sbc_a ∷ asl_a ∷ dcp_a ∷ dec_a ∷ inc_a ∷ isb_a ∷ lsr_a ∷ rol_a ∷ ror_a
          ∷ slo_a ∷ sre_a ∷ rla_a ∷ rra_a ∷ [];
      reads = true;
      cycles = cycle Func.fetch_low_addr ∷ cycle Func.fetch_high_addr ∷ [];
    }
    ∷ record {
      opcodes = jmp_w ∷ sax_a ∷ sta_a ∷ stx_a ∷ sty_a ∷ [];
      reads = false;
      cycles = cycle Func.fetch_low_addr ∷ cycle Func.fetch_high_addr ∷ [];
    }
    ∷ record { opcodes = jsr_w ∷ []; reads = false; cycles = cycle Func.fetch_low_addr ∷ [] }
    ∷ record {
      opcodes =
          (adc_ax ∷ and_ax ∷ cmp_ax ∷ eor_ax ∷ lda_ax ∷ ldy_ax ∷ [])
          ++ nop_ax_all
          ++ (ora_ax ∷ sbc_ax ∷ []);
      reads = true;
      cycles =
          cycle Func.fetch_low_addr
          ∷ cycle Func.fetch_high_addr_x2
          ∷ cycle Func.throw_away_read
          ∷ [];
    }
    ∷ []

unfoldable pub indexed_modes : List Row
indexed_modes =
    record {
      opcodes =
          asl_ax ∷ dcp_ax ∷ dec_ax ∷ inc_ax ∷ isb_ax ∷ lsr_ax ∷ rla_ax ∷ rol_ax ∷ ror_ax ∷ rra_ax
          ∷ slo_ax ∷ sre_ax ∷ [];
      reads = true;
      cycles =
          cycle Func.fetch_low_addr
          ∷ cycle Func.fetch_high_addr_x
          ∷ cycle Func.throw_away_read
          ∷ [];
    }
    ∷ record {
      opcodes = shy_ax ∷ sta_ax ∷ [];
      reads = false;
      cycles =
          cycle Func.fetch_low_addr
          ∷ cycle Func.fetch_high_addr_x
          ∷ cycle Func.throw_away_read
          ∷ [];
    }
    ∷ record {
      opcodes =
          adc_ay ∷ and_ay ∷ cmp_ay ∷ eor_ay ∷ las_ay ∷ lax_ay ∷ lda_ay ∷ ldx_ay ∷ ora_ay ∷ sbc_ay
          ∷ [];
      reads = true;
      cycles =
          cycle Func.fetch_low_addr
          ∷ cycle Func.fetch_high_addr_y2
          ∷ cycle Func.throw_away_read
          ∷ [];
    }
    ∷ record {
      opcodes = dcp_ay ∷ isb_ay ∷ rla_ay ∷ rra_ay ∷ slo_ay ∷ sre_ay ∷ [];
      reads = true;
      cycles =
          cycle Func.fetch_low_addr
          ∷ cycle Func.fetch_high_addr_y
          ∷ cycle Func.throw_away_read
          ∷ [];
    }
    ∷ record {
      opcodes = sha_ay ∷ shs_ay ∷ shx_ay ∷ sta_ay ∷ [];
      reads = false;
      cycles =
          cycle Func.fetch_low_addr
          ∷ cycle Func.fetch_high_addr_y
          ∷ cycle Func.throw_away_read
          ∷ [];
    }
    ∷ record {
      opcodes = jmp_i ∷ [];
      reads = false;
      cycles =
          cycle Func.fetch_low_pointer
          ∷ cycle Func.fetch_high_pointer
          ∷ cycle Func.fetch_low_eff_addr
          ∷ cycle Func.fetch_high_eff_addr
          ∷ [];
    }
    ∷ record {
      opcodes =
          adc_ix ∷ and_ix ∷ cmp_ix ∷ eor_ix ∷ lax_ix ∷ lda_ix ∷ ora_ix ∷ sbc_ix ∷ dcp_ix ∷ isb_ix
          ∷ slo_ix ∷ sre_ix ∷ rla_ix ∷ rra_ix ∷ [];
      reads = true;
      cycles =
          cycle Func.fetch_low_pointer
          ∷ cycle Func.fetch_low_pointer_x
          ∷ cycle Func.fetch_low_eff_addr
          ∷ cycle Func.fetch_high_eff_addr
          ∷ [];
    }
    ∷ record {
      opcodes = sax_ix ∷ sta_ix ∷ [];
      reads = false;
      cycles =
          cycle Func.fetch_low_pointer
          ∷ cycle Func.fetch_low_pointer_x
          ∷ cycle Func.fetch_low_eff_addr
          ∷ cycle Func.fetch_high_eff_addr
          ∷ [];
    }
    ∷ record {
      opcodes = adc_iy ∷ and_iy ∷ cmp_iy ∷ eor_iy ∷ lax_iy ∷ lda_iy ∷ ora_iy ∷ sbc_iy ∷ [];
      reads = true;
      cycles =
          cycle Func.fetch_low_pointer
          ∷ cycle Func.fetch_low_eff_addr
          ∷ cycle Func.fetch_high_eff_addr_y2
          ∷ cycle Func.throw_away_read
          ∷ [];
    }
    ∷ record {
      opcodes = dcp_iy ∷ isb_iy ∷ rla_iy ∷ rra_iy ∷ slo_iy ∷ sre_iy ∷ [];
      reads = true;
      cycles =
          cycle Func.fetch_low_pointer
          ∷ cycle Func.fetch_low_eff_addr
          ∷ cycle Func.fetch_high_eff_addr_y
          ∷ cycle Func.throw_away_read
          ∷ [];
    }
    ∷ record {
      opcodes = sha_iy ∷ sta_iy ∷ [];
      reads = false;
      cycles =
          cycle Func.fetch_low_pointer
          ∷ cycle Func.fetch_low_eff_addr
          ∷ cycle Func.fetch_high_eff_addr_y
          ∷ cycle Func.throw_away_read
          ∷ [];
    }
    ∷ []
