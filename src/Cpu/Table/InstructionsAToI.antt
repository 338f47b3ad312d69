-- ===== src/Cpu/Table/InstructionsAToI.antt =====
-- src/c64/CPU/mos6510.cpp, `buildInstructionTable`: the switch on the instructions, ADC to ISB.
use libsidplayfp.Base.{false, List, [], ◌∷◌}
use libsidplayfp.Cpu.Func.{Func, cycle, nosteal_cycle}
use libsidplayfp.Cpu.Table.Rows.{Row}
use libsidplayfp.Cpu.Opcodes.{
  adc_z, adc_zx, adc_a, adc_ax, adc_ay, adc_ix, adc_iy, adc_b, anc_b_all, and_z, and_zx, and_a,
  and_ax, and_ay, and_ix, and_iy, and_b, ane_b, arr_b, asl_n, asl_z, asl_zx, asl_a, asl_ax, asr_b,
  bcc_r, bcs_r, beq_r, bit_z, bit_a, bmi_r, bne_r, bpl_r, brk_n, bvc_r, bvs_r, clc_n, cld_n, cli_n,
  clv_n, cmp_z, cmp_zx, cmp_a, cmp_ax, cmp_ay, cmp_ix, cmp_iy, cmp_b, cpx_z, cpx_a, cpx_b, cpy_z,
  cpy_a, cpy_b, dcp_z, dcp_zx, dcp_a, dcp_ax, dcp_ay, dcp_ix, dcp_iy, dec_z, dec_zx, dec_a, dec_ax,
  dex_n, dey_n, eor_z, eor_zx, eor_a, eor_ax, eor_ay, eor_ix, eor_iy, eor_b, inc_z, inc_zx, inc_a,
  inc_ax, inx_n, iny_n, isb_z, isb_zx, isb_a, isb_ax, isb_ay, isb_ix, isb_iy,
}

unfoldable pub instructions_adc_to_bvs : List Row
instructions_adc_to_bvs =
    record {
      opcodes = adc_z ∷ adc_zx ∷ adc_a ∷ adc_ax ∷ adc_ay ∷ adc_ix ∷ adc_iy ∷ adc_b ∷ [];
      reads = false;
      cycles = cycle Func.adc_instr ∷ [];
    }
    ∷ record { opcodes = anc_b_all; reads = false; cycles = cycle Func.anc_instr ∷ [] }
    ∷ record {
      opcodes = and_z ∷ and_zx ∷ and_a ∷ and_ax ∷ and_ay ∷ and_ix ∷ and_iy ∷ and_b ∷ [];
      reads = false;
      cycles = cycle Func.and_instr ∷ [];
    }
    ∷ record { opcodes = ane_b ∷ []; reads = false; cycles = cycle Func.ane_instr ∷ [] }
    ∷ record { opcodes = arr_b ∷ []; reads = false; cycles = cycle Func.arr_instr ∷ [] }
    ∷ record { opcodes = asl_n ∷ []; reads = false; cycles = cycle Func.asla_instr ∷ [] }
    ∷ record {
      opcodes = asl_z ∷ asl_zx ∷ asl_a ∷ asl_ax ∷ [];
      reads = false;
      cycles = nosteal_cycle Func.asl_instr ∷ nosteal_cycle Func.put_eff_addr_data_byte ∷ [];
    }
    ∷ record { opcodes = asr_b ∷ []; reads = false; cycles = cycle Func.alr_instr ∷ [] }
    ∷ record {
      opcodes = bcc_r ∷ [];
      reads = false;
      cycles = cycle Func.bcc_instr ∷ cycle Func.fix_branch ∷ [];
    }
    ∷ record {
      opcodes = bcs_r ∷ [];
      reads = false;
      cycles = cycle Func.bcs_instr ∷ cycle Func.fix_branch ∷ [];
    }
    ∷ record {
      opcodes = beq_r ∷ [];
      reads = false;
      cycles = cycle Func.beq_instr ∷ cycle Func.fix_branch ∷ [];
    }
    ∷ record { opcodes = bit_z ∷ bit_a ∷ []; reads = false; cycles = cycle Func.bit_instr ∷ [] }
    ∷ record {
      opcodes = bmi_r ∷ [];
      reads = false;
      cycles = cycle Func.bmi_instr ∷ cycle Func.fix_branch ∷ [];
    }
    ∷ record {
      opcodes = bne_r ∷ [];
      reads = false;
      cycles = cycle Func.bne_instr ∷ cycle Func.fix_branch ∷ [];
    }
    ∷ record {
      opcodes = bpl_r ∷ [];
      reads = false;
      cycles = cycle Func.bpl_instr ∷ cycle Func.fix_branch ∷ [];
    }
    ∷ record {
      opcodes = brk_n ∷ [];
      reads = false;
      cycles =
          nosteal_cycle Func.push_high_pc
          ∷ nosteal_cycle Func.brk_push_low_pc
          ∷ nosteal_cycle Func.push_sr
          ∷ cycle Func.irq_lo_request
          ∷ cycle Func.irq_hi_request
          ∷ cycle Func.fetch_next_opcode
          ∷ [];
    }
    ∷ record {
      opcodes = bvc_r ∷ [];
      reads = false;
      cycles = cycle Func.bvc_instr ∷ cycle Func.fix_branch ∷ [];
    }
    ∷ record {
      opcodes = bvs_r ∷ [];
      reads = false;
      cycles = cycle Func.bvs_instr ∷ cycle Func.fix_branch ∷ [];
    }
    ∷ []

unfoldable pub instructions_clc_to_isb : List Row
instructions_clc_to_isb =
    record { opcodes = clc_n ∷ []; reads = false; cycles = cycle Func.clc_instr ∷ [] }
    ∷ record { opcodes = cld_n ∷ []; reads = false; cycles = cycle Func.cld_instr ∷ [] }
    ∷ record { opcodes = cli_n ∷ []; reads = false; cycles = cycle Func.cli_instr ∷ [] }
    ∷ record { opcodes = clv_n ∷ []; reads = false; cycles = cycle Func.clv_instr ∷ [] }
    ∷ record {
      opcodes = cmp_z ∷ cmp_zx ∷ cmp_a ∷ cmp_ax ∷ cmp_ay ∷ cmp_ix ∷ cmp_iy ∷ cmp_b ∷ [];
      reads = false;
      cycles = cycle Func.cmp_instr ∷ [];
    }
    ∷ record {
      opcodes = cpx_z ∷ cpx_a ∷ cpx_b ∷ [];
      reads = false;
      cycles = cycle Func.cpx_instr ∷ [];
    }
    ∷ record {
      opcodes = cpy_z ∷ cpy_a ∷ cpy_b ∷ [];
      reads = false;
      cycles = cycle Func.cpy_instr ∷ [];
    }
    ∷ record {
      opcodes = dcp_z ∷ dcp_zx ∷ dcp_a ∷ dcp_ax ∷ dcp_ay ∷ dcp_ix ∷ dcp_iy ∷ [];
      reads = false;
      cycles = nosteal_cycle Func.dcm_instr ∷ nosteal_cycle Func.put_eff_addr_data_byte ∷ [];
    }
    ∷ record {
      opcodes = dec_z ∷ dec_zx ∷ dec_a ∷ dec_ax ∷ [];
      reads = false;
      cycles = nosteal_cycle Func.dec_instr ∷ nosteal_cycle Func.put_eff_addr_data_byte ∷ [];
    }
    ∷ record { opcodes = dex_n ∷ []; reads = false; cycles = cycle Func.dex_instr ∷ [] }
    ∷ record { opcodes = dey_n ∷ []; reads = false; cycles = cycle Func.dey_instr ∷ [] }
    ∷ record {
      opcodes = eor_z ∷ eor_zx ∷ eor_a ∷ eor_ax ∷ eor_ay ∷ eor_ix ∷ eor_iy ∷ eor_b ∷ [];
      reads = false;
      cycles = cycle Func.eor_instr ∷ [];
    }
    ∷ record {
      opcodes = inc_z ∷ inc_zx ∷ inc_a ∷ inc_ax ∷ [];
      reads = false;
      cycles = nosteal_cycle Func.inc_instr ∷ nosteal_cycle Func.put_eff_addr_data_byte ∷ [];
    }
    ∷ record { opcodes = inx_n ∷ []; reads = false; cycles = cycle Func.inx_instr ∷ [] }
    ∷ record { opcodes = iny_n ∷ []; reads = false; cycles = cycle Func.iny_instr ∷ [] }
    ∷ record {
      opcodes = isb_z ∷ isb_zx ∷ isb_a ∷ isb_ax ∷ isb_ay ∷ isb_ix ∷ isb_iy ∷ [];
      reads = false;
      cycles = nosteal_cycle Func.ins_instr ∷ nosteal_cycle Func.put_eff_addr_data_byte ∷ [];
    }
    ∷ []
