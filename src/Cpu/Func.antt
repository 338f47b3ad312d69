-- ===== src/Cpu/Func.antt =====
-- src/c64/CPU/mos6510.h: the functions of the instruction table and its entries.
use libsidplayfp.Base.{Bool, true, false}

-- The member functions that the table points to.
pub data Func : Type 0 where
  throw_away_fetch fetch_data_byte fetch_low_addr fetch_low_addr_x waste_cycle fetch_low_addr_y
        fetch_high_addr fetch_high_addr_x2 throw_away_read fetch_high_addr_x fetch_high_addr_y2
        fetch_high_addr_y fetch_low_pointer fetch_high_pointer fetch_low_eff_addr
        fetch_high_eff_addr fetch_low_pointer_x fetch_high_eff_addr_y2 fetch_high_eff_addr_y
        adc_instr anc_instr and_instr ane_instr arr_instr asla_instr asl_instr
        put_eff_addr_data_byte alr_instr bcc_instr fix_branch bcs_instr beq_instr bit_instr
        bmi_instr bne_instr bpl_instr push_high_pc brk_push_low_pc push_sr irq_lo_request
        irq_hi_request fetch_next_opcode bvc_instr bvs_instr clc_instr cld_instr cli_instr clv_instr
        cmp_instr cpx_instr cpy_instr dcm_instr dec_instr dex_instr dey_instr eor_instr inc_instr
        inx_instr iny_instr ins_instr push_low_pc jmp_instr las_instr lax_instr lda_instr ldx_instr
        ldy_instr lsra_instr lsr_instr oal_instr ora_instr pha_instr pla_instr pop_sr rla_instr
        rola_instr rol_instr rora_instr ror_instr rra_instr pop_low_pc pop_high_pc rti_instr
        rts_instr axs_instr sbc_instr sbx_instr sec_instr sed_instr sei_instr axa_instr shs_instr
        xas_instr say_instr aso_instr lse_instr sta_instr stx_instr sty_instr tax_instr tay_instr
        tsx_instr txa_instr txs_instr tya_instr fetch_eff_addr_data_byte interrupts_and_next_opcode
        invalid_opcode :
      Func

pub record ProcessorCycle : Type 0 where
  pub func : Func
  pub nosteal : Bool

-- An entry set without and with `nosteal`.
abbrev pub cycle : Func → ProcessorCycle
cycle f = record { func = f; nosteal = false }

abbrev pub nosteal_cycle : Func → ProcessorCycle
nosteal_cycle f = record { func = f; nosteal = true }
