-- ===== src/Cpu/Table/Tests.antt =====
-- Entries of the instruction table of the CPU.
use libsidplayfp.Base.{◌≡◌, refl, ◌+◌, ◌*◌, some}
use libsidplayfp.Cpu.Func.{Func, cycle, nosteal_cycle}
use libsidplayfp.Cpu.Table.{
  build, member, select, mode_rows, instruction_rows, instr_table, cycles_of, access_cycles,
  illegal_cycles,
}
use libsidplayfp.Cpu.Table.Modes.{simple_modes, indexed_modes}
use libsidplayfp.Cpu.Table.InstructionsAToI.{instructions_adc_to_bvs, instructions_clc_to_isb}
use libsidplayfp.Cpu.Table.InstructionsJToT.{instructions_jsr_to_rra, instructions_rti_to_tya}

-- LDA immediate begins with the fetch of its operand.
pub lda_fetches : instr_table (0xa9 * 8) ≡ some (cycle Func.fetch_data_byte)
unfolding instr_table build member select mode_rows instruction_rows cycles_of access_cycles
    illegal_cycles simple_modes indexed_modes instructions_adc_to_bvs instructions_clc_to_isb
    instructions_jsr_to_rra instructions_rti_to_tya
lda_fetches = refl

-- STA absolute writes in its third entry, the fourth cycle of the instruction.
pub sta_writes : instr_table (0x8d * 8 + 2) ≡ some (nosteal_cycle Func.sta_instr)
unfolding instr_table build member select mode_rows instruction_rows cycles_of access_cycles
    illegal_cycles simple_modes indexed_modes instructions_adc_to_bvs instructions_clc_to_isb
    instructions_jsr_to_rra instructions_rti_to_tya
sta_writes = refl
