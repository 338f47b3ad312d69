-- ===== src/Cpu/Table.antt =====
-- src/c64/CPU/mos6510.cpp: `buildInstructionTable`. The entries of opcode `i` are a list of its own,
-- as the C++ builds them from `i << 3` on.
pub mod Rows
mod Modes
mod InstructionsAToI
mod InstructionsJToT
pub mod Shape
pub mod Writes
pub mod Counts
pub mod Tests
use libsidplayfp.Base.{
  ℕ, zero, suc, ◌/◌, ◌%◌, Bool, true, false, ◌||◌, Option, none, some, List, [], ◌∷◌, ◌++◌, ◌==◌,
  if◌then◌else◌,
}
use libsidplayfp.Cpu.Func.{Func, ProcessorCycle, cycle}
use libsidplayfp.Cpu.Table.Rows.{Row}
use libsidplayfp.Cpu.Table.Modes.{simple_modes, indexed_modes}
use libsidplayfp.Cpu.Table.InstructionsAToI.{instructions_adc_to_bvs, instructions_clc_to_isb}
use libsidplayfp.Cpu.Table.InstructionsJToT.{instructions_jsr_to_rra, instructions_rti_to_tya}

unfoldable pub member : ℕ → List ℕ → Bool
member i [] = false
member i (n ∷ ns) = (i == n) || member i ns

-- The `switch`: the case that lists the opcode.
unfoldable pub select : ℕ → List Row → Option Row
select i [] = none
select i (r ∷ rows) = let rest = select i rows in if member i r.opcodes then some r else rest

unfoldable pub mode_rows : List Row
mode_rows = simple_modes ++ indexed_modes

unfoldable pub instruction_rows : List Row
instruction_rows =
    instructions_adc_to_bvs
    ++ (instructions_clc_to_isb ++ (instructions_jsr_to_rra ++ instructions_rti_to_tya))

-- `legalMode` or `legalInstr`
unfoldable pub is_listed : Option Row → Bool
is_listed none = false
is_listed (some r) = true

unfoldable pub cycles_of : Option Row → List ProcessorCycle
cycles_of none = []
cycles_of (some r) = r.cycles

unfoldable pub access_cycles : Option Row → List ProcessorCycle
access_cycles none = []
access_cycles (some r) = if r.reads then cycle Func.fetch_eff_addr_data_byte ∷ [] else []

unfoldable pub illegal_cycles : Option Row → Option Row → List ProcessorCycle
illegal_cycles (some m) (some r) = []
illegal_cycles m r = cycle Func.invalid_opcode ∷ []

unfoldable pub build : ℕ → List ProcessorCycle
build i =
    let mode = select i mode_rows in
    let instruction = select i instruction_rows in
    cycles_of mode
    ++ (access_cycles mode
        ++ (cycles_of instruction
            ++ (illegal_cycles mode instruction ++ (cycle Func.interrupts_and_next_opcode ∷ []))))

abbrev pub entry : List ProcessorCycle → ℕ → Option ProcessorCycle
entry [] k = none
entry (p ∷ ps) zero = some p
entry (p ∷ ps) (suc k) = entry ps k

-- `instrTable[cycleCount]`
unfoldable pub instr_table : ℕ → Option ProcessorCycle
instr_table cycle_count = entry (build (cycle_count / 8)) (cycle_count % 8)
