-- ===== src/Cpu/Table/Shape.antt =====
-- The shape of the instruction table of the CPU: how many entries an opcode has, which are writes,
-- and which opcodes are illegal.
use libsidplayfp.Base.{
  if◌then◌else◌, ℕ, zero, suc, ◌*◌, ◌/◌, ◌%◌, ◌≤◌, ◌<◌, arith, Bool, true, false, true≢false, ◌&&◌,
  Option, none, some, List, [], ◌∷◌, leb, length, all_below, all_below_sound, ◌≡◌, refl, ◌∙◌, sym,
  leb→le, same, same→≡,
}
use libsidplayfp.Cpu.Func.{Func, ProcessorCycle}
use libsidplayfp.Cpu.State.{Cpu}
use libsidplayfp.Cpu.Step.{perform}
use libsidplayfp.Cpu.Table.{
  build, member, select, mode_rows, instruction_rows, instr_table, entry, cycles_of, access_cycles,
  illegal_cycles,
}
use libsidplayfp.Cpu.Table.Modes.{simple_modes, indexed_modes}
use libsidplayfp.Cpu.Table.InstructionsAToI.{instructions_adc_to_bvs, instructions_clc_to_isb}
use libsidplayfp.Cpu.Table.InstructionsJToT.{instructions_jsr_to_rra, instructions_rti_to_tya}
use libsidplayfp.Cpu.Table.Counts.{counting, count, count-execute}
use libsidplayfp.Cpu.Table.Writes.{writes, execute-reads_only}

-- The opcodes that opcodes.h lists as HLT.
unfoldable pub hlt_opcodes : List ℕ
hlt_opcodes = 0x02 ∷ 0x12 ∷ 0x22 ∷ 0x32 ∷ 0x42 ∷ 0x52 ∷ 0x62 ∷ 0x72 ∷ 0x92 ∷ 0xb2 ∷ 0xd2 ∷ 0xf2 ∷ []

unfoldable pub throws : Func → Bool
throws Func.invalid_opcode = true
throws _ = false

abbrev all_sound : List ProcessorCycle → Bool
all_sound [] = true
all_sound (p ∷ ps) = same p.nosteal (writes p.func) && all_sound ps

abbrev pub throws_at : Option ProcessorCycle → Bool
throws_at none = false
throws_at (some p) = throws p.func

-- The entries of an opcode end with the fetch of the next one.
abbrev sound_opcode : ℕ → Bool
sound_opcode i =
    leb (length (build i)) 8
    && (leb 2 (length (build i))
        && (all_sound (build i) && same (throws_at (entry (build i) 0)) (member i hlt_opcodes)))

table_sound : all_below 256 sound_opcode ≡ true
unfolding all_below build member select mode_rows instruction_rows cycles_of access_cycles
    illegal_cycles simple_modes indexed_modes instructions_adc_to_bvs instructions_clc_to_isb
    instructions_jsr_to_rra instructions_rti_to_tya hlt_opcodes throws writes
table_sound = refl

and4 :
    (a b c d : Bool)
    → (a && (b && (c && d))) ≡ true
    → (a ≡ true) × (b ≡ true) × (c ≡ true) × (d ≡ true)
and4 true true true true h = (refl, refl, refl, refl)
and4 true true true false h = absurd (true≢false (sym h))
and4 true true false d h = absurd (true≢false (sym h))
and4 true false c d h = absurd (true≢false (sym h))
and4 false b c d h = absurd (true≢false (sym h))

module _ (i : ℕ) (byte : i < 256) where
  sound :
      (leb (length (build i)) 8 ≡ true)
      × (leb 2 (length (build i)) ≡ true)
      × (all_sound (build i) ≡ true)
      × (same (throws_at (entry (build i) 0)) (member i hlt_opcodes) ≡ true)
  sound = and4 _ _ _ _ (all_below_sound 256 sound_opcode i table_sound byte)

  -- Every opcode has from 2 to 8 entries in the table, so they fit into the 8 that the table has
  -- for an opcode.
  pub length-build : (2 ≤ length (build i)) × (length (build i) ≤ 8)
  length-build = (leb→le 2 (length (build i)) sound.1, leb→le (length (build i)) 8 sound.0)

  -- The first entry of an opcode throws exactly when opcodes.h lists the opcode as HLT.
  pub build-throws : throws_at (entry (build i) 0) ≡ member i hlt_opcodes
  build-throws = same→≡ _ _ sound.3

entry_sound :
    (ps : List ProcessorCycle) (k : ℕ) (p : ProcessorCycle)
    → all_sound ps ≡ true
    → entry ps k ≡ some p
    → p.nosteal ≡ writes p.func
entry_sound [] k p h e = ground arith
entry_sound (q ∷ ps) zero p h e = ground (arith, same→≡ q.nosteal (writes q.func))
entry_sound (q ∷ ps) (suc k) p h e = ground (arith, entry_sound ps k p)

nosteal_listed :
    (c : ℕ) (p : ProcessorCycle) → c < 256 * 8 → instr_table c ≡ some p → p.nosteal ≡ writes p.func
unfolding instr_table
nosteal_listed c p lt e = entry_sound (build (c / 8)) (c % 8) p (sound (c / 8) (omega arith)).2 e

-- On a bus that reads the bytes of any memory and counts its writes, performing an entry of the table
-- of the 256 opcodes writes exactly once if the entry has `nosteal` set, and never otherwise.
pub nosteal-writes :
    (bytes : ℕ → ℕ) (c : ℕ) (p : ProcessorCycle) (s : Cpu ℕ)
    → c < 256 * 8
    → instr_table c ≡ some p
    → count (perform (counting bytes) p s) ≡ (if p.nosteal then suc s.rest else s.rest)
unfolding perform
nosteal-writes bytes c p s lt e = rw (nosteal_listed c p lt e) (count-execute bytes p.func _)

-- A cycle that may be stolen (its entry lacks `nosteal`) does the same on a bus whose writes are
-- replaced by any others: it only reads.
pub perform-steal :
    {S : Type 0} (read : ℕ → Cpu S → ℕ × Cpu S) (write write' : ℕ → ℕ → Cpu S → Cpu S) (c : ℕ)
    (p : ProcessorCycle) (s : Cpu S)
    → c < 256 * 8
    → instr_table c ≡ some p
    → p.nosteal ≡ false
    → perform (record { cpu_read = read; cpu_write = write }) p s
      ≡ perform (record { cpu_read = read; cpu_write = write' }) p s
unfolding perform
perform-steal read write write' c p s lt e steal =
    execute-reads_only read write write' p.func _ (sym (nosteal_listed c p lt e) ∙ steal)
