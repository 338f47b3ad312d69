-- ===== src/Cpu/Official/Branches.antt =====
-- Where a branch of the CPU goes, and what a comparison says.
use libsidplayfp.Base.{
  true, ap, ◌∙◌, not, ℕ, ◌+◌, ◌-◌, ◌*◌, ◌/◌, ◌%◌, ◌^◌, ◌<◌, arith, ◌==◌, ltb, leb, if◌then◌else◌,
  ◌≡◌, bit_and-0x80,
}
use libsidplayfp.Endian.{get_16lo8, get_16hi8}
use libsidplayfp.Endian.Laws.{set_16hi8_lem}
use libsidplayfp.Cpu.Flags.{set_nz}
use libsidplayfp.Cpu.State.{Bus, u16, Cpu}
use libsidplayfp.Cpu.Official.{fix_branch, branch_taken}
use libsidplayfp.Cpu.Arithmetic.{compare_with}

-- The address `offset` bytes away, with the offset in two's complement.
unfoldable pub displaced : (address offset : ℕ) → ℕ
displaced address offset = (address + offset + (if ltb offset 128 then 0 else 65536 - 256)) % 65536

module _ {S : Type 0} (s : Cpu S) (pc_word : s.program_counter < 65536)
    (offset_byte : s.data_byte < 256) where
  -- A branch that is taken goes to the displaced address when that is in the same page, and says
  -- so by clearing `adl_carry`; else it has the low byte of the displaced address and the old page.
  pub branch_taken_lem :
      ((branch_taken s).program_counter
        ≡ s.program_counter / 256 * 256 + displaced s.program_counter s.data_byte % 256)
      × ((branch_taken s).adl_carry
          ≡ not (s.program_counter / 256 == displaced s.program_counter s.data_byte / 256))
  unfolding branch_taken displaced get_16lo8 get_16hi8
  branch_taken_lem =
      let target = (s.program_counter % 256 + s.data_byte) % 65536 in
      ground (arith, set_16hi8_lem target (s.program_counter / 256 % 256))

-- What the cycle that fixes the page adds.
abbrev page_fixed : {S : Type 0} → Cpu S → ℕ
page_fixed t = u16 (t.program_counter + (if ltb t.data_byte 0x80 then 0x0100 else 0xff00))

page_fixed_lem :
    {S : Type 0} (s : Cpu S)
    → s.program_counter < 65536
    → s.data_byte < 256
    → (branch_taken s).adl_carry ≡ true
    → page_fixed (branch_taken s) ≡ displaced s.program_counter s.data_byte
unfolding branch_taken displaced get_16lo8 get_16hi8
page_fixed_lem s pc_word offset_byte crosses =
    let target = (s.program_counter % 256 + s.data_byte) % 65536 in
    ground (arith, set_16hi8_lem target (s.program_counter / 256 % 256))

-- On a bus whose reads change nothing, a branch that leaves its page, of a word offset by a byte,
-- is at the displaced address after the cycle that fixes the page.
pub fix_branch-branch_taken :
    {S : Type 0} (bus : Bus S) (s : Cpu S)
    → ((a : ℕ) (t : Cpu S) → (bus.cpu_read a t).1 ≡ t)
    → s.program_counter < 65536
    → s.data_byte < 256
    → (branch_taken s).adl_carry ≡ true
    → (fix_branch bus (branch_taken s)).program_counter ≡ displaced s.program_counter s.data_byte
unfolding fix_branch
fix_branch-branch_taken bus s pure pc_word offset_byte crosses =
    ap page_fixed (pure (branch_taken s).effective_address (branch_taken s))
    ∙ page_fixed_lem s pc_word offset_byte crosses

-- `compare` sets C when the register is not below the operand, Z when they are equal, and N to bit
-- 7 of the difference; D, I and V stay.
pub compare_with_lem :
    {S : Type 0} (byte : ℕ) (s : Cpu S)
    → byte < 256
    → s.data_byte < 256
    → (compare_with byte s).flags ≡ record s.flags {
      c = leb s.data_byte byte;
      z = byte == s.data_byte;
      n = leb 128 ((byte + 256 - s.data_byte) % 256);
    }
unfolding compare_with set_nz
compare_with_lem byte s hb hd =
    ground (arith, bit_and-0x80 ((byte + 2 ^ 16 - s.data_byte) % 65536 % 256))
