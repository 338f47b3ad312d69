-- ===== src/Driver/Poweron.antt =====
-- src/psiddrv.cpp: `copyPoweronPattern`. The pattern is a parameter; the entries of its format are
-- read from the front of the bytes that are left, none if these end within an entry.
use libsidplayfp.Base.{
  ℕ, zero, suc, ◌+◌, ◌%◌, ◌^◌, Option, none, some, List, [], ◌∷◌, length, if◌then◌else◌, ◌!=◌,
  bit_and,
}
use libsidplayfp.Banks.Ram.{Memory, put_byte}

-- What an entry leaves: the bytes behind it, the next address and the memory
abbrev pub Rest : Type 0
Rest = List ℕ × ℕ × Memory

abbrev pub next_addr : ℕ → ℕ
next_addr addr = (addr + 1) % 2 ^ 16

-- `count` copies of a byte
unfoldable pub write_run : (count value : ℕ) → List ℕ → (addr : ℕ) → Memory → Rest
unfolding put_byte
write_run zero value bytes addr ram = (bytes, addr, ram)
write_run (suc count) value bytes addr ram =
    write_run count value bytes (next_addr addr) (put_byte addr value ram)

-- The next `count` bytes of the pattern
unfoldable pub write_literal : (count : ℕ) → List ℕ → (addr : ℕ) → Memory → Option Rest
unfolding put_byte
write_literal zero bytes addr ram = some (bytes, addr, ram)
write_literal (suc count) [] addr ram = none
write_literal (suc count) (b ∷ bytes) addr ram =
    write_literal count bytes (next_addr addr) (put_byte addr b ram)

unfoldable pub write_compressed : (count : ℕ) → List ℕ → (addr : ℕ) → Memory → Option Rest
unfolding write_run
write_compressed count [] addr ram = none
write_compressed count (value ∷ bytes) addr ram = some (write_run count value bytes addr ram)

-- An entry with a count byte
unfoldable pub write_counted : List ℕ → (addr : ℕ) → Memory → Option Rest
unfolding write_compressed write_literal
write_counted [] addr ram = none
write_counted (count ∷ bytes) addr ram =
    if bit_and count 0x80 != 0
    then write_compressed (bit_and count 0x7f + 1) bytes addr ram
    else write_literal (count + 1) bytes addr ram

-- An entry behind its offset byte
unfoldable pub write_entry : (off : ℕ) → List ℕ → (addr : ℕ) → Memory → Option Rest
unfolding write_counted
write_entry off bytes addr ram =
    if bit_and off 0x80 != 0
    then write_counted bytes ((addr + bit_and off 0x7f) % 2 ^ 16) ram
    else write_literal 1 bytes ((addr + off) % 2 ^ 16) ram

-- The loop of `copyPoweronPattern`, with fuel for the entries
unfoldable pub copy_loop : (fuel : ℕ) → List ℕ → (addr : ℕ) → Memory → Option Memory
unfolding write_entry
copy_loop fuel [] addr ram = some ram
copy_loop zero (off ∷ bytes) addr ram = none
copy_loop (suc fuel) (off ∷ bytes) addr ram = elim (write_entry off bytes addr ram) [
  | none ↦ none
  | some (bytes', addr', ram') ↦ copy_loop fuel bytes' addr' ram'
]

-- `copyPoweronPattern`
unfoldable pub copy_poweron_pattern : List ℕ → Memory → Option Memory
unfolding copy_loop
copy_poweron_pattern pattern_bytes ram = copy_loop (length pattern_bytes) pattern_bytes 0 ram

-- src/poweron.bin
abbrev pub poweron : List ℕ
poweron =
    0x83 ∷ 0x04 ∷ 0xaa ∷ 0xb1 ∷ 0x91 ∷ 0xb3 ∷ 0x22 ∷ 0x03 ∷ 0x4c ∷ 0x03 ∷ 0x04 ∷ 0x86 ∷ 0x05 ∷ 0x19
    ∷ 0x16 ∷ 0x00 ∷ 0x0a ∷ 0x76 ∷ 0xa3 ∷ 0x86 ∷ 0x03 ∷ 0x40 ∷ 0xa3 ∷ 0xb3 ∷ 0xbd ∷ 0x85 ∷ 0x01
    ∷ 0x01 ∷ 0x08 ∷ 0x07 ∷ 0xa0 ∷ 0x03 ∷ 0xa0 ∷ 0x01 ∷ 0xff ∷ 0x07 ∷ 0x08 ∷ 0x04 ∷ 0x24 ∷ 0x8b
    ∷ 0x01 ∷ 0x03 ∷ 0x4c ∷ 0x0c ∷ 0x8d ∷ 0x02 ∷ 0x10 ∷ 0x84 ∷ 0x02 ∷ 0x8c ∷ 0xff ∷ 0xa0 ∷ 0x85
    ∷ 0x1e ∷ 0x0a ∷ 0xa3 ∷ 0xe6 ∷ 0x7a ∷ 0xd0 ∷ 0x02 ∷ 0xe6 ∷ 0x7b ∷ 0xad ∷ 0x00 ∷ 0x08 ∷ 0xc9
    ∷ 0x3a ∷ 0xb0 ∷ 0x0a ∷ 0xc9 ∷ 0x20 ∷ 0xf0 ∷ 0xef ∷ 0x38 ∷ 0xe9 ∷ 0x30 ∷ 0x38 ∷ 0xe9 ∷ 0xd0
    ∷ 0x60 ∷ 0x80 ∷ 0x4f ∷ 0xc7 ∷ 0x52 ∷ 0x58 ∷ 0x01 ∷ 0xff ∷ 0x08 ∷ 0x03 ∷ 0x97 ∷ 0x01 ∷ 0x3c
    ∷ 0x03 ∷ 0x8e ∷ 0x03 ∷ 0xa0 ∷ 0x30 ∷ 0xfd ∷ 0x01 ∷ 0x82 ∷ 0x82 ∷ 0x03 ∷ 0x80 ∷ 0x81 ∷ 0x01
    ∷ 0x01 ∷ 0x20 ∷ 0x82 ∷ 0x01 ∷ 0x18 ∷ 0x05 ∷ 0x82 ∷ 0x02 ∷ 0x27 ∷ 0x07 ∷ 0x0d ∷ 0x81 ∷ 0x86
    ∷ 0x84 ∷ 0x80 ∷ 0x85 ∷ 0x85 ∷ 0x80 ∷ 0x86 ∷ 0x86 ∷ 0x80 ∷ 0x85 ∷ 0x87 ∷ 0x80 ∷ 0x03 ∷ 0x18
    ∷ 0xd9 ∷ 0x81 ∷ 0xeb ∷ 0x7f ∷ 0x00 ∷ 0x7f ∷ 0x00 ∷ 0x7f ∷ 0x00 ∷ 0x8b ∷ 0x0a ∷ 0x08 ∷ 0x00
    ∷ 0xa0 ∷ 0x00 ∷ 0x0e ∷ 0x00 ∷ 0x04 ∷ 0x0a ∷ 0x00 ∷ 0x04 ∷ 0x10 ∷ 0x82 ∷ 0x01 ∷ 0x48 ∷ 0xeb
    ∷ 0xef ∷ 0x0b ∷ 0x8b ∷ 0xe3 ∷ 0x83 ∷ 0xa4 ∷ 0x7c ∷ 0xa5 ∷ 0x1a ∷ 0xa7 ∷ 0xe4 ∷ 0xa7 ∷ 0x86
    ∷ 0xae ∷ 0x84 ∷ 0x02 ∷ 0x4c ∷ 0x48 ∷ 0xb2 ∷ 0x81 ∷ 0x1f ∷ 0x31 ∷ 0xea ∷ 0x66 ∷ 0xfe ∷ 0x47
    ∷ 0xfe ∷ 0x4a ∷ 0xf3 ∷ 0x91 ∷ 0xf2 ∷ 0x0e ∷ 0xf2 ∷ 0x50 ∷ 0xf2 ∷ 0x33 ∷ 0xf3 ∷ 0x57 ∷ 0xf1
    ∷ 0xca ∷ 0xf1 ∷ 0xed ∷ 0xf6 ∷ 0x3e ∷ 0xf1 ∷ 0x2f ∷ 0xf3 ∷ 0x66 ∷ 0xfe ∷ 0xa5 ∷ 0xf4 ∷ 0xed
    ∷ 0xf5 ∷ []
