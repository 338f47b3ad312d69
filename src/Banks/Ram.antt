-- ===== src/Banks/Ram.antt =====
-- src/c64/Banks/SystemRAMBank.h and ColorRAMBank.h.
pub mod Pattern
use libsidplayfp.Base.{
  ℕ, zero, suc, ◌+◌, ◌-◌, ◌*◌, bit_and, Bool, true, false, ◌&&◌, ◌==◌, ltb, leb, if◌then◌else◌,
}

abbrev pub Memory : Type 0
Memory = ℕ → ℕ

unfoldable pub put_byte : ℕ → ℕ → Memory → Memory
put_byte address value ram a = if a == address then value else ram a

-- `memset`
abbrev pub fill : (start value count : ℕ) → Memory → Memory
fill start value count ram a = if leb start a && ltb a (start + count) then value else ram a

-- `memcpy` of an array to the address `start`
abbrev pub copy : (start : ℕ) → Memory → (count : ℕ) → Memory → Memory
copy start source count ram a =
    if leb start a && ltb a (start + count) then source (a - start) else ram a

-- The inner loop of `SystemRAMBank::reset`, from `i` on.
unfoldable pub stripes : (fuel start i value : ℕ) → Memory → Memory
stripes zero start i value ram = ram
stripes (suc fuel) start i value ram =
    let rest = stripes fuel start (i + 0x08) value (fill (start + i) value 0x04 ram) in
    if ltb i 0x4000 then rest else ram

-- The outer loop, from `j` on. The inner loop makes 0x800 rounds.
unfoldable pub blocks : (fuel j byte : ℕ) → Memory → Memory
blocks zero j byte ram = ram
blocks (suc fuel) j byte ram =
    let other = 0xff - byte in
    let striped = stripes 0x801 j 0x02 other (fill j byte 0x4000 ram) in
    let rest = blocks fuel (j + 0x4000) other striped in if ltb j 0x10000 then rest else ram

-- `SystemRAMBank::reset`
unfoldable pub reset_ram : Memory → Memory
reset_ram ram = blocks 5 0x0000 0x00 ram

-- `ColorRAMBank::poke` and `peek`
unfoldable pub poke_color : ℕ → ℕ → Memory → Memory
poke_color address value ram = put_byte (bit_and address 0x3ff) (bit_and value 0xf) ram

unfoldable pub peek_color : ℕ → Memory → ℕ
peek_color address ram = ram (bit_and address 0x3ff)
