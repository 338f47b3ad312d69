-- ===== src/Banks/Ram/Pattern.antt =====
-- The contents of the RAM after a reset.
use libsidplayfp.Base.{
  ℕ, zero, suc, ◌+◌, ◌-◌, ◌*◌, ◌/◌, ◌%◌, ◌<◌, ◌≡◌, arith, Bool, ◌&&◌, ltb, leb, ◌==◌, if◌then◌else◌,
  same,
}
use libsidplayfp.Banks.Ram.{Memory, fill, stripes, blocks, reset_ram}

-- What the inner loop writes: four bytes of every eight.
abbrev striped : (start i a : ℕ) → Bool
striped start i a = leb (start + i) a && (ltb a (start + 0x4000) && ltb ((a - (start + i)) % 8) 4)

stripes_lem :
    (fuel start i value : ℕ) (ram : Memory) (a : ℕ)
    → i % 8 ≡ 2
    → 0x4000 < i + fuel * 8
    → stripes fuel start i value ram a ≡ (if striped start i a then value else ram a)
unfolding stripes
stripes_lem zero start i value ram a at_2 enough = ground arith
stripes_lem (suc fuel) start i value ram a at_2 enough = ground (
  arith,
  stripes_lem fuel start (i + 8) value (fill (start + i) value 4 ram) a (omega arith) (omega arith),
)

-- What one round of the outer loop leaves at an address of its block, and elsewhere.
block_value : (j byte a : ℕ) → ℕ
block_value j byte a = if leb (j + 2) a && ltb ((a - (j + 2)) % 8) 4 then 0xff - byte else byte

block_lem :
    (j byte : ℕ) (ram : Memory) (a : ℕ)
    → stripes 0x801 j 0x02 (0xff - byte) (fill j byte 0x4000 ram) a
      ≡ (if leb j a && ltb a (j + 0x4000) then block_value j byte a else ram a)
unfolding block_value
block_lem j byte ram a = ground (
  arith,
  stripes_lem 0x801 j 2 (0xff - byte) (fill j byte 0x4000 ram) a (omega arith) (omega arith),
)

-- The pattern that the comment of `reset` draws: bytes 2 to 5 of every eight differ from the
-- others, and the odd blocks of 0x4000 bytes have both the other way round.
unfoldable pub power_up : ℕ → ℕ
power_up a =
    let inner = leb 2 (a % 8) && leb (a % 8) 5 in
    if same inner (a / 0x4000 % 2 == 1) then 0x00 else 0xff

-- After a reset every address of the RAM has the power-up pattern, whatever it had before.
pub reset_ram_lem : (ram : Memory) (a : ℕ) → a < 0x10000 → reset_ram ram a ≡ power_up a
unfolding reset_ram blocks power_up block_value
reset_ram_lem ram a h =
    let m0 = stripes 0x801 0 0x02 0xff (fill 0 0 0x4000 ram) in
    let m1 = stripes 0x801 0x4000 0x02 0 (fill 0x4000 0xff 0x4000 m0) in
    let m2 = stripes 0x801 0x8000 0x02 0xff (fill 0x8000 0 0x4000 m1) in
    let l0 = block_lem 0 0 ram a in
    let l1 = block_lem 0x4000 0xff m0 a in
    let l2 = block_lem 0x8000 0 m1 a in
    let l3 = block_lem 0xc000 0xff m2 a in ground (arith, l0, l1, l2, l3)
