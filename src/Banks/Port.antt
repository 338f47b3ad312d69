-- ===== src/Banks/Port.antt =====
-- src/c64/Banks/ZeroRAMBank.h: the processor port. Times are phase 2 clocks. The memory behind the
-- port and the calls of the PLA are in Mmu.
pub mod Pins
use libsidplayfp.Base.{
  ℕ, ◌+◌, ◌-◌, ◌*◌, ◌^◌, bit_and, bit_or, Bool, true, false, ◌&&◌, ◌==◌, ◌!=◌, ltb, if◌then◌else◌,
}

abbrev pub fall_off_cycles : ℕ
fall_off_cycles = 350000

-- `dataBit`
pub record DataBit : Type 0 where
  pub data_set_clk : ℕ
  pub is_falling_off : Bool
  pub data_set : ℕ

unfoldable pub reset_bit : DataBit → DataBit
reset_bit b = record b { is_falling_off = false; data_set = 0 }

unfoldable pub read_bit : ℕ → DataBit → ℕ × DataBit
read_bit phi2_time b =
    if b.is_falling_off && ltb b.data_set_clk phi2_time then (0, reset_bit b) else (b.data_set, b)

unfoldable pub write_bit : (number phi2_time value : ℕ) → DataBit → DataBit
write_bit number phi2_time value b = record {
  data_set_clk = phi2_time + fall_off_cycles;
  is_falling_off = true;
  data_set = bit_and value (2 ^ number);
}

-- The state of `ZeroRAMBank`
pub record Port : Type 0 where
  pub data_bit6 : DataBit
  pub data_bit7 : DataBit
  pub dir : ℕ
  pub latch : ℕ
  pub data_read : ℕ
  pub proc_port_pins : ℕ

-- `~value` of a byte
abbrev pub inverted : ℕ → ℕ
inverted value = 0xff - value

-- `updateCpuPort`; the test of the tape sense line is constantly false.
unfoldable pub update_cpu_port : Port → Port
update_cpu_port p =
    let pins = bit_or (bit_and p.proc_port_pins (inverted p.dir)) (bit_and p.latch p.dir) in
    let seen = bit_and (bit_or p.latch (inverted p.dir)) (bit_or pins 0x17) in
    record p {
      proc_port_pins = pins;
      data_read = if bit_and p.dir 0x20 == 0 then bit_and seen (inverted 0x20) else seen;
    }

-- What `updateCpuPort` hands to `setCpuPort`
unfoldable pub cpu_port : Port → ℕ
cpu_port p = bit_and (bit_or p.latch (inverted p.dir)) 0x07

unfoldable pub reset_port : Port → Port
reset_port p = update_cpu_port (record {
  data_bit6 = reset_bit p.data_bit6;
  data_bit7 = reset_bit p.data_bit7;
  dir = 0;
  latch = 0x3f;
  data_read = 0x3f;
  proc_port_pins = 0x3f;
})

-- `peek` at address 1: the floating bits 6 and 7 come from their capacitors.
unfoldable pub read_bit6 : ℕ → ℕ × Port → ℕ × Port
read_bit6 phi2_time (value, p) =
    let (bit, b) = read_bit phi2_time p.data_bit6 in
    if bit_and p.dir 0x40 == 0
    then (bit_or (bit_and value (inverted 0x40)) bit, record p { data_bit6 = b })
    else (value, p)

unfoldable pub read_bit7 : ℕ → ℕ × Port → ℕ × Port
read_bit7 phi2_time (value, p) =
    let (bit, b) = read_bit phi2_time p.data_bit7 in
    if bit_and p.dir 0x80 == 0
    then (bit_or (bit_and value (inverted 0x80)) bit, record p { data_bit7 = b })
    else (value, p)

unfoldable pub peek_port : ℕ → Port → ℕ × Port
peek_port phi2_time p = read_bit7 phi2_time (read_bit6 phi2_time (p.data_read, p))

-- `poke` at address 0 where the direction changes
unfoldable pub poke_dir : ℕ → ℕ → Port → Port
poke_dir phi2_time value p =
    let p6 : Port =
      if bit_and p.dir 0x40 != 0 && (bit_and value 0x40 == 0)
      then record p { data_bit6 = write_bit 6 phi2_time p.latch p.data_bit6 }
      else p in
    let p7 : Port =
      if bit_and p.dir 0x80 != 0 && (bit_and value 0x80 == 0)
      then record p6 { data_bit7 = write_bit 7 phi2_time p.latch p6.data_bit7 }
      else p6 in
    update_cpu_port (record p7 { dir = value })

-- The bits charged by `poke` at address 1
unfoldable pub charge_bits : ℕ → ℕ → Port → Port
charge_bits phi2_time value p =
    let p6 : Port =
      if bit_and p.dir 0x40 != 0
      then record p { data_bit6 = write_bit 6 phi2_time value p.data_bit6 }
      else p in
    if bit_and p.dir 0x80 != 0
    then record p6 { data_bit7 = write_bit 7 phi2_time value p6.data_bit7 }
    else p6

-- `poke` at address 1 where the data change
unfoldable pub poke_data : ℕ → Port → Port
poke_data value p = update_cpu_port (record p { latch = value })
