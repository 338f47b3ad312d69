-- ===== src/Banks/Port/Pins.antt =====
-- What a read of the processor port sees.
use mathlib.Core.Path.{subst}
use libsidplayfp.Base.{
  Bool-cases, inl, inr, ◌||◌, all_below, all_below_sound, ℕ, ◌+◌, ◌*◌, ◌/◌, ◌^◌, ◌≤◌, ◌<◌, ◌≡◌, ◌≢◌,
  refl, arith, bit_and, bit_or, true, ◌==◌, if◌then◌else◌, bit, bit_and-bit, bit_or-bit,
  complement-bit, bit_and_shifted, bit_and-0x01,
}
use libsidplayfp.Banks.Port.{
  Port, DataBit, inverted, fall_off_cycles, read_bit, write_bit, reset_bit, update_cpu_port,
}

mask-0x20 : (a : ℕ) → bit_and a 0x20 ≡ bit 5 a * 32
mask-0x20 a = omega (arith, bit_and_shifted 5 a 1, bit_and-0x01 (a / 2 ^ 5))

-- Bit `k` of the value read: an output bit is what was written to it. An input bit is pulled up at
-- bits 0, 1, 2 and 4, is 0 at bit 5, and else keeps the state of its pin.
unfoldable pub seen_bit : (k : ℕ) → Port → ℕ
seen_bit k p =
    if bit k p.dir == 1
    then bit k p.latch
    else if k == 5
    then 0
    else if bit k 0x17 == 1
    then 1
    else bit k p.proc_port_pins

only_5 : all_below 8 (λ k. (k == 5) || (bit k (inverted 0x20) == 1)) ≡ true
unfolding all_below
only_5 = refl

masked_bit : (k a : ℕ) → k < 8 → k ≢ 5 → bit k (bit_and a (inverted 0x20)) ≡ bit k a
masked_bit k a h other =
    let kept = all_below_sound 8 (λ k. (k == 5) || (bit k (inverted 0x20) == 1)) k only_5 h in
    ground (arith, bit_and-bit k a (inverted 0x20), kept)

-- The pins and the value before the test of bit 5.
abbrev pins : Port → ℕ
pins p = bit_or (bit_and p.proc_port_pins (inverted p.dir)) (bit_and p.latch p.dir)

abbrev seen : Port → ℕ
seen p = bit_and (bit_or p.latch (inverted p.dir)) (bit_or (pins p) 0x17)

seen_lem :
    (p : Port) (k : ℕ)
    → k < 8
    → p.dir < 256
    → bit k (seen p) ≡ (
        if bit k p.dir == 1
        then bit k p.latch
        else if bit k 0x17 == 1
        then 1
        else bit k p.proc_port_pins)
seen_lem p k h byte =
    let d = inverted p.dir in
    ground (
      arith,
      bit_and-bit k (bit_or p.latch d) (bit_or (pins p) 0x17),
      bit_or-bit k p.latch d,
      bit_or-bit k (pins p) 0x17,
      bit_or-bit k (bit_and p.proc_port_pins d) (bit_and p.latch p.dir),
      bit_and-bit k p.proc_port_pins d,
      bit_and-bit k p.latch p.dir,
      complement-bit k p.dir h byte,
    )

at_5 : (p : Port) → p.dir < 256 → bit 5 (update_cpu_port p).data_read ≡ seen_bit 5 p
unfolding update_cpu_port seen_bit
at_5 p byte = ground (
  arith,
  seen_lem p 5 (omega arith) byte,
  mask-0x20 p.dir,
  bit_and-bit 5 (seen p) (inverted 0x20),
)

-- After `updateCpuPort` the value read at the port has at each of its 8 bits the bit that the
-- direction, the data and the pins give.
pub update_cpu_port_lem :
    (p : Port) (k : ℕ) → k < 8 → p.dir < 256 → bit k (update_cpu_port p).data_read ≡ seen_bit k p
unfolding update_cpu_port seen_bit
update_cpu_port_lem p k h byte = elim (Bool-cases (k == 5)) [
  | inl e ↦
      subst (λ (n : ℕ). bit n (update_cpu_port p).data_read ≡ seen_bit n p) {x = 5} (ground arith)
        (at_5 p byte)
  | inr n ↦ ground (arith, n, seen_lem p k h byte, masked_bit k (seen p) h)
]

-- A capacitor that is charged at time `t` reads as its bit of the written value for 350000 cycles,
-- and after that as 0, for good.
pub read_bit-write_bit :
    (number t value later : ℕ) (b : DataBit)
    → let charged = write_bit number t value b in
      (later ≤ t + fall_off_cycles → read_bit later charged ≡ (bit_and value (2 ^ number), charged))
      × (t + fall_off_cycles < later
          → ((read_bit later charged).0 ≡ 0)
            × ((after : ℕ) → (read_bit after (read_bit later charged).1).0 ≡ 0))
unfolding write_bit read_bit reset_bit
read_bit-write_bit number t value later b =
    (λ h. ground arith, λ h. (ground arith, λ after. ground arith))
