-- ===== src/Driver/Patterns.antt =====
-- src/psiddrv.cpp: every pattern in the format of `copyPoweronPattern` is written as it says.
use libsidplayfp.Base.{
  ℕ, zero, suc, ◌+◌, ◌%◌, ◌^◌, ◌<◌, ◌≤◌, ◌≡◌, ◌∙◌, refl, ap, true, false, some, List, [], ◌∷◌, ◌++◌,
  length, length-append, replicate, ◌!=◌, arith, bit_and, bit_and-0x80, bit_and_mask,
}
use libsidplayfp.Banks.Ram.{Memory, put_byte}
use libsidplayfp.Driver.Poweron.{
  write_run, write_literal, write_entry, copy_loop, copy_poweron_pattern, next_addr,
}
use native.Mathlib.Numerals.{add-one}

-- An entry: how far it moves on, and one byte, up to 128 bytes, or up to 128 copies of a byte
pub data Entry : Type 0 where
  single : (off value : ℕ) → Entry
  literal : (off : ℕ) → (first : ℕ) → List ℕ → Entry
  repeated : (off count value : ℕ) → Entry

abbrev pub IsEntry : Entry → Type 0
IsEntry (single off value) = off < 128
IsEntry (literal off first bytes) = (off < 128) × (length bytes < 128)
IsEntry (repeated off count value) = (off < 128) × (count < 128)

-- The bytes of an entry; an offset with bit 7 set is followed by a count, less one
unfoldable pub encode : Entry → List ℕ
encode (single off value) = off ∷ value ∷ []
encode (literal off first bytes) = (off + 128) ∷ length bytes ∷ first ∷ bytes
encode (repeated off count value) = (off + 128) ∷ (count + 128) ∷ value ∷ []

-- The bytes that an entry stands for
unfoldable pub expand : Entry → List ℕ
expand (single off value) = value ∷ []
expand (literal off first bytes) = first ∷ bytes
expand (repeated off count value) = value ∷ replicate count value

unfoldable pub offset : Entry → ℕ
offset (single off value) = off
offset (literal off first bytes) = off
offset (repeated off count value) = off

-- Bytes written one after the other; addresses are words.
unfoldable pub write_all : List ℕ → (addr : ℕ) → Memory → ℕ × Memory
write_all [] addr ram = (addr, ram)
write_all (b ∷ bytes) addr ram = write_all bytes (next_addr addr) (put_byte addr b ram)

unfoldable pub encode_all : List Entry → List ℕ
encode_all [] = []
encode_all (e ∷ entries) = encode e ++ encode_all entries

abbrev pub IsPattern : List Entry → Type 0
IsPattern [] = Unit
IsPattern (e ∷ entries) = IsEntry e × IsPattern entries

unfoldable pub write_entries : List Entry → (addr : ℕ) → Memory → Memory
write_entries [] addr ram = ram
write_entries (e ∷ entries) addr ram =
    let (addr', ram') = write_all (expand e) ((addr + offset e) % 2 ^ 16) ram in
    write_entries entries addr' ram'

literal_lem :
    (bytes rest : List ℕ) (addr : ℕ) (ram : Memory)
    → write_literal (length bytes) (bytes ++ rest) addr ram
      ≡ some (rest, (write_all bytes addr ram).0, (write_all bytes addr ram).1)
unfolding write_literal write_all
literal_lem [] rest addr ram = refl
literal_lem (b ∷ bytes) rest addr ram =
    literal_lem bytes rest (next_addr addr) (put_byte addr b ram)

run_lem :
    (count value : ℕ) (rest : List ℕ) (addr : ℕ) (ram : Memory)
    → write_run count value rest addr ram ≡ (
      rest,
      (write_all (replicate count value) addr ram).0,
      (write_all (replicate count value) addr ram).1,
    )
unfolding write_run write_all
run_lem zero value rest addr ram = refl
run_lem (suc count) value rest addr ram =
    run_lem count value rest (next_addr addr) (put_byte addr value ram)

flag_clear : (off : ℕ) → off < 128 → (bit_and off 0x80 != 0) ≡ false
flag_clear off h = ground (arith, bit_and-0x80 off)

flag_set : (off : ℕ) → off < 128 → (bit_and (off + 128) 0x80 != 0) ≡ true
flag_set off h = ground (arith, bit_and-0x80 (off + 128))

low_seven : (off : ℕ) → off < 128 → bit_and (off + 128) 0x7f ≡ off
low_seven off h = omega (arith, bit_and_mask 7 (off + 128))

step_lem :
    (fuel off : ℕ) (bytes rest : List ℕ) (addr next : ℕ) (ram new : Memory)
    → write_entry off bytes addr ram ≡ some (rest, next, new)
    → copy_loop (suc fuel) (off ∷ bytes) addr ram ≡ copy_loop fuel rest next new
unfolding copy_loop
step_lem fuel off bytes rest addr next ram new e = rw (e, copy_loop) refl

-- The bytes and the next address that the entries of a pattern leave
after : Entry → (addr : ℕ) → Memory → ℕ × Memory
after e addr ram = write_all (expand e) ((addr + offset e) % 2 ^ 16) ram

single_lem :
    (off value : ℕ) (rest : List ℕ) (addr : ℕ) (ram : Memory)
    → off < 128
    → write_entry off (value ∷ rest) addr ram
      ≡ some (rest, (after (single off value) addr ram).0, (after (single off value) addr ram).1)
unfolding write_entry after expand offset write_all
single_lem off value rest addr ram h = rw (flag_clear off h) refl

literal_entry :
    (off first : ℕ) (bytes rest : List ℕ) (addr : ℕ) (ram : Memory)
    → off < 128
    → length bytes < 128
    → write_entry (off + 128) (length bytes ∷ (first ∷ bytes) ++ rest) addr ram
      ≡ some (
        rest,
        (after (literal off first bytes) addr ram).0,
        (after (literal off first bytes) addr ram).1,
      )
unfolding write_entry after expand offset
literal_entry off first bytes rest addr ram h k =
    rw (flag_set off h, low_seven off h)
      (rw (flag_clear (length bytes) k) (
        rw (add-one (length bytes)) (literal_lem (first ∷ bytes) rest ((addr + off) % 2 ^ 16) ram)))

repeated_entry :
    (off count value : ℕ) (rest : List ℕ) (addr : ℕ) (ram : Memory)
    → off < 128
    → count < 128
    → write_entry (off + 128) ((count + 128) ∷ value ∷ rest) addr ram
      ≡ some (
        rest,
        (after (repeated off count value) addr ram).0,
        (after (repeated off count value) addr ram).1,
      )
unfolding write_entry after expand offset
repeated_entry off count value rest addr ram h k =
    rw (flag_set off h, low_seven off h)
      (rw (flag_set count k, low_seven count k)
        (rw (add-one count) (ap some (run_lem (suc count) value rest ((addr + off) % 2 ^ 16) ram))))

copy_loop-encode_all :
    (entries : List Entry) (fuel addr : ℕ) (ram : Memory)
    → IsPattern entries
    → length entries ≤ fuel
    → copy_loop fuel (encode_all entries) addr ram ≡ some (write_entries entries addr ram)
unfolding encode_all encode write_entries after copy_loop
copy_loop-encode_all [] fuel addr ram h k = refl
copy_loop-encode_all (e ∷ entries) zero addr ram h k = absurd (omega arith)
copy_loop-encode_all (single off value ∷ entries) (suc fuel) addr ram h k =
    let e = single off value in
    step_lem fuel off (value ∷ encode_all entries) (encode_all entries) addr (after e addr ram).0
      ram (after e addr ram).1 (single_lem off value (encode_all entries) addr ram h.0)
    ∙ copy_loop-encode_all entries fuel (after e addr ram).0 (after e addr ram).1 h.1 (omega arith)
copy_loop-encode_all (literal off first bytes ∷ entries) (suc fuel) addr ram h k =
    let e = literal off first bytes in
    step_lem fuel (off + 128) (length bytes ∷ (first ∷ bytes) ++ encode_all entries)
      (encode_all entries) addr (after e addr ram).0 ram (after e addr ram).1
      (literal_entry off first bytes (encode_all entries) addr ram h.0.0 h.0.1)
    ∙ copy_loop-encode_all entries fuel (after e addr ram).0 (after e addr ram).1 h.1 (omega arith)
copy_loop-encode_all (repeated off count value ∷ entries) (suc fuel) addr ram h k =
    let e = repeated off count value in
    step_lem fuel (off + 128) ((count + 128) ∷ value ∷ encode_all entries) (encode_all entries) addr
      (after e addr ram).0 ram (after e addr ram).1
      (repeated_entry off count value (encode_all entries) addr ram h.0.0 h.0.1)
    ∙ copy_loop-encode_all entries fuel (after e addr ram).0 (after e addr ram).1 h.1 (omega arith)

length-encode_all : (entries : List Entry) → length entries ≤ length (encode_all entries)
unfolding encode_all encode
length-encode_all [] = omega arith
length-encode_all (single off value ∷ entries) = omega (arith, length-encode_all entries)
length-encode_all (literal off first bytes ∷ entries) =
    omega (arith, length-append bytes (encode_all entries), length-encode_all entries)
length-encode_all (repeated off count value ∷ entries) = omega (arith, length-encode_all entries)

-- `copyPoweronPattern` ends on every pattern of entries in its format, and writes from address 0 on
-- the bytes that each entry stands for, behind its offset.
pub copy_poweron_pattern-encode_all :
    (entries : List Entry) (ram : Memory)
    → IsPattern entries
    → copy_poweron_pattern (encode_all entries) ram ≡ some (write_entries entries 0 ram)
unfolding copy_poweron_pattern
copy_poweron_pattern-encode_all entries ram h =
    copy_loop-encode_all entries (length (encode_all entries)) 0 ram h (length-encode_all entries)
