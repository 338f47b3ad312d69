-- ===== src/Reloc/Tables.antt =====
-- The loops of src/reloc65.cpp over well-formed tables: they end, at the end of the table, with the
-- effect of its entries.
use mathlib.Core.Path.{subst}
use std.Path.{fun_ext}
use libsidplayfp.Base.{
  put_at, ℕ, zero, suc, ◌+◌, ◌-◌, ◌<◌, ◌≤◌, ◌≡◌, ap, ◌∙◌, arith, bit_and, ◌==◌, if◌then◌else◌, some,
  List, [], ◌∷◌, length,
}
use libsidplayfp.Base.{bit_or, bit_or_low, bit_and-0xff, ◌%◌, ◌/◌, ◌*◌, ◌^◌}
use libsidplayfp.Reloc.{Buffer, set_word, get_word, reldiff, read_options, reloc_entry, reloc_seg}

-- The header options at an index: each begins with its length, and a zero ends them.
abbrev pub OptionsAt : Buffer → ℕ → List ℕ → Type 0
OptionsAt buf at [] = buf at ≡ 0
OptionsAt buf at (c ∷ cs) = (buf at ≡ c) × (1 ≤ c) × OptionsAt buf (at + c) cs

abbrev pub sum : List ℕ → ℕ
sum [] = 0
sum (c ∷ cs) = c + sum cs

options_from :
    (fuel : ℕ) (buf : Buffer) (base l : ℕ) (cs : List ℕ)
    → OptionsAt buf (base + l) cs
    → length cs < fuel
    → read_options fuel buf base l ≡ some (l + sum cs + 1)
unfolding read_options
options_from zero buf base l cs at h = absurd (omega arith)
options_from (suc fuel) buf base l [] at h = ground (arith, at)
options_from (suc fuel) buf base l (c ∷ cs) at h =
    let there : OptionsAt buf (base + (l + c)) cs =
      subst (λ (i : ℕ). OptionsAt buf i cs) {x = base + l + c} (omega arith) at.2 in
    ground (arith, at.0, at.1, options_from fuel buf base (l + c) cs there (omega arith))

-- The loop over the header options ends, with fuel for one step more than there are options, and
-- gives their whole size with the final zero.
pub read_options_lem :
    (fuel : ℕ) (buf : Buffer) (base : ℕ) (cs : List ℕ)
    → OptionsAt buf base cs
    → length cs < fuel
    → read_options fuel buf base 0 ≡ some (sum cs + 1)
read_options_lem fuel buf base cs at h =
    options_from fuel buf base 0 cs
      (subst (λ (i : ℕ). OptionsAt buf i cs) {x = base} (omega arith) at) h
    ∙ ap some (omega arith)

-- An entry of a relocation table: a step of 254 bytes, or an entry with its offset, its type and
-- its segment.
pub data Entry : Type 0 where
  far : Entry
  near : (offset kind : ℕ) → Entry

-- The size of an entry in the table, after the offset
abbrev pub tail_size : ℕ → ℕ
tail_size kind =
    1 + (if bit_and kind 0xe0 == 0x40 then 1 else 0) + (if bit_and kind 0x07 == 0 then 2 else 0)

abbrev pub TableAt : Buffer → ℕ → List Entry → Type 0
TableAt mem at [] = mem at ≡ 0
TableAt mem at (far ∷ es) = (mem at ≡ 255) × TableAt mem (at + 1) es
TableAt mem at (near offset kind ∷ es) =
    (mem at ≡ offset)
    × ((1 ≤ offset) × (offset < 255))
    × (mem (at + 1) ≡ kind)
    × TableAt mem (at + 1 + tail_size kind) es

-- Where a table ends, and the number of bytes of the segment that it spans
abbrev pub table_size : List Entry → ℕ
table_size [] = 1
table_size (far ∷ es) = 1 + table_size es
table_size (near offset kind ∷ es) = 1 + tail_size kind + table_size es

abbrev pub span : List Entry → ℕ
span [] = 0
span (far ∷ es) = 254 + span es
span (near offset kind ∷ es) = offset + span es

-- What an entry adds to an address: the distance that the text segment moves, for an address in it
abbrev pub distance : (m_tdiff kind : ℕ) → ℕ
distance m_tdiff kind = if bit_and kind 0x07 == 2 then m_tdiff else 0

-- An address of two bytes, low byte first, with `moved` added, in the bytes from `place` on
abbrev pub put_moved : (place address : ℕ) → Buffer → Buffer
put_moved place address mem i =
    if i == place + 1 then address / 256 % 256 else if i == place then address % 256 else mem i

-- What an entry of a kind means, for the byte or bytes at `place` and the table's own byte at `rtab`:
-- the address in a word (0x80) moves; so does the address whose high byte stands at `place` and whose
-- low byte stands in the table, behind the kind (0x40), and a low byte (0x20).
abbrev pub relocate : (m_tdiff place rtab kind : ℕ) → Buffer → Buffer
relocate m_tdiff place rtab kind mem i =
    let d = distance m_tdiff kind in
    let format = bit_and kind 0xe0 in
    if format == 0x80
    then put_moved place (mem place + 256 * mem (place + 1) + d) mem i
    else if format == 0x40
    then (if i == rtab + 1
        then (256 * mem place + mem (rtab + 1) + d) % 256
        else if i == place
        then (256 * mem place + mem (rtab + 1) + d) / 256 % 256
        else mem i)
    else if format == 0x20
    then (if i == place then (mem place + d) % 256 else mem i)
    else mem i

-- The effect of the entries, in their order, on a segment; `at` is where the table's entry stands.
abbrev pub effect : (m_tdiff next at : ℕ) → List Entry → Buffer → Buffer
effect m_tdiff next at [] mem = mem
effect m_tdiff next at (far ∷ es) mem = effect m_tdiff (next + 254) (at + 1) es mem
effect m_tdiff next at (near offset kind ∷ es) mem =
    effect m_tdiff (next + offset) (at + 1 + tail_size kind) es
      (relocate m_tdiff (next + offset - 1) (at + 1) kind mem)

abbrev pub AreBytes : Buffer → Type 0
AreBytes mem = (i : ℕ) → mem i < 256

word_value : (lo hi : ℕ) → lo < 256 → bit_or lo (hi * 2 ^ 8) ≡ lo + 256 * hi
word_value lo hi h = omega (arith, bit_or_low 8 hi lo h)

-- `reloc_entry` does what the kind of its entry means.
reloc_entry-relocate :
    (m_tdiff place rtab : ℕ) (mem : Buffer) (i : ℕ)
    → AreBytes mem
    → (reloc_entry m_tdiff place rtab mem).1 i ≡ relocate m_tdiff place rtab (mem rtab) mem i
unfolding reloc_entry set_word get_word put_at reldiff
reloc_entry-relocate m_tdiff place rtab mem i bytes =
    let d = distance m_tdiff (mem rtab) in
    let word = mem place + 256 * mem (place + 1) + d in
    let high = mem place * 256 + mem (rtab + 1) + d in
    let same = word_value (mem place) (mem (place + 1)) (bytes place) in
    ground (
      arith,
      same,
      bit_and-0xff (bit_or (mem place) (mem (place + 1) * 2 ^ 8) + d),
      bit_and-0xff ((bit_or (mem place) (mem (place + 1) * 2 ^ 8) + d) / 2 ^ 8),
      bit_and-0xff high,
      bit_and-0xff (high / 2 ^ 8),
      bit_and-0xff (mem place + d),
    )

relocate-AreBytes :
    (m_tdiff place rtab kind : ℕ) (mem : Buffer)
    → AreBytes mem
    → AreBytes (relocate m_tdiff place rtab kind mem)
relocate-AreBytes m_tdiff place rtab kind mem bytes i = ground (arith, bytes i)

-- A table stands where nothing below it changes.
table_same :
    (mem mem' : Buffer) (at : ℕ) (es : List Entry)
    → ((i : ℕ) → at ≤ i → mem' i ≡ mem i)
    → TableAt mem at es
    → TableAt mem' at es
table_same mem mem' at [] same t = same at (omega arith) ∙ t
table_same mem mem' at (far ∷ es) same t =
    (same at (omega arith) ∙ t.0, table_same mem mem' (at + 1) es (λ i h. same i (omega arith)) t.1)
table_same mem mem' at (near offset kind ∷ es) same t = (
  same at (omega arith) ∙ t.0,
  t.1,
  same (at + 1) (omega arith) ∙ t.2,
  table_same mem mem' (at + 1 + tail_size kind) es (λ i h. same i (omega arith)) t.3,
)

-- An entry changes its place in the segment and its own byte in the table.
relocate_after :
    (m_tdiff place rtab kind : ℕ) (mem : Buffer) (i : ℕ)
    → place + 1 < rtab
    → rtab + tail_size kind ≤ i
    → relocate m_tdiff place rtab kind mem i ≡ mem i
relocate_after m_tdiff place rtab kind mem i below above = ground arith

entry_next :
    (m_tdiff place rtab : ℕ) (mem : Buffer)
    → (reloc_entry m_tdiff place rtab mem).0 ≡ rtab + tail_size (mem rtab)
unfolding reloc_entry
entry_next m_tdiff place rtab mem = ground arith

-- In a buffer of bytes, on a well-formed table that stands behind what it relocates, the loop ends with
-- fuel for one step more than the table has entries, behind the table. Each entry in turn has then
-- moved the address at its place by the distance of the text segment, if its segment is that: a word,
-- a low byte, or a high byte with the low byte that the table has for it. Nothing else has changed.
pub reloc_seg_lem :
    (fuel m_tdiff next rtab : ℕ) (mem : Buffer) (es : List Entry)
    → TableAt mem rtab es
    → next + span es < rtab
    → length es < fuel
    → AreBytes mem
    → reloc_seg fuel m_tdiff next rtab mem
      ≡ some (rtab + table_size es, effect m_tdiff next rtab es mem)
unfolding reloc_seg
reloc_seg_lem zero m_tdiff next rtab mem es t below h bytes = absurd (omega arith)
reloc_seg_lem (suc fuel) m_tdiff next rtab mem [] t below h bytes = ground (arith, t)
reloc_seg_lem (suc fuel) m_tdiff next rtab mem (far ∷ es) t below h bytes = ground (
  arith,
  t.0,
  reloc_seg_lem fuel m_tdiff (next + 254) (rtab + 1) mem es t.1 (omega arith) (omega arith) bytes,
)
reloc_seg_lem (suc fuel) m_tdiff next rtab mem (near offset kind ∷ es) t below h bytes =
    let place = next + offset - 1 in
    let mem' = relocate m_tdiff place (rtab + 1) kind mem in
    let moved : (reloc_entry m_tdiff place (rtab + 1) mem).1 ≡ mem' = fun_ext (λ (i : ℕ).
      reloc_entry-relocate m_tdiff place (rtab + 1) mem i bytes
      ∙ ap (λ (k : ℕ). relocate m_tdiff place (rtab + 1) k mem i) t.2) in
    let kept : TableAt mem' (rtab + 1 + tail_size kind) es =
      table_same mem mem' (rtab + 1 + tail_size kind) es
        (λ i past. relocate_after m_tdiff place (rtab + 1) kind mem i (omega (arith, t.1)) past)
        t.3 in
    let rest =
      reloc_seg_lem fuel m_tdiff (next + offset) (rtab + 1 + tail_size kind) mem' es kept
        (omega (arith, below)) (omega arith)
        (relocate-AreBytes m_tdiff place (rtab + 1) kind mem bytes) in
    let behind : (reloc_entry m_tdiff place (rtab + 1) mem).0 ≡ rtab + 1 + tail_size kind =
      entry_next m_tdiff place (rtab + 1) mem ∙ ap (λ (k : ℕ). rtab + 1 + tail_size k) t.2 in
    ground (arith, t.0, t.1, behind, moved, rest)
