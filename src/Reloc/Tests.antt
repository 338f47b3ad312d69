-- ===== src/Reloc/Tests.antt =====
-- The relocator on a small buffer.
use libsidplayfp.Base.{◌+◌, ◌≡◌, refl, arith, some, [], ◌∷◌, get_or}
use libsidplayfp.Base.{ℕ, List}
use libsidplayfp.Base.Bytes.{get_or-lt}
use libsidplayfp.Reloc.{
  Buffer, read_options, read_undef, skip_zeros, read_names, get_word, reloc_seg,
}
use libsidplayfp.Reloc.Tables.{near, effect, table_size, sum, read_options_lem, reloc_seg_lem}

-- A segment of five bytes with a jump to 0x1003, and a table that relocates its operand as a word
-- of the text segment
abbrev jump_bytes : List ℕ
jump_bytes = 0x4c ∷ 0x03 ∷ 0x10 ∷ 0xea ∷ 0x60 ∷ 2 ∷ 0x82 ∷ 0 ∷ []

abbrev jump : Buffer
jump i = get_or jump_bytes i 0

reloc_seg_lem_example :
    reloc_seg 2 0x300 0 5 jump
    ≡ some (5 + table_size (near 2 0x82 ∷ []), effect 0x300 0 5 (near 2 0x82 ∷ []) jump)
reloc_seg_lem_example =
    reloc_seg_lem 2 0x300 0 5 jump (near 2 0x82 ∷ []) (refl, (omega arith, omega arith), refl, refl)
      (omega arith) (omega arith) (get_or-lt jump_bytes refl)

relocated_word : get_word (effect 0x300 0 5 (near 2 0x82 ∷ []) jump) 1 ≡ 0x1303
unfolding get_word
relocated_word = refl

-- Two options, of 3 and 2 bytes
abbrev two_options : Buffer
two_options i = get_or (3 ∷ 9 ∷ 9 ∷ 2 ∷ 9 ∷ 0 ∷ []) i 0

read_options_lem_example : read_options 3 two_options 0 0 ≡ some (sum (3 ∷ 2 ∷ []) + 1)
read_options_lem_example =
    read_options_lem 3 two_options 0 (3 ∷ 2 ∷ []) (refl, omega arith, (refl, omega arith, refl))
      (omega arith)

-- One undefined reference, named "ab"
abbrev one_name : Buffer
one_name i = get_or (1 ∷ 0 ∷ 0x61 ∷ 0x62 ∷ 0 ∷ []) i 0

-- The list of five bytes is read as one of three.
short_undef : read_undef 9 one_name 0 ≡ some 3
unfolding read_undef read_names skip_zeros get_word
short_undef = refl
