-- ===== src/Driver/Tests.antt =====
-- Tunes and patterns for the driver.
use libsidplayfp.Base.{ℕ, ◌≡◌, refl, some, List, [], ◌∷◌, arith}
use mathlib.Core.Option as Option
use libsidplayfp.Driver.{find_page, start_page, end_page}
use libsidplayfp.Driver.FreePage.{Found, find_page_lem}
use libsidplayfp.Driver.Patterns.{
  Entry, single, literal, repeated, encode_all, write_entries, copy_poweron_pattern-encode_all,
}
use libsidplayfp.Driver.Poweron.{copy_poweron_pattern}
use libsidplayfp.Tune.{SidTuneBase, new_tune}
use libsidplayfp.Tune.Accept.{place_sid_tune_in_c64mem}

-- Four pages of data from $0400 on: the driver goes to page 8.
abbrev low_tune : SidTuneBase
low_tune = record new_tune {
  info = record new_tune.info { load_addr = 0x0400; c64data_len = 0x400 };
}

abbrev zeros : ℕ → ℕ
zeros a = 0

page_of_low_tune : find_page 0xcc 4 (start_page low_tune.info) (end_page low_tune.info) ≡ some 8
unfolding find_page
page_of_low_tune = refl

find_page_lem_example : Found 4 0xd0 0x04 0x07 (find_page 0xcc 4 0x04 0x07)
find_page_lem_example = find_page_lem 0x04 0x07

-- Four bytes of data behind a byte of a header
abbrev small_tune : SidTuneBase
small_tune = record new_tune {
  info = record new_tune.info { load_addr = 0x0400; c64data_len = 4 };
  file_offset = 1;
  cache = 7 ∷ 0xa9 ∷ 0x0f ∷ 0x60 ∷ 0xea ∷ [];
}

-- The second byte of the data stands behind the load address.
small_tune_placed :
    Option.map (λ (out : ℕ → ℕ). out 0x401) (place_sid_tune_in_c64mem small_tune zeros) ≡ some 0x0f
unfolding place_sid_tune_in_c64mem
small_tune_placed = refl

abbrev entries : List Entry
entries = single 3 0xaa ∷ literal 4 1 (2 ∷ 3 ∷ []) ∷ repeated 0x10 0x20 0xff ∷ []

copy_poweron_pattern-encode_all_example :
    copy_poweron_pattern (encode_all entries) zeros ≡ some (write_entries entries 0 zeros)
copy_poweron_pattern-encode_all_example =
    copy_poweron_pattern-encode_all entries zeros (omega arith)
