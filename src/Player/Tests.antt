-- ===== src/Player/Tests.antt =====
-- A tune that is started with a small driver.
use libsidplayfp.Base.{ℕ, ◌+◌, List, [], ◌∷◌, get_or}
use libsidplayfp.Banks.Ram.{Memory}
use libsidplayfp.Driver.{Sidmemory}
use libsidplayfp.Reloc.{Buffer, set_word}
use libsidplayfp.Tune.{SidTuneBase, new_tune}

-- An o65 file with a text of 24 bytes and nothing to relocate
abbrev file : List ℕ
file =
    1 ∷ 0 ∷ 0x6f ∷ 0x36 ∷ 0x35 ∷ 0 ∷ 0 ∷ 0 ∷ 0 ∷ 0 ∷ 24 ∷ 0 ∷ 0 ∷ 0 ∷ 0 ∷ 0 ∷ 0 ∷ 0 ∷ 0 ∷ 0 ∷ 0 ∷ 0
    ∷ 0 ∷ 0 ∷ 0 ∷ 0 ∷ 0 ∷ 10 ∷ 8 ∷ 2 ∷ 3 ∷ 4 ∷ 5 ∷ 6 ∷ 7 ∷ 8 ∷ 9 ∷ 0 ∷ 0 ∷ 0 ∷ 0 ∷ 0 ∷ 0 ∷ 0 ∷ 0 ∷ 0
    ∷ 0 ∷ 0 ∷ 0xea ∷ 0x4c ∷ 0x60 ∷ []

abbrev psid_driver : Buffer
psid_driver i = get_or file i 0

abbrev code : Memory
code a = set_word psid_driver 8 0x4f6 (27 + a)

-- Four bytes of data from $0400 on, behind a byte of a header: the driver goes to page 5.
abbrev small_tune : SidTuneBase
small_tune = record new_tune {
  info = record new_tune.info { load_addr = 0x0400; c64data_len = 4 };
  file_offset = 1;
  cache = 7 ∷ 0xa9 ∷ 0x0f ∷ 0x60 ∷ 0xea ∷ [];
}

abbrev zeros : Memory
zeros a = 0

abbrev machine : Sidmemory
machine = record {
  ram = zeros;
  kernal = record { kernal_rom = zeros; reset_vector = 0 };
  basic_bank = record { basic_rom = zeros; trap = zeros; sub_tune = zeros };
}
