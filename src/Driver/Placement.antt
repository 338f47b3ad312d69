-- ===== src/Driver/Placement.antt =====
-- src/psiddrv.cpp and src/sidtune/SidTuneBase.cpp: what the memory holds once a tune is
-- placed in it, and that the page of the driver is left alone.
use libsidplayfp.Base.{
  ℕ, ◌+◌, ◌*◌, ◌%◌, ◌^◌, ◌<◌, ◌≤◌, ◌≡◌, ◌⊎◌, inl, inr, subst, some, get_or, arith,
}
use libsidplayfp.Banks.Ram.{Memory}
use libsidplayfp.Endian.{read_little16}
use libsidplayfp.Driver.{find_page, start_page, end_page}
use libsidplayfp.Tune.{SidTuneBase}
use libsidplayfp.Tune.Accept.{write_pointers, copy_bytes}
use libsidplayfp.Driver.FreePage.{Found, find_page_lem}

unfoldable pub read_word : Memory → ℕ → ℕ
read_word ram a = read_little16 (ram a) (ram (a + 1))

abbrev pub HasPointers : (start last : ℕ) → Memory → Type 0
HasPointers start last ram =
    (read_word ram 0x2d ≡ last)
    × (read_word ram 0x2f ≡ last)
    × (read_word ram 0x31 ≡ last)
    × (read_word ram 0xac ≡ start)
    × (read_word ram 0xae ≡ last)

module _ (t : SidTuneBase) (ram : Memory) where
  -- The memory with the pointers and the data
  abbrev placed_ram : Memory
  placed_ram =
      copy_bytes t.info.load_addr t.cache t.file_offset t.info.c64data_len
        (write_pointers t.info.load_addr ((t.info.load_addr + t.info.c64data_len) % 2 ^ 16) ram)

  abbrev pub IsPlaced : Memory → Type 0
  IsPlaced out =
      ((k : ℕ)
        → k < t.info.c64data_len
        → out (t.info.load_addr + k) ≡ get_or t.cache (t.file_offset + k) 0)
      × ((a : ℕ)
          → 0x100 ≤ a
          → (a < t.info.load_addr) ⊎ (t.info.load_addr + t.info.c64data_len ≤ a)
          → out a ≡ ram a)
      × (0xb0 ≤ t.info.load_addr
          → HasPointers t.info.load_addr ((t.info.load_addr + t.info.c64data_len) % 2 ^ 16) out)

  -- The page that is found for the driver of a tune is not changed when the tune is placed.
  pub place-find_page :
      (page : ℕ) (out : Memory)
      → 1 ≤ t.info.c64data_len
      → t.info.load_addr + t.info.c64data_len ≤ 65536
      → IsPlaced out
      → find_page 0xcc 4 (start_page t.info) (end_page t.info) ≡ some page
      → (k : ℕ) → k < 256
      → out (page * 256 + k) ≡ ram (page * 256 + k)
  place-find_page page out some_data fits is_placed e k h =
      let found =
        subst (Found 4 0xd0 (start_page t.info) (end_page t.info)) e
          (find_page_lem (start_page t.info) (end_page t.info)) in
      is_placed.1 (page * 256 + k) (omega arith) (apart found.2.0)
    where
      apart :
          (page < start_page t.info) ⊎ (end_page t.info < page)
          → (page * 256 + k < t.info.load_addr)
            ⊎ (t.info.load_addr + t.info.c64data_len ≤ page * 256 + k)
      apart (inl below) = inl (omega arith)
      apart (inr above) = inr (omega arith)
