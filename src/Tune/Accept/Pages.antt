-- ===== src/Tune/Accept/Pages.antt =====
-- src/sidtune/SidTuneBase.cpp: the pages that `checkRelocInfo` lets the driver have.
use libsidplayfp.Base.{
  ℕ, ◌+◌, ◌-◌, ◌/◌, ◌%◌, ◌<◌, ◌≤◌, ◌≡◌, ◌↔◌, ◌⊎◌, sym, subst, ◌∙◌, true, bit_and-0xff, arith,
}
use libsidplayfp.Tune.{SidTuneInfo}
use libsidplayfp.Tune.Accept.{
  check_pages, check_reloc_info, load_first_page, load_last_page, reloc_last_page,
}

-- Two ranges of pages have none in common, or the first lies inside the second and touches
-- neither of its ends.
abbrev pub ApartOrInside : (first last from to : ℕ) → Type 0
ApartOrInside first last from to = ((last < from) ⊎ (to < first)) ⊎ ((from < first) × (last < to))

-- No page below 4 or above $CF, and none of the BASIC ROM, or all of them
abbrev pub InFreeRam : (first last : ℕ) → Type 0
InFreeRam first last =
    (4 ≤ first)
    × (last < 0xd0)
    × (((last < 0xa0) ⊎ (0xbf < first)) ⊎ ((first < 0xa0) × (0xbf < last)))

check_pages_lem :
    (first last from to : ℕ)
    → from ≤ to
    → (check_pages first last from to ≡ true)
      ↔ ((first ≤ last) × InFreeRam first last × ApartOrInside first last from to)
unfolding check_pages
check_pages_lem first last from to h = (λ e. ground arith, λ e. ground arith)

-- The last page modulo 256 is not below the first exactly when the pages fit into the memory.
last_page_fits :
    (first pages : ℕ)
    → 1 ≤ pages
    → pages < 256
    → first < 256
    → first ≤ (first + pages - 1) % 256
    → (first + pages ≤ 256) × ((first + pages - 1) % 256 ≡ first + pages - 1)
last_page_fits first pages h k l m = omega arith

last_page_lem :
    (first pages : ℕ)
    → 1 ≤ pages
    → first + pages ≤ 256
    → (first + pages - 1) % 256 ≡ first + pages - 1
last_page_lem first pages h k = omega arith

pages_iff :
    (first pages from to : ℕ)
    → 1 ≤ pages
    → pages < 256
    → first < 256
    → from ≤ to
    → (check_pages first ((first + pages - 1) % 256) from to ≡ true) ↔ (
        (first + pages ≤ 256)
        × InFreeRam first (first + pages - 1)
        × ApartOrInside first (first + pages - 1) from to)
pages_iff first pages from to h k l m =
    let both = check_pages_lem first ((first + pages - 1) % 256) from to m in
    (
      λ e.
          let (order, free, apart) = both.0 e in
          let (fits, same) = last_page_fits first pages h k l order in
          (
            fits,
            subst (InFreeRam first) same free,
            subst (λ (last : ℕ). ApartOrInside first last from to) same apart,
          ),
      λ g.
          let same = last_page_lem first pages h g.0 in
          both.1 (
            omega arith,
            subst (InFreeRam first) (sym same) g.1,
            subst (λ (last : ℕ). ApartOrInside first last from to) (sym same) g.2,
          ),
    )

module _ (i : SidTuneInfo) (pages : 1 ≤ i.reloc_pages) (few : i.reloc_pages < 256)
    (page : i.reloc_start_page < 255) (some_data : 1 ≤ i.c64data_len)
    (fits : i.load_addr + i.c64data_len ≤ 65536) where
  data_first : load_first_page i ≡ i.load_addr / 256
  data_first = omega arith

  data_last : load_last_page i ≡ i.load_addr / 256 + (i.c64data_len - 1) / 256
  data_last = omega arith

  reloc_last : reloc_last_page i ≡ (i.reloc_start_page + i.reloc_pages - 1) % 256
  reloc_last = bit_and-0xff (i.reloc_start_page + i.reloc_pages - 1)

  checked :
      (check_reloc_info i).0
      ≡ check_pages i.reloc_start_page
          ((i.reloc_start_page + i.reloc_pages - 1) % 256)
          (i.load_addr / 256)
          (i.load_addr / 256 + (i.c64data_len - 1) / 256)
  unfolding check_reloc_info
  checked = ground (arith, data_first, data_last, reloc_last)

  -- For data that fit into the memory, the pages of a header are let through exactly when they fit
  -- into the memory too, are in the free RAM, and keep apart from the pages of the data, or lie
  -- strictly inside these: only the ends of the ranges are compared, also with the BASIC ROM. The
  -- last page of the data is counted from the first as if they began with it.
  pub check_reloc_info_lem : ((check_reloc_info i).0 ≡ true) ↔ (
      (i.reloc_start_page + i.reloc_pages ≤ 256)
      × InFreeRam i.reloc_start_page (i.reloc_start_page + i.reloc_pages - 1)
      × ApartOrInside i.reloc_start_page
          (i.reloc_start_page + i.reloc_pages - 1)
          (i.load_addr / 256)
          (i.load_addr / 256 + (i.c64data_len - 1) / 256))
  unfolding check_reloc_info
  check_reloc_info_lem =
      let found =
        pages_iff i.reloc_start_page i.reloc_pages (i.load_addr / 256)
          (i.load_addr / 256 + (i.c64data_len - 1) / 256) pages few (omega arith) (omega arith) in
      let same : (check_reloc_info i).0
          ≡ check_pages i.reloc_start_page ((i.reloc_start_page + i.reloc_pages - 1) % 256)
              (i.load_addr / 256) (i.load_addr / 256 + (i.c64data_len - 1) / 256) =
        checked in
      (λ e. found.0 (sym same ∙ e), λ g. same ∙ found.1 g)
