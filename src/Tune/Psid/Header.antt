-- ===== src/Tune/Psid/Header.antt =====
-- src/sidtune/PSID.cpp: `readHeader` stays inside a file that is long enough.
use libsidplayfp.Base.{
  ℕ, ◌+◌, ◌<◌, ◌≤◌, ◌≡◌, refl, true, List, length, get_or, arith, if◌then◌else◌, leb, ltb,
  Bool-cases, inl, inr, ◌∙◌,
}
use libsidplayfp.Endian.{read_big16, read_big32}
use libsidplayfp.Tune.Psid.{
  PsidHeader, big16_at, big32_at, read_v1, read_v2, read_header, read_extended,
}
use libsidplayfp.Tune.Result.{
  Load, loaded, failed, LoadError.truncated, slice, read_at-lt, read_bytes-le,
}

-- The big-endian numbers that stand at an index
abbrev pub word_at : List ℕ → ℕ → ℕ
word_at buf i = read_big16 (get_or buf i 0) (get_or buf (i + 1) 0)

abbrev pub dword_at : List ℕ → ℕ → ℕ
dword_at buf i =
    read_big32 (get_or buf i 0) (get_or buf (i + 1) 0) (get_or buf (i + 2) 0) (get_or buf (i + 3) 0)

pub big16_at-lt :
    (buf : List ℕ) (i : ℕ) → i + 1 < length buf → big16_at buf i ≡ loaded (word_at buf i)
unfolding big16_at
big16_at-lt buf i h = rw (read_at-lt buf i (omega arith)) (rw (read_at-lt buf (i + 1) h) refl)

pub big32_at-lt :
    (buf : List ℕ) (i : ℕ) → i + 3 < length buf → big32_at buf i ≡ loaded (dword_at buf i)
unfolding big32_at
big32_at-lt buf i h = rw (read_at-lt buf i (omega arith)) (
    rw (read_at-lt buf (i + 1) (omega arith))
      (rw (read_at-lt buf (i + 2) (omega arith)) (rw (read_at-lt buf (i + 3) h) refl)))

-- The header with the fields of version 1 of a file
unfoldable pub with_v1 : List ℕ → PsidHeader → PsidHeader
with_v1 buf hdr = record hdr {
  id = dword_at buf 0;
  version = word_at buf 4;
  offset = word_at buf 6;
  load = word_at buf 8;
  init = word_at buf 10;
  play = word_at buf 12;
  songs = word_at buf 14;
  start = word_at buf 16;
  speed = dword_at buf 18;
  name = slice buf 22 32;
  author = slice buf 54 32;
  released = slice buf 86 32;
}

unfoldable pub with_v2 : List ℕ → PsidHeader → PsidHeader
with_v2 buf hdr = record hdr {
  flags = word_at buf 118;
  reloc_start_page = get_or buf 120 0;
  reloc_pages = get_or buf 121 0;
  sid_chip_base2 = get_or buf 122 0;
  sid_chip_base3 = get_or buf 123 0;
}

pub read_v1_lem :
    (buf : List ℕ) (hdr : PsidHeader)
    → 120 ≤ length buf
    → read_v1 buf hdr ≡ loaded (with_v1 buf hdr)
unfolding read_v1 with_v1
read_v1_lem buf hdr h = simp (
  big32_at-lt buf 0 (omega arith),
  big16_at-lt buf 4 (omega arith),
  big16_at-lt buf 6 (omega arith),
  big16_at-lt buf 8 (omega arith),
  big16_at-lt buf 10 (omega arith),
  big16_at-lt buf 12 (omega arith),
  big16_at-lt buf 14 (omega arith),
  big16_at-lt buf 16 (omega arith),
  big32_at-lt buf 18 (omega arith),
  read_bytes-le buf 22 32 (omega arith),
  read_bytes-le buf 54 32 (omega arith),
  read_bytes-le buf 86 32 (omega arith),
)

pub read_v2_lem :
    (buf : List ℕ) (hdr : PsidHeader)
    → 124 ≤ length buf
    → read_v2 buf hdr ≡ loaded (with_v2 buf hdr)
unfolding read_v2 with_v2
read_v2_lem buf hdr h = simp (
  big16_at-lt buf 118 (omega arith),
  read_at-lt buf 120 (omega arith),
  read_at-lt buf 121 (omega arith),
  read_at-lt buf 122 (omega arith),
  read_at-lt buf 123 (omega arith),
)

-- What `readHeader` gives for a file of any length
unfoldable pub header_of : List ℕ → PsidHeader → Load PsidHeader
header_of buf hdr =
    if ltb (length buf) 120
    then failed truncated
    else if ltb (word_at buf 4) 2
    then loaded (with_v1 buf hdr)
    else if ltb (length buf) 126
    then failed truncated
    else loaded (with_v2 buf (with_v1 buf hdr))

pub read_extended_lem :
    (buf : List ℕ) (hdr : PsidHeader)
    → read_extended buf hdr ≡ (
        if ltb hdr.version 2
        then loaded hdr
        else if ltb (length buf) 126
        then failed truncated
        else loaded (with_v2 buf hdr))
unfolding read_extended
read_extended_lem buf hdr = ground (arith, read_v2_lem buf hdr)

pub read_header_lem : (buf : List ℕ) (hdr : PsidHeader) → read_header buf hdr ≡ header_of buf hdr
unfolding read_header header_of
read_header_lem buf hdr = elim (Bool-cases (ltb (length buf) 120)) [
  | inl short ↦ ground arith
  | inr long ↦
      let e : leb 120 (length buf) ≡ true = ground arith in
      rw (e, read_v1_lem buf hdr (ground arith))
        (rw long (read_extended_lem buf (with_v1 buf hdr) ∙ version_lem))
]
  where
    version_lem :
        (if ltb (with_v1 buf hdr).version 2
          then loaded (with_v1 buf hdr)
          else if ltb (length buf) 126
          then failed truncated
          else loaded (with_v2 buf (with_v1 buf hdr)))
        ≡ (if ltb (word_at buf 4) 2
            then loaded (with_v1 buf hdr)
            else if ltb (length buf) 126
            then failed truncated
            else loaded (with_v2 buf (with_v1 buf hdr)))
    version_lem = unfold with_v1 in refl
