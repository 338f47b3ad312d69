-- ===== src/Tune/Psid/Supported.antt =====
-- src/sidtune/PSID.cpp: which files `load` takes, byte by byte.
use libsidplayfp.Base.{
  ℕ, ◌+◌, ◌*◌, ◌%◌, ◌<◌, ◌≤◌, ◌≡◌, ◌≢◌, ◌↔◌, ◌⊎◌, inl, inr, Bool, true, not, ◌&&◌, ◌||◌, List,
  length, get_or, arith, sym, if◌then◌else◌, leb, ltb, ◌==◌, ◌!=◌, bit_and, bit_and-0x01, ◌∙◌,
}
use libsidplayfp.Endian.{read_big16, read_big32}
use libsidplayfp.Endian.Laws.{endian_16_lem, endian_32_lem}
use libsidplayfp.Tune.Psid.{PsidHeader, psid_id, rsid_id, load}
use libsidplayfp.Tune.Psid.Header.{word_at, dword_at, with_v1, with_v2}
use libsidplayfp.Tune.Result.{overrun}
use libsidplayfp.Tune.Psid.Taken.{gives_tune, taken, header_taken, load-gives_tune, load-overruns}

-- A file begins with the letter `c` and the letters SID.
abbrev pub Spells : ℕ → List ℕ → Type 0
Spells c buf =
    (get_or buf 0 0 ≡ c)
    × (get_or buf 1 0 ≡ b'S')
    × (get_or buf 2 0 ≡ b'I')
    × (get_or buf 3 0 ≡ b'D')

abbrev pub HasVersion : (least : ℕ) → List ℕ → Type 0
HasVersion least buf = (get_or buf 4 0 ≡ 0) × (least ≤ get_or buf 5 0) × (get_or buf 5 0 ≤ 4)

-- The load and play addresses and the speed that an RSID file leaves 0
abbrev pub IsReserved : List ℕ → Type 0
IsReserved buf =
    (get_or buf 8 0 ≡ 0)
    × (get_or buf 9 0 ≡ 0)
    × (get_or buf 12 0 ≡ 0)
    × (get_or buf 13 0 ≡ 0)
    × (get_or buf 18 0 ≡ 0)
    × (get_or buf 19 0 ≡ 0)
    × (get_or buf 20 0 ≡ 0)
    × (get_or buf 21 0 ≡ 0)

abbrev pub IsPsidFile : List ℕ → Type 0
IsPsidFile buf = Spells b'P' buf × HasVersion 1 buf

abbrev pub IsRsidFile : List ℕ → Type 0
IsRsidFile buf = Spells b'R' buf × HasVersion 2 buf × IsReserved buf

-- No MUS data: version 1 has no flags, and later versions have them behind byte 118.
abbrev pub HasNoMus : List ℕ → Type 0
HasNoMus buf = (get_or buf 5 0 ≡ 1) ⊎ ((126 ≤ length buf) × (get_or buf 119 0 % 2 ≡ 0))

abbrev pub IsSupported : List ℕ → Type 0
IsSupported buf = (120 ≤ length buf) × (IsPsidFile buf ⊎ IsRsidFile buf) × HasNoMus buf

module _ (buf : List ℕ) (bytes : (i : ℕ) → get_or buf i 0 < 256) where
  word_at_lem : (i : ℕ) → word_at buf i ≡ get_or buf i 0 * 256 + get_or buf (i + 1) 0
  unfolding read_big16
  word_at_lem i = endian_16_lem (get_or buf i 0) (get_or buf (i + 1) 0) (bytes (i + 1))

  dword_at_lem :
      (i : ℕ)
      → dword_at buf i
        ≡ get_or buf i 0 * 16777216
          + get_or buf (i + 1) 0 * 65536
          + get_or buf (i + 2) 0 * 256
          + get_or buf (i + 3) 0
  unfolding read_big32
  dword_at_lem i = omega (
    arith,
    endian_32_lem (get_or buf i 0) (get_or buf (i + 1) 0) (get_or buf (i + 2) 0)
        (get_or buf (i + 3) 0) (bytes (i + 1)) (bytes (i + 2)) (bytes (i + 3)),
  )

  Spells-iff : (c : ℕ) → (dword_at buf 0 ≡ c * 16777216 + 0x534944) ↔ Spells c buf
  Spells-iff c = (
    λ e. omega (arith, dword_at_lem 0, bytes 0, bytes 1, bytes 2, bytes 3),
    λ e. omega (arith, dword_at_lem 0),
  )

  HasVersion-iff :
      (least : ℕ) → ((least ≤ word_at buf 4) × (word_at buf 4 ≤ 4)) ↔ HasVersion least buf
  HasVersion-iff least =
      (λ e. omega (arith, word_at_lem 4, bytes 5), λ e. omega (arith, word_at_lem 4))

  IsReserved-iff :
      ((word_at buf 8 ≡ 0) × (word_at buf 12 ≡ 0) × (dword_at buf 18 ≡ 0)) ↔ IsReserved buf
  IsReserved-iff = (
    λ e. omega (arith, word_at_lem 8, word_at_lem 12, dword_at_lem 18),
    λ e. omega (arith, word_at_lem 8, word_at_lem 12, dword_at_lem 18),
  )

  flag_lem : bit_and (word_at buf 118) 1 ≡ get_or buf 119 0 % 2
  flag_lem = omega (arith, bit_and-0x01 (word_at buf 118), word_at_lem 118)

-- The same in the numbers of the header
abbrev Matches : (len id version load play speed flag : ℕ) → Type 0
Matches len id version load play speed flag =
    (120 ≤ len)
    × ((id ≡ psid_id) × (1 ≤ version) × (version ≤ 4)
        ⊎ (id ≡ rsid_id) × (2 ≤ version) × (version ≤ 4) × (load ≡ 0) × (play ≡ 0) × (speed ≡ 0))
    × ((version ≡ 1) ⊎ (126 ≤ len) × (flag ≡ 0))

abbrev valid : (id version load play speed : ℕ) (mus : Bool) → Bool
valid id version load play speed mus =
    (if id == psid_id then leb 1 version && leb version 4 else leb 2 version && leb version 4)
    && ((id == psid_id || (load == 0 && play == 0 && speed == 0)) && not (leb 2 version && mus))

-- `stale` is the flag of the header before, which version 1 leaves there.
abbrev matches : (len id version load play speed flag : ℕ) (stale : Bool) → Bool
matches len id version load play speed flag stale =
    leb 120 len
    && ((id == psid_id || id == rsid_id)
        && (if ltb version 2
            then valid id version load play speed stale
            else leb 126 len && valid id version load play speed (flag != 0)))

matches_iff :
    (len id version load play speed flag : ℕ) (stale : Bool)
    → (matches len id version load play speed flag stale ≡ true)
      ↔ Matches len id version load play speed flag
matches_iff len id version load play speed flag stale = (λ e. ground arith, λ e. ground arith)

load-matches :
    (buf : List ℕ) (hdr : PsidHeader)
    → gives_tune (load buf hdr)
      ≡ matches
          (length buf)
          (dword_at buf 0)
          (word_at buf 4)
          (word_at buf 8)
          (word_at buf 12)
          (dword_at buf 18)
          (bit_and (word_at buf 118) 1)
          (bit_and hdr.flags 1 != 0)
unfolding header_taken taken with_v1 with_v2
load-matches buf hdr = load-gives_tune buf hdr

module _ (buf : List ℕ) (bytes : (i : ℕ) → get_or buf i 0 < 256) where
  abbrev FileMatches : Type 0
  FileMatches =
      Matches (length buf) (dword_at buf 0) (word_at buf 4) (word_at buf 8) (word_at buf 12)
        (dword_at buf 18) (bit_and (word_at buf 118) 1)

  HasNoMus-iff :
      ((word_at buf 4 ≡ 1) ⊎ ((126 ≤ length buf) × (bit_and (word_at buf 118) 1 ≡ 0)))
      → HasVersion 1 buf
      → HasNoMus buf
  HasNoMus-iff (inl one) v = inl (omega (arith, word_at_lem buf bytes 4))
  HasNoMus-iff (inr (long, clear)) v = inr (long, omega (arith, flag_lem buf bytes))

  no_mus :
      HasNoMus buf
      → HasVersion 1 buf
      → (word_at buf 4 ≡ 1) ⊎ ((126 ≤ length buf) × (bit_and (word_at buf 118) 1 ≡ 0))
  no_mus (inl one) v = inl (omega (arith, word_at_lem buf bytes 4))
  no_mus (inr (long, clear)) v = inr (long, omega (arith, flag_lem buf bytes))

  Matches-IsSupported : FileMatches → IsSupported buf
  Matches-IsSupported (long, inl (id, least, most), mus) =
      let v = (HasVersion-iff buf bytes 1).0 (least, most) in
      (long, inl ((Spells-iff buf bytes b'P').0 id, v), HasNoMus-iff mus v)
  Matches-IsSupported (long, inr (id, least, most, l, p, s), mus) =
      let v = (HasVersion-iff buf bytes 2).0 (least, most) in
      (
        long,
        inr ((Spells-iff buf bytes b'R').0 id, v, (IsReserved-iff buf bytes).0 (l, p, s)),
        HasNoMus-iff mus (omega arith),
      )

  IsSupported-Matches : IsSupported buf → FileMatches
  IsSupported-Matches (long, inl (name, v), mus) =
      let e = (HasVersion-iff buf bytes 1).1 v in
      (long, inl ((Spells-iff buf bytes b'P').1 name, e.0, e.1), no_mus mus v)
  IsSupported-Matches (long, inr (name, v, reserved), mus) =
      let e = (HasVersion-iff buf bytes 2).1 v in
      let (l, p, s) = (IsReserved-iff buf bytes).1 reserved in
      (long, inr ((Spells-iff buf bytes b'R').1 name, e.0, e.1, l, p, s), no_mus mus (omega arith))

  -- `load` never reads outside the file, and gives a tune exactly for a file that is long enough,
  -- begins as a PSID file of version 1 to 4 or as an RSID file of version 2 to 4 whose reserved
  -- fields are 0, and holds no MUS data, whatever the header held before.
  pub load_lem :
      (hdr : PsidHeader)
      → (load buf hdr ≢ overrun) × ((gives_tune (load buf hdr) ≡ true) ↔ IsSupported buf)
  load_lem hdr =
      let found =
        matches_iff (length buf) (dword_at buf 0) (word_at buf 4) (word_at buf 8) (word_at buf 12)
          (dword_at buf 18) (bit_and (word_at buf 118) 1) (bit_and hdr.flags 1 != 0) in
      (
        load-overruns buf hdr,
        (
          λ e. Matches-IsSupported (found.0 (sym (load-matches buf hdr) ∙ e)),
          λ s. load-matches buf hdr ∙ found.1 (IsSupported-Matches s),
        ),
      )
