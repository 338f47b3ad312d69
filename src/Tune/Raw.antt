-- ===== src/Tune/Raw.antt =====
-- src/sidtune/p00.cpp and prg.cpp: tape images and programs, which are run in BASIC.
use libsidplayfp.Base.{
  ℕ, ◌+◌, ◌≤◌, ◌<◌, ◌≡◌, refl, Bool, true, false, ◌&&◌, ◌||◌, not, Option, none, some, List, [],
  ◌∷◌, length, get_or, if◌then◌else◌, ◌==◌, ltb, leb, arith, Bool-cases, inl, inr,
}
use libsidplayfp.Tune.{
  Compatibility.basic, prg_file, SidTuneBase, new_tune, convert_old_style_speed_to_tables,
}
use libsidplayfp.Tune.Path.{file_ext_of_path}
use libsidplayfp.Tune.Petscii.{petscii_to_ascii}
use libsidplayfp.Tune.Result.{
  Load, overrun, read_bytes-le, read_bytes-gt, read_at-ge, loaded, LoadError.truncated,
  LoadError.not_prg, ◌>>=◌, ◌>>◌, require, read_at, read_bytes,
}

abbrev is_digit : ℕ → Bool
is_digit c = leb b'0' c && leb c b'9'

-- `tolower`, for ASCII
abbrev to_lower : ℕ → ℕ
to_lower c = if leb b'A' c && leb c b'Z' then c + 32 else c

-- `stringutils::equal`
abbrev equal : List ℕ → List ℕ → Bool
equal [] [] = true
equal (a ∷ s) (b ∷ t) = (to_lower a == to_lower b) && equal s t
equal s t = false

-- The settings of both formats, at the offset of the data
unfoldable pub basic_tune : (offset : ℕ) (names : List (List ℕ)) → SidTuneBase
basic_tune offset names =
    convert_old_style_speed_to_tables 0xffffffff new_tune.info.clock_speed (record new_tune {
      file_offset = offset;
      info = record new_tune.info {
        format = prg_file;
        info_string = names;
        songs = 1;
        start_song = 1;
        compatibility = basic;
      };
    })

-- `prg::load`
unfoldable pub load_prg : (file_name buf : List ℕ) → Load (Option SidTuneBase)
unfolding file_ext_of_path basic_tune
load_prg file_name buf =
    let ext = file_ext_of_path file_name in
    if not (equal ext (b'.' ∷ b'p' ∷ b'r' ∷ b'g' ∷ []))
      && not (equal ext (b'.' ∷ b'c' ∷ b'6' ∷ b'4' ∷ []))
    then loaded none
    else require (leb 2 (length buf)) truncated >> loaded (some (basic_tune 0 []))

-- The letter of the extension: only `P` is a program, the others are known and not supported.
abbrev is_x00 : ℕ → Bool
is_x00 c = let l = to_lower c in l == b'd' || (l == b's' || (l == b'p' || (l == b'u' || l == b'r')))

abbrev has_extension : List ℕ → Bool
has_extension ext =
    length ext == 4
    && (is_digit (get_or ext 2 0) && (is_digit (get_or ext 3 0) && is_x00 (get_or ext 1 0)))

-- "C64File" and a zero byte
abbrev pub p00_id : List ℕ
p00_id = b'C' ∷ b'6' ∷ b'4' ∷ b'F' ∷ b'i' ∷ b'l' ∷ b'e' ∷ 0 ∷ []

abbrev same_bytes : List ℕ → List ℕ → Bool
same_bytes [] [] = true
same_bytes (a ∷ s) (b ∷ t) = (a == b) && same_bytes s t
same_bytes s t = false

-- `p00::load` once the header is read: the id, and the name of the program
unfoldable pub load_header : (letter : ℕ) (buf id name : List ℕ) → Load (Option SidTuneBase)
unfolding basic_tune petscii_to_ascii
load_header letter buf id name =
    if not (same_bytes id p00_id)
    then loaded none
    else require (to_lower letter == b'p') not_prg
      >> (require (leb (26 + 2) (length buf)) truncated
          >> loaded (some (basic_tune 26 ((petscii_to_ascii name).0 ∷ []))))

-- The header of 26 bytes is copied once the file has the 8 bytes of its id.
unfoldable pub read_x00 : (letter : ℕ) (buf : List ℕ) → Load (Option SidTuneBase)
unfolding load_header
read_x00 letter buf = do
  id ← read_bytes buf 0 8
  name ← read_bytes buf 8 17
  rel_length ← read_at buf 25
  load_header letter buf id name

-- `p00::load`
unfoldable pub load_p00 : (file_name buf : List ℕ) → Load (Option SidTuneBase)
unfolding file_ext_of_path read_x00
load_p00 file_name buf =
    let ext = file_ext_of_path file_name in
    if not (has_extension ext)
    then loaded none
    else if ltb (length buf) 8
    then loaded none
    else read_x00 (get_or ext 1 0) buf

read_x00-overrun :
    (letter : ℕ) (buf : List ℕ) → 8 ≤ length buf → length buf < 26 → read_x00 letter buf ≡ overrun
unfolding read_x00
read_x00-overrun letter buf least short =
    rw (read_bytes-le buf 0 8 least) (elim (Bool-cases (ltb (length buf) 25)) [
      | inl in_name ↦ rw (read_bytes-gt buf 8 17 least (ground arith)) refl
      | inr behind ↦
          rw (read_bytes-le buf 8 17 (ground arith)) (rw (read_at-ge buf 25 (ground arith)) refl)
    ])

-- A file with the id of a tape image and the extension of a program, but without the 26 bytes of the
-- header, is read outside: only the 8 bytes of the id are checked for before the header is copied.
pub load_p00-overrun :
    (file_name buf : List ℕ)
    → has_extension (file_ext_of_path file_name) ≡ true
    → 8 ≤ length buf
    → length buf < 26
    → load_p00 file_name buf ≡ overrun
unfolding load_p00
load_p00-overrun file_name buf ext least short =
    ground (arith, read_x00-overrun (get_or (file_ext_of_path file_name) 1 0) buf)
