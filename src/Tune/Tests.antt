-- ===== src/Tune/Tests.antt =====
-- Sample files and tunes for the loaders of src/sidtune.
use libsidplayfp.Base.{
  ℕ, ◌+◌, ◌<◌, ◌≤◌, ◌≡◌, ◌≢◌, ◌↔◌, ◌⊎◌, refl, true, none, some, List, [], ◌∷◌, ◌++◌, length,
  replicate, arith,
}
use libsidplayfp.Base.Bytes.{get_or-lt}
use libsidplayfp.Tune.{
  Clock.pal, Compatibility.c64, SidTuneInfo, SidTuneBase, new_tune, select_song,
  convert_old_style_speed_to_tables,
}
use libsidplayfp.Tune.Accept.{accept_sized, set_sizes, check_reloc_info}
use libsidplayfp.Tune.Accept.Accepts.{accept_sized-plain, accept_sized-outside}
use libsidplayfp.Tune.Accept.Pages.{check_reloc_info_lem, InFreeRam, ApartOrInside}
use libsidplayfp.Tune.Accept.Playable.{IsPlayable}
use libsidplayfp.Tune.Load.{AnyTune, psid_tune, base, get_from_buffer}
use libsidplayfp.Tune.Load.Playable.{get_from_buffer-IsPlayable}
use libsidplayfp.Tune.Mus.{detect, credits}
use libsidplayfp.Tune.Mus.Credits.{credits_lem}
use libsidplayfp.Tune.Mus.Detect.{detect_lem, IsMus, voice3_end}
use libsidplayfp.Tune.Path.{is_slash, file_ext_of_path}
use libsidplayfp.Tune.Petscii.{petscii_to_ascii, petscii_to_ascii-IsLine, IsLine, deref}
use libsidplayfp.Tune.Psid.{PsidHeader, load}
use libsidplayfp.Tune.Psid.Supported.{load_lem, IsSupported}
use libsidplayfp.Tune.Psid.Taken.{gives_tune}
use libsidplayfp.Tune.Raw.{load_p00, load_p00-overrun, p00_id}
use libsidplayfp.Endian.{
  read_big16, read_big32, read_little16, endian_32, endian_16, set_32hi16, set_32lo8, set_32hi8,
  set_16hi8, set_16lo8,
}
use libsidplayfp.Tune.Result.{Load, read_at, read_bytes, loaded, failed, overrun}
use libsidplayfp.Tune.Speeds.{select_song-convert, speed_in}

-- Three voices that each only end, and a text of one line
abbrev mus_bytes : List ℕ
mus_bytes =
    0x00 ∷ 0x09 ∷ 2 ∷ 0 ∷ 2 ∷ 0 ∷ 2 ∷ 0 ∷ 0x01 ∷ 0x4f ∷ 0x01 ∷ 0x4f ∷ 0x01 ∷ 0x4f ∷ 0x41 ∷ 0x0d ∷ 0
    ∷ []

detect_lem_example :
    ((detect mus_bytes ≡ loaded (some (voice3_end mus_bytes))) × IsMus mus_bytes)
    ⊎ ((detect mus_bytes ≡ loaded none) × (IsMus mus_bytes → ⊥))
detect_lem_example = detect_lem mus_bytes

abbrev text : List ℕ
text = 0x41 ∷ 0x9d ∷ 0x42 ∷ 0x0d ∷ 0x43 ∷ 0x00 ∷ []

credits_lem_example : (r : List (List ℕ) × List ℕ) × (credits 7 text [] ≡ some r) × (deref r.1 ≡ 0)
credits_lem_example = credits_lem 7 text [] (omega arith)

petscii_to_ascii-IsLine_example :
    IsLine (petscii_to_ascii text).0
    × ((text ≡ []) ⊎ (length (petscii_to_ascii text).1 < length text))
petscii_to_ascii-IsLine_example = petscii_to_ascii-IsLine text (omega arith)

-- What stood on the stack before a header is read
abbrev stale : PsidHeader
stale = record {
  id = 1;
  version = 2;
  offset = 3;
  load = 4;
  init = 5;
  play = 6;
  songs = 7;
  start = 8;
  speed = 9;
  name = [];
  author = [];
  released = [];
  flags = 1;
  reloc_start_page = 11;
  reloc_pages = 12;
  sid_chip_base2 = 13;
  sid_chip_base3 = 14;
}

-- A PSID file of version 1 with two songs and two bytes of data
abbrev psid_bytes : List ℕ
psid_bytes =
    (b'P' ∷ b'S' ∷ b'I' ∷ b'D' ∷ 0 ∷ 1 ∷ 0 ∷ 118 ∷ 0x10 ∷ 0 ∷ 0x10 ∷ 0 ∷ 0x10 ∷ 3 ∷ 0 ∷ 2 ∷ 0 ∷ 1
      ∷ [])
    ++ replicate 100 0
    ++ 0xea ∷ 0x60 ∷ []

load_lem_example :
    (load psid_bytes stale ≢ overrun)
    × ((gives_tune (load psid_bytes stale) ≡ true) ↔ IsSupported psid_bytes)
load_lem_example = load_lem psid_bytes (get_or-lt psid_bytes refl) stale

abbrev found_tune : Load AnyTune → AnyTune
found_tune (loaded u) = u
found_tune (failed e) = psid_tune new_tune
found_tune overrun = psid_tune new_tune

abbrev sample : AnyTune
unfolding get_from_buffer read_at read_bytes read_big16 read_big32 read_little16 endian_32 endian_16
    set_32hi16 set_32lo8 set_32hi8 set_16hi8 set_16lo8 convert_old_style_speed_to_tables
sample = found_tune (get_from_buffer 0xe000 is_slash stale (some psid_bytes))

sample_found : get_from_buffer 0xe000 is_slash stale (some psid_bytes) ≡ loaded sample
unfolding get_from_buffer read_at read_bytes read_big16 read_big32 read_little16 endian_32 endian_16
    set_32hi16 set_32lo8 set_32hi8 set_16hi8 set_16lo8 convert_old_style_speed_to_tables
sample_found = refl

get_from_buffer-IsPlayable_example : IsPlayable 120 (base sample)
get_from_buffer-IsPlayable_example =
    get_from_buffer-IsPlayable 0xe000 is_slash stale psid_bytes (get_or-lt psid_bytes refl)
      sample_found

-- A tune of 40 songs with the speed bits of the last 8
abbrev forty : SidTuneBase
forty = record new_tune { info = record new_tune.info { songs = 40; start_song = 1 } }

select_song-convert_example :
    (let u = select_song 35 (convert_old_style_speed_to_tables 0xff000000 pal forty) in
      (u.info.current_song ≡ 35)
      × (u.info.song_speed ≡ speed_in c64 0xff000000 35)
      × (u.info.clock_speed ≡ pal))
select_song-convert_example =
    select_song-convert 0xff000000 pal forty 35 (omega arith) (omega arith) (omega arith)

-- A tune at $1000 whose data follow a header of 118 bytes
abbrev plain_tune : SidTuneBase
plain_tune = record new_tune {
  file_offset = 118;
  info = record new_tune.info { load_addr = 0x1000; songs = 2; start_song = 1 };
}

accept_sized-plain_example :
    (u : SidTuneBase) × (accept_sized psid_bytes (set_sizes psid_bytes plain_tune) ≡ loaded u)
accept_sized-plain_example =
    accept_sized-plain psid_bytes plain_tune refl (omega arith) refl (omega arith) (omega arith)
      (omega arith)

-- The data of this one would be behind the end of the file.
abbrev outside_tune : SidTuneBase
outside_tune = record new_tune { file_offset = 500 }

accept_sized-outside_example : accept_sized psid_bytes (set_sizes psid_bytes outside_tune) ≡ overrun
accept_sized-outside_example =
    accept_sized-outside psid_bytes outside_tune refl (omega arith) (omega arith)

-- Data from $1000 to $2FFF, and driver pages strictly inside them
abbrev inside_info : SidTuneInfo
inside_info = record new_tune.info {
  load_addr = 0x1000;
  c64data_len = 0x2000;
  reloc_start_page = 0x18;
  reloc_pages = 2;
}

check_reloc_info_lem_example :
    ((check_reloc_info inside_info).0 ≡ true)
    ↔ ((0x18 + 2 ≤ 256) × InFreeRam 0x18 0x19 × ApartOrInside 0x18 0x19 0x10 0x2f)
check_reloc_info_lem_example =
    check_reloc_info_lem inside_info (omega arith) (omega arith) (omega arith) (omega arith)
      (omega arith)

load_p00-overrun_example :
    load_p00 (b'a' ∷ b'.' ∷ b'p' ∷ b'0' ∷ b'0' ∷ []) (p00_id ++ 0x41 ∷ []) ≡ overrun
unfolding file_ext_of_path
load_p00-overrun_example =
    load_p00-overrun (b'a' ∷ b'.' ∷ b'p' ∷ b'0' ∷ b'0' ∷ []) (p00_id ++ 0x41 ∷ []) refl
      (omega arith) (omega arith)
