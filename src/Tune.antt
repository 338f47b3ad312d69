-- ===== src/Tune.antt =====
-- src/sidtune: what a loaded tune is (SidTuneInfo.h, SidTuneInfoImpl.h and the members of
-- SidTuneBase.h). The loaders and checks are in the children.
pub mod Result
pub mod Path
pub mod Petscii
pub mod Psid
pub mod Accept
pub mod Mus
pub mod Raw
pub mod Load
mod Tests
pub mod Speeds
use libsidplayfp.Base.{
  ℕ, ◌-◌, ◌+◌, ◌/◌, ◌%◌, ◌^◌, bit_and, Bool, true, false, List, [], ◌∷◌, if◌then◌else◌, ◌==◌, ◌!=◌,
  ltb, zero, suc,
}

pub data Clock : Type 0 where
  unknown : Clock
  pal : Clock
  ntsc : Clock
  any : Clock

pub data Model : Type 0 where
  unknown_model : Model
  mos6581 : Model
  mos8580 : Model
  any_model : Model

pub data Compatibility : Type 0 where
  c64 : Compatibility
  psid : Compatibility
  r64 : Compatibility
  basic : Compatibility

pub data Format : Type 0 where
  not_available : Format
  psid_file : Format
  rsid_file : Format
  prg_file : Format
  mus_file : Format
  mus_str_file : Format

abbrev pub speed_vbi : ℕ
speed_vbi = 0

abbrev pub speed_cia_1a : ℕ
speed_cia_1a = 60

abbrev pub max_songs : ℕ
max_songs = 256

-- `SidTuneInfoImpl`
pub record SidTuneInfo : Type 0 where
  pub format : Format
  pub songs : ℕ
  pub start_song : ℕ
  pub current_song : ℕ
  pub song_speed : ℕ
  pub clock_speed : Clock
  pub compatibility : Compatibility
  pub data_file_len : ℕ
  pub c64data_len : ℕ
  pub load_addr : ℕ
  pub init_addr : ℕ
  pub play_addr : ℕ
  pub reloc_start_page : ℕ
  pub reloc_pages : ℕ
  pub path : List ℕ
  pub data_file_name : List ℕ
  pub info_file_name : List ℕ
  pub sid_models : List Model
  pub sid_chip_addresses : List ℕ
  pub info_string : List (List ℕ)
  pub comment_string : List (List ℕ)
  pub fix_load : Bool

-- The constructor of `SidTuneInfoImpl`
abbrev pub new_info : SidTuneInfo
new_info = record {
  format = not_available;
  songs = 0;
  start_song = 0;
  current_song = 0;
  song_speed = speed_vbi;
  clock_speed = unknown;
  compatibility = c64;
  data_file_len = 0;
  c64data_len = 0;
  load_addr = 0;
  init_addr = 0;
  play_addr = 0;
  reloc_start_page = 0;
  reloc_pages = 0;
  path = [];
  data_file_name = [];
  info_file_name = [];
  sid_models = unknown_model ∷ [];
  sid_chip_addresses = 0xd400 ∷ [];
  info_string = [];
  comment_string = [];
  fix_load = false;
}

-- The members of `SidTuneBase`; the tables have `max_songs` entries.
pub record SidTuneBase : Type 0 where
  pub info : SidTuneInfo
  pub song_speeds : ℕ → ℕ
  pub clock_speeds : ℕ → Clock
  pub file_offset : ℕ
  pub cache : List ℕ

abbrev pub new_tune : SidTuneBase
new_tune = record {
  info = new_info;
  song_speeds = λ _. speed_vbi;
  clock_speeds = λ _. unknown;
  file_offset = 0;
  cache = [];
}

-- A write to a table
abbrev pub put_entry : {A : Type 0} → (ℕ → A) → ℕ → A → ℕ → A
put_entry entries i a j = if j == i then a else entries j

abbrev pub speed_of : ℕ → ℕ
speed_of speed = if bit_and speed 1 != 0 then speed_cia_1a else speed_vbi

-- The loop of `convertOldStyleSpeedToTables`: `rounds` more of them, at song `s`
unfoldable pub speed_loop : (rounds s speed : ℕ) → Clock → SidTuneBase → SidTuneBase
speed_loop zero s speed clock t = t
speed_loop (suc rounds) s speed clock t =
    speed_loop rounds (s + 1) (if ltb s 31 then speed / 2 ^ 1 else speed) clock (record t {
      clock_speeds = put_entry t.clock_speeds s clock;
      song_speeds = put_entry t.song_speeds s (speed_of speed);
    })

unfoldable pub convert_old_style_speed_to_tables : ℕ → Clock → SidTuneBase → SidTuneBase
unfolding speed_loop
convert_old_style_speed_to_tables speed clock t =
    speed_loop (if ltb t.info.songs max_songs then t.info.songs else max_songs) 0 speed clock t

-- The place of a song in the tables, `song - 1` as an unsigned int
abbrev pub song_index : ℕ → ℕ
song_index song = (song + (2 ^ 32 - 1)) % 2 ^ 32

-- The entry of the speed table that a song of this compatibility has
abbrev speed_entry : SidTuneBase → Compatibility → (song : ℕ) → ℕ
speed_entry t r64 song = speed_cia_1a
speed_entry t psid song = t.song_speeds (bit_and (song_index song) 31)
speed_entry t other song = t.song_speeds (song_index song)

-- Whether a song number is out of range, and the song that is selected
abbrev selected_song : SidTuneInfo → ℕ → ℕ
selected_song i n = if n == 0 then i.start_song else if ltb i.songs n then i.start_song else n

-- `selectSong`; the active song is in the new state
unfoldable pub select_song : ℕ → SidTuneBase → SidTuneBase
select_song n t =
    let song = selected_song t.info n in
    record t {
      info = record t.info {
        current_song = song;
        song_speed = speed_entry t t.info.compatibility song;
        clock_speed = t.clock_speeds (song_index song);
      };
    }
