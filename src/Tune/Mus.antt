-- ===== src/Tune/Mus.antt =====
-- src/sidtune/MUS.cpp: Sidplayer files. The two players are made by the build: their bytes, load
-- address first, are parameters. Text is read by pointers as in src/sidtune/SmartPtr.h.
pub mod Detect
pub mod Credits
use libsidplayfp.Base.{
  ℕ, zero, suc, ◌+◌, ◌-◌, ◌*◌, ◌/◌, ◌%◌, ◌^◌, Bool, true, false, ◌&&◌, ◌||◌, not, Option, none,
  some, List, [], ◌∷◌, ◌++◌, length, get_or, if◌then◌else◌, ◌==◌, ◌!=◌, ltb, leb,
}
use mathlib.Core.Option
use libsidplayfp.Banks.Ram.{Memory, put_byte, fill}
use libsidplayfp.Endian.{read_big16, read_little16}
use libsidplayfp.Tune.{
  Clock, Clock.any, Compatibility, Compatibility.c64, Format, mus_file, mus_str_file, SidTuneInfo,
  SidTuneBase, new_tune, speed_cia_1a, put_entry,
}
use libsidplayfp.Tune.Accept.{fill_ram, sub_32, accept_sid_tune, place_sid_tune_in_c64mem}
use libsidplayfp.Tune.Petscii.{petscii_to_ascii, deref, increment, advance, drop}
use libsidplayfp.Tune.Result.{
  Load, loaded, failed, LoadError.invalid, LoadError.second_invalid, LoadError.size_exceeded, ◌>>=◌,
  ◌>>◌, require, read_at,
}

abbrev pub hlt_cmd : ℕ
hlt_cmd = 0x14f

abbrev pub data_addr : ℕ
data_addr = 0x0900

-- A voice's last command, two bytes below an index
unfoldable pub halts_at : List ℕ → (index : ℕ) → Load Bool
halts_at buf index = do
  hi ← read_at buf (index - 2)
  lo ← read_at buf (index - 1)
  loaded (read_big16 hi lo == hlt_cmd)

unfoldable pub length_at : List ℕ → (index : ℕ) → Load ℕ
length_at buf index = do
  lo ← read_at buf index
  hi ← read_at buf (index + 1)
  loaded (read_little16 lo hi)

-- `&&`, whose second part is read only if the first holds
abbrev pub and_then : Load Bool → Load Bool → Load Bool
and_then first second = first >>= λ (b : Bool). if b then second else loaded false

-- The voices end with HLT.
unfoldable pub all_halt : List ℕ → (voice1 voice2 voice3 : ℕ) → Load Bool
unfolding halts_at
all_halt buf voice1 voice2 voice3 =
    and_then (halts_at buf voice1) (and_then (halts_at buf voice2) (halts_at buf voice3))

-- `detect`: the index of the text behind voice 3, none if this is no such file
unfoldable pub detect_voices : List ℕ → Load (Option ℕ)
unfolding length_at all_halt
detect_voices buf = do
  len1 ← length_at buf 2
  len2 ← length_at buf 4
  len3 ← length_at buf 6
  let voice1 = 2 + 3 * 2 + len1
  let voice2 = voice1 + len2
  let voice3 = voice2 + len3
  (if ltb (length buf) voice3
      then loaded none
      else all_halt buf voice1 voice2 voice3 >>= λ (halt : Bool).
          loaded (if halt then some voice3 else none))

unfoldable pub detect : List ℕ → Load (Option ℕ)
unfolding detect_voices
detect buf = if ltb (length buf) 8 then loaded none else detect_voices buf

-- `MUS`: the tune with the length of its first part
pub record Mus : Type 0 where
  pub tune : SidTuneBase
  pub mus_data_len : ℕ

-- `setPlayerAddress`
unfoldable pub set_player_address : SidTuneBase → SidTuneBase
set_player_address t =
    if length t.info.sid_chip_addresses == 1
    then record t { info = record t.info { init_addr = 0xec60; play_addr = 0xec80 } }
    else record t { info = record t.info { init_addr = 0xfc90; play_addr = 0xfc96 } }

-- "Extract credits": lines up to a zero byte, with fuel for the lines; none if it is spent
unfoldable pub credits :
    (fuel : ℕ) → List ℕ → (lines : List (List ℕ)) → Option (List (List ℕ) × List ℕ)
unfolding petscii_to_ascii deref
credits zero p lines = none
credits (suc fuel) p lines =
    let (line, p') = petscii_to_ascii p in
    let rest = credits fuel p' (lines ++ line ∷ []) in
    if deref p == 0 then some (lines, p) else rest

-- "Remove trailing empty lines."
abbrev cons_line : List ℕ → List (List ℕ) → List (List ℕ)
cons_line [] [] = []
cons_line line rest = line ∷ rest

unfoldable pub remove_empty : List (List ℕ) → List (List ℕ)
remove_empty [] = []
remove_empty (line ∷ lines) = cons_line line (remove_empty lines)

-- Where the second part is: a file of its own, or behind the text of the first
unfoldable pub find_second : (str_buf p : List ℕ) → Load (Option (ℕ × List ℕ))
unfolding detect
find_second [] p =
    detect p >>= λ (found : Option ℕ). loaded (Option.map (λ voice3. (voice3, p)) found)
find_second (b ∷ str_buf) p = detect (b ∷ str_buf) >>= λ (found : Option ℕ). elim found [
  | none ↦ failed second_invalid
  | some voice3 ↦ loaded (some (voice3, b ∷ str_buf))
]

-- The songs and speeds that a tune of this format starts with
unfoldable pub init_mus : SidTuneBase → SidTuneBase
init_mus t = record t {
  info = record t.info { songs = 1; start_song = 1 };
  song_speeds = put_entry t.song_speeds 0 speed_cia_1a;
  clock_speeds = put_entry t.clock_speeds 0 any;
}

abbrev pub put_second : (stereo : Bool) → SidTuneBase → SidTuneBase
put_second true t = record t {
  info = record t.info {
    sid_chip_addresses = t.info.sid_chip_addresses ++ 0xd500 ∷ [];
    format = mus_str_file;
  };
}
put_second false t = record t { info = record t.info { format = mus_file } }

-- The credits of the second part, which is at `p`, and the length of the first
unfoldable pub second_credits :
    (fuel : ℕ) → Option (ℕ × List ℕ) → List (List ℕ) → Option (List (List ℕ))
unfolding credits advance
second_credits fuel none lines = some lines
second_credits fuel (some (voice3, p)) lines =
    Option.map (λ (r : List (List ℕ) × List ℕ). r.0) (credits fuel (advance voice3 p) lines)

abbrev pub is_some : Option (ℕ × List ℕ) → Bool
is_some none = false
is_some (some s) = true

-- The length of the first part: what stands in front of a second part in the same file
abbrev pub first_len : (str_buf p : List ℕ) (len : ℕ) → Option (ℕ × List ℕ) → ℕ
first_len [] p len (some second) = (len - length p) % 2 ^ 16
first_len str_buf p len second = len

unfoldable pub finish_mus :
    (len : ℕ) (stereo : Bool) → Option (List (List ℕ)) → SidTuneBase → Load (Option Mus)
unfolding set_player_address remove_empty
finish_mus len stereo none t = loaded none
finish_mus len stereo (some lines) t =
    let u = set_player_address (put_second stereo t) in
    loaded (
      some (record {
        tune = record u { info = record u.info { comment_string = remove_empty lines } };
        mus_data_len = len;
      }))

-- The part of `tryLoad` behind the credits of the first part, which end at `p`
unfoldable pub try_second :
    (fuel : ℕ) (str_buf p : List ℕ) (len : ℕ) → List (List ℕ) → SidTuneBase → Load (Option Mus)
unfolding find_second increment
try_second fuel str_buf p len lines t =
    let behind = increment p in
    find_second str_buf behind >>= λ (second : Option (ℕ × List ℕ)).
    finish_mus (first_len str_buf behind len second) (is_some second)
      (second_credits fuel second lines) t

unfoldable pub from_credits :
    (fuel : ℕ) (str_buf : List ℕ) (len : ℕ)
    → Option (List (List ℕ) × List ℕ)
    → SidTuneBase
    → Load (Option Mus)
unfolding try_second
from_credits fuel str_buf len none t = loaded none
from_credits fuel str_buf len (some (lines, p)) t = try_second fuel str_buf p len lines t

abbrev take : ℕ → List ℕ → List ℕ
take zero s = []
take (suc n) [] = []
take (suc n) (c ∷ s) = c ∷ take n s

abbrev is_c64 : Compatibility → Bool
is_c64 c64 = true
is_c64 other = false

-- Whether the first songs all have the speed of the CIA timer
abbrev all_cia : (songs : ℕ) → (ℕ → ℕ) → Bool
all_cia zero speeds = true
all_cia (suc i) speeds = (speeds i == speed_cia_1a) && all_cia i speeds

unfoldable pub check_mus : SidTuneBase → Load (Unit {0})
check_mus t = do
  let i = t.info
  require (is_c64 i.compatibility && (i.reloc_start_page == 0 && i.reloc_pages == 0)) invalid
  require (all_cia i.songs t.song_speeds) invalid

-- `tryLoad` of a new tune. The pointer sees as much of the file as the 16 bits of `musDataLen` say;
-- none if the fuel is spent.
unfoldable pub try_load :
    (fuel : ℕ) (mus_buf str_buf : List ℕ) (voice3 : ℕ) → SidTuneBase → Load (Option Mus)
unfolding init_mus check_mus credits advance from_credits
try_load fuel mus_buf str_buf voice3 t =
    let len = length mus_buf % 2 ^ 16 in
    let u = init_mus t in
    let start = record u { info = record u.info { load_addr = data_addr } } in
    check_mus u
    >> from_credits fuel str_buf len (credits fuel (advance voice3 (take len mus_buf)) []) start

-- `mergeParts`: the size of both parts, and the second behind the first if there are two chips
unfoldable pub merge_parts :
    (player_addr : ℕ) (mus_buf str_buf : List ℕ) → SidTuneInfo → Load (List ℕ)
merge_parts player_addr mus_buf str_buf i = do
  let free_space = sub_32 player_addr data_addr
  require (leb (sub_32 (length mus_buf + length str_buf) 4) free_space) size_exceeded
  loaded (
      if not (length str_buf == 0) && ltb 1 (length i.sid_chip_addresses)
      then mus_buf ++ str_buf
      else mus_buf)

unfoldable pub merge_loaded :
    (player_addr : ℕ) (mus_buf str_buf : List ℕ) → Option Mus → Load (Option (Mus × List ℕ))
unfolding merge_parts
merge_loaded player_addr mus_buf str_buf none = loaded none
merge_loaded player_addr mus_buf str_buf (some m) =
    merge_parts player_addr mus_buf str_buf m.tune.info >>= λ (buf : List ℕ). loaded (some (m, buf))

unfoldable pub load_found :
    (player_addr : ℕ) (mus_buf str_buf : List ℕ) → Option ℕ → Load (Option (Mus × List ℕ))
unfolding try_load
load_found player_addr mus_buf str_buf none = loaded none
load_found player_addr mus_buf str_buf (some voice3) =
    try_load (length mus_buf + length str_buf + 1) mus_buf str_buf voice3 new_tune
    >>= merge_loaded player_addr mus_buf str_buf

-- `MUS::load`: the tune and its file, with the second part at its end; none is the null pointer.
-- There are never more lines of credits than bytes.
unfoldable pub load : (player_addr : ℕ) (mus_buf str_buf : List ℕ) → Load (Option (Mus × List ℕ))
unfolding detect load_found
load player_addr mus_buf str_buf = detect mus_buf >>= load_found player_addr mus_buf str_buf

-- `installPlayer` of one player: its code, NOPs over the reads of the SID, and where the data are
unfoldable pub install_player : (player : List ℕ) (data_start : ℕ) → Memory → Option Memory
unfolding put_byte fill_ram
install_player player data_start ram =
    let dest = read_little16 (get_or player 0 0) (get_or player 1 0) in
    Option.map
      (λ (code : Memory).
        put_byte (dest + 0xc70) (data_start / 2 ^ 8 % 256) (
          put_byte (dest + 0xc6e) (data_start % 256) (fill (dest + (0x424 - 27 - 2)) 0xea 12 code)))
      (fill_ram dest player 2 (length player - 2) ram)

-- `placeSidTuneInC64mem` and `installPlayer`
unfoldable pub place_mus : (player1 player2 : List ℕ) → Mus → Memory → Option Memory
unfolding place_sid_tune_in_c64mem install_player
place_mus player1 player2 m ram =
    Option.bind (place_sid_tune_in_c64mem m.tune ram) (λ (placed : Memory).
      Option.bind (install_player player1 (data_addr + 2) placed) (λ (one : Memory).
        if ltb 1 (length m.tune.info.sid_chip_addresses)
        then install_player player2 (data_addr + m.mus_data_len + 2) one
        else some one))
