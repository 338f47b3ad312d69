-- ===== src/Tune/Accept.antt =====
-- src/sidtune/SidTuneBase.cpp: `acceptSidTune`, the checks that it makes, and
-- `placeSidTuneInC64mem`.
pub mod Steps
pub mod Playable
pub mod Pages
pub mod Accepts
use libsidplayfp.Base.{
  ℕ, ◌+◌, ◌-◌, ◌*◌, ◌/◌, ◌%◌, ◌^◌, bit_and, Bool, true, false, ◌||◌, ◌&&◌, not, Option, none, some,
  List, [], ◌∷◌, length, zero, suc, get_or, if◌then◌else◌, ◌==◌, ◌!=◌, ltb, leb,
}
use libsidplayfp.Endian.{endian_16, read_little16, get_16lo8, get_16hi8}
use libsidplayfp.Banks.Ram.{Memory, put_byte}
use libsidplayfp.Tune.{Compatibility, r64, basic, max_songs, SidTuneInfo, SidTuneBase}
use libsidplayfp.Tune.Path.{slashed_file_name_without_path, file_name_without_path}
use libsidplayfp.Tune.Result.{
  Load, loaded, failed, LoadError.empty, LoadError.data_too_long, LoadError.bad_addr,
  LoadError.bad_reloc, LoadError.corrupt, ◌>>=◌, ◌>>◌, require, read_at,
}

-- Addition and subtraction of `uint_least32_t`
abbrev pub add_32 : ℕ → ℕ → ℕ
add_32 a b = (a + b) % 2 ^ 32

abbrev pub sub_32 : ℕ → ℕ → ℕ
sub_32 a b = (a + 2 ^ 32 - b) % 2 ^ 32

-- `take` and `drop` at the position that a function of SidTuneTools gives
abbrev take : ℕ → List ℕ → List ℕ
take zero s = []
take (suc n) [] = []
take (suc n) (c ∷ s) = c ∷ take n s

abbrev drop : ℕ → List ℕ → List ℕ
drop zero s = s
drop (suc n) [] = []
drop (suc n) (c ∷ s) = drop n s

-- The names of the data file and the info file, each if it is available
module _ (is_separator : ℕ → Bool) where
  abbrev name_pos : (slashed : Bool) → List ℕ → ℕ
  unfolding slashed_file_name_without_path file_name_without_path
  name_pos true s = slashed_file_name_without_path s
  name_pos false s = file_name_without_path is_separator s

  unfoldable pub put_data_name : Option (List ℕ) → Bool → SidTuneInfo → SidTuneInfo
  unfolding name_pos
  put_data_name none slashed i = i
  put_data_name (some s) slashed i = record i {
    path = take (name_pos slashed s) s;
    data_file_name = drop (name_pos slashed s) s;
  }

  unfoldable pub put_info_name : Option (List ℕ) → Bool → SidTuneInfo → SidTuneInfo
  unfolding name_pos
  put_info_name none slashed i = i
  put_info_name (some s) slashed i = record i { info_file_name = drop (name_pos slashed s) s }

-- "Fix bad sidtune set up."
unfoldable pub fix_songs : SidTuneInfo → SidTuneInfo
fix_songs i =
    let songs = if ltb max_songs i.songs then max_songs else if i.songs == 0 then 1 else i.songs in
    record i {
      songs = songs;
      start_song = if i.start_song == 0 || ltb songs i.start_song then 1 else i.start_song;
    }

-- The load address that stands in front of the data
unfoldable pub put_load_addr : SidTuneBase → (hi lo : ℕ) → SidTuneBase
put_load_addr t hi lo = record t {
  file_offset = add_32 t.file_offset 2;
  info = record t.info { load_addr = endian_16 hi lo; c64data_len = sub_32 t.info.c64data_len 2 };
}

unfoldable pub take_load_addr : List ℕ → SidTuneBase → Load SidTuneBase
unfolding put_load_addr
take_load_addr buf t = do
  hi ← read_at buf (t.file_offset + 1)
  lo ← read_at buf t.file_offset
  loaded (put_load_addr t hi lo)

unfoldable pub resolve_load : List ℕ → SidTuneBase → Load SidTuneBase
unfolding take_load_addr
resolve_load buf t =
    if t.info.load_addr == 0
    then require (leb 2 t.info.c64data_len) corrupt >> take_load_addr buf t
    else loaded t

unfoldable pub resolve_init : Compatibility → SidTuneBase → Load SidTuneBase
resolve_init basic t = if t.info.init_addr != 0 then failed bad_addr else loaded t
resolve_init other t =
    if t.info.init_addr == 0
    then loaded (record t { info = record t.info { init_addr = t.info.load_addr } })
    else loaded t

-- The play address that is reserved is taken for none.
unfoldable pub reset_play : SidTuneBase → SidTuneBase
reset_play t = record t {
  info = record t.info { play_addr = if t.info.play_addr == 0xffff then 0 else t.info.play_addr };
}

-- `resolveAddrs`, at `&buf[m_fileOffset]`
unfoldable pub resolve_addrs : List ℕ → SidTuneBase → Load SidTuneBase
unfolding reset_play resolve_load resolve_init
resolve_addrs buf t = do u ← resolve_load buf (reset_play t); resolve_init u.info.compatibility u

-- The pages of the data, first and last, as `checkRelocInfo` computes them
abbrev pub load_first_page : SidTuneInfo → ℕ
load_first_page i = i.load_addr / 2 ^ 8 % 256

abbrev pub load_last_page : SidTuneInfo → ℕ
load_last_page i = (load_first_page i + sub_32 i.c64data_len 1 / 2 ^ 8 % 256) % 256

abbrev pub reloc_last_page : SidTuneInfo → ℕ
reloc_last_page i = bit_and (i.reloc_start_page + i.reloc_pages - 1) 0xff

-- Whether the pages from `startp` to `endp` hold the page `p`
abbrev holds_page : (startp endp p : ℕ) → Bool
holds_page startp endp p = leb startp p && leb p endp

-- The tests of `checkRelocInfo` on a range of pages
unfoldable pub check_pages : (startp endp startlp endlp : ℕ) → Bool
check_pages startp endp startlp endlp =
    if ltb endp startp
    then false
    else if holds_page startp endp startlp || holds_page startp endp endlp
    then false
    else not (
        ltb startp 0x04
        || (holds_page 0xa0 0xbf startp
            || (leb 0xd0 startp || (holds_page 0xa0 0xbf endp || leb 0xd0 endp))))

-- `checkRelocInfo`
unfoldable pub check_reloc_info : SidTuneInfo → Bool × SidTuneInfo
unfolding check_pages
check_reloc_info i =
    if i.reloc_start_page == 0xff
    then (true, record i { reloc_pages = 0 })
    else if i.reloc_pages == 0
    then (true, record i { reloc_start_page = 0 })
    else (
      check_pages i.reloc_start_page (reloc_last_page i) (load_first_page i) (load_last_page i),
      i,
    )

-- The upper four bits of an address below ROMs or IO
abbrev under_rom : ℕ → Bool
under_rom n = n == 0x0a || (n == 0x0b || (n == 0x0d || (n == 0x0e || n == 0x0f)))

abbrev pub min_load_addr : ℕ
min_load_addr = 0x07e8

-- `checkCompatibility`
unfoldable pub check_compatibility : Compatibility → SidTuneInfo → Bool
check_compatibility r64 i =
    if under_rom (i.init_addr / 2 ^ 12)
    then false
    else if ltb i.init_addr i.load_addr
        || ltb (sub_32 (add_32 i.load_addr i.c64data_len) 1) i.init_addr
    then false
    else not (ltb i.load_addr min_load_addr)
check_compatibility other i = true

abbrev max_memory : ℕ
max_memory = 65536

-- Whether the data start with an address two below the load address
unfoldable pub read_fix_load : List ℕ → SidTuneBase → Load SidTuneBase
read_fix_load buf t = do
  lo ← read_at buf t.file_offset
  hi ← read_at buf (t.file_offset + 1)
  loaded
      (record t { info = record t.info { fix_load = read_little16 lo hi == t.info.load_addr + 2 } })

unfoldable pub fix_load : List ℕ → SidTuneBase → Load SidTuneBase
unfolding read_fix_load
fix_load buf t = if leb 2 t.info.data_file_len then read_fix_load buf t else loaded t

-- The last checks of `acceptSidTune`, on the size of the data
unfoldable pub check_size : List ℕ → SidTuneBase → Load SidTuneBase
check_size buf t = do
  require (leb t.info.c64data_len max_memory) data_too_long
  require (t.info.c64data_len != 0) empty
  loaded (record t { cache = buf })

-- The checks of the relocation pages and of the addresses
unfoldable pub check_info : SidTuneBase → Load SidTuneBase
unfolding check_reloc_info check_compatibility
check_info t = do
  let (reloc_ok, info) = check_reloc_info t.info
  require reloc_ok bad_reloc
  require (check_compatibility info.compatibility info) bad_addr
  loaded (record t { info = info })

-- `acceptSidTune` once the songs and the sizes are set
unfoldable pub accept_sized : List ℕ → SidTuneBase → Load SidTuneBase
unfolding resolve_addrs check_info fix_load check_size
accept_sized buf t = do
  u ← resolve_addrs buf t
  v ← check_info u
  w ← fix_load buf v
  check_size buf w

unfoldable pub set_sizes : List ℕ → SidTuneBase → SidTuneBase
unfolding fix_songs
set_sizes buf t = record t {
  info = record (fix_songs t.info) {
    data_file_len = length buf % 2 ^ 32;
    c64data_len = sub_32 (length buf % 2 ^ 32) t.file_offset;
  };
}

-- `acceptSidTune`
unfoldable pub accept_sid_tune :
    (is_separator : ℕ → Bool) (data_name info_name : Option (List ℕ))
    → List ℕ
    → (slashed : Bool) → SidTuneBase
    → Load SidTuneBase
unfolding put_data_name put_info_name set_sizes accept_sized
accept_sid_tune is_separator data_name info_name buf slashed t =
    let named =
      put_info_name is_separator info_name slashed
        (put_data_name is_separator data_name slashed t.info) in
    accept_sized buf (set_sizes buf (record t { info = named }))

-- `writeMemWord` of the memory interface
unfoldable pub write_word : ℕ → ℕ → Memory → Memory
unfolding put_byte get_16lo8 get_16hi8
write_word addr value ram =
    put_byte (addr + 1) (get_16hi8 value) (put_byte addr (get_16lo8 value) ram)

-- `fillRam`: `memcpy` of `count` bytes of a buffer, from `offset` on; none when it reads behind the
-- buffer or writes behind the 65536 bytes of the RAM.
abbrev pub copy_bytes : (start : ℕ) → List ℕ → (offset count : ℕ) → Memory → Memory
copy_bytes start bytes offset count ram a =
    if leb start a && ltb a (start + count) then get_or bytes (offset + (a - start)) 0 else ram a

unfoldable pub fill_ram : (start : ℕ) → List ℕ → (offset count : ℕ) → Memory → Option Memory
fill_ram start bytes offset count ram =
    if leb (offset + count) (length bytes) && leb (start + count) 0x10000
    then some (copy_bytes start bytes offset count ram)
    else none

-- The addresses that the ROMs keep after a program is loaded
unfoldable pub write_pointers : (start end_addr : ℕ) → Memory → Memory
unfolding write_word
write_pointers start end_addr ram = write_word 0xae end_addr (
    write_word 0xac start
      (write_word 0x31 end_addr (write_word 0x2f end_addr (write_word 0x2d end_addr ram))))

-- `placeSidTuneInC64mem`
unfoldable pub place_sid_tune_in_c64mem : SidTuneBase → Memory → Option Memory
unfolding write_pointers fill_ram
place_sid_tune_in_c64mem t ram =
    let start = t.info.load_addr in
    let end_addr = (start + t.info.c64data_len) % 2 ^ 16 in
    fill_ram t.info.load_addr t.cache t.file_offset t.info.c64data_len
      (write_pointers start end_addr ram)
