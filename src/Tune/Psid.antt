-- ===== src/Tune/Psid.antt =====
-- src/sidtune/PSID.cpp: the header of PSID and RSID files and what a tune takes from it.
pub mod Header
pub mod Taken
pub mod Supported
pub mod Words
use libsidplayfp.Base.{
  ℕ, ◌+◌, ◌-◌, ◌*◌, ◌/◌, ◌^◌, bit_and, bit_or, Bool, true, false, ◌||◌, ◌&&◌, not, Option, none,
  some, List, [], ◌∷◌, ◌++◌, length, if◌then◌else◌, ◌==◌, ◌!=◌, ltb, leb,
}
use libsidplayfp.Endian.{read_big16, read_big32}
use libsidplayfp.Tune.{
  Clock, Clock.unknown, Clock.pal, Clock.ntsc, Clock.any, Model, unknown_model, mos6581, mos8580,
  any_model, Compatibility, Compatibility.c64, Compatibility.psid, r64, Compatibility.basic, Format,
  psid_file, rsid_file, SidTuneInfo, SidTuneBase, new_tune, convert_old_style_speed_to_tables,
}
use libsidplayfp.Tune.Result.{
  Load, loaded, failed, LoadError.truncated, LoadError.invalid, LoadError.unknown_psid,
  LoadError.unknown_rsid, LoadError.mus_data, ◌>>=◌, ◌>>◌, require, read_at, read_bytes,
}

-- `psidHeader`
pub record PsidHeader : Type 0 where
  pub id : ℕ
  pub version : ℕ
  pub offset : ℕ
  pub load : ℕ
  pub init : ℕ
  pub play : ℕ
  pub songs : ℕ
  pub start : ℕ
  pub speed : ℕ
  pub name : List ℕ
  pub author : List ℕ
  pub released : List ℕ
  pub flags : ℕ
  pub reloc_start_page : ℕ
  pub reloc_pages : ℕ
  pub sid_chip_base2 : ℕ
  pub sid_chip_base3 : ℕ

abbrev pub psid_id : ℕ
psid_id = 0x50534944

abbrev pub rsid_id : ℕ
rsid_id = 0x52534944

-- `psid_headerSize` and `psidv2_headerSize`
abbrev pub psid_header_size : ℕ
psid_header_size = 118

abbrev pub psidv2_header_size : ℕ
psidv2_header_size = psid_header_size + 6

unfoldable pub big16_at : List ℕ → ℕ → Load ℕ
big16_at buf i = do b0 ← read_at buf i; b1 ← read_at buf (i + 1); loaded (read_big16 b0 b1)

unfoldable pub big32_at : List ℕ → ℕ → Load ℕ
big32_at buf i = do
  b0 ← read_at buf i
  b1 ← read_at buf (i + 1)
  b2 ← read_at buf (i + 2)
  b3 ← read_at buf (i + 3)
  loaded (read_big32 b0 b1 b2 b3)

-- The fields of version 1; the others stay as they are in `hdr`.
unfoldable pub read_v1 : List ℕ → PsidHeader → Load PsidHeader
unfolding big16_at big32_at
read_v1 buf hdr = do
  id ← big32_at buf 0
  version ← big16_at buf 4
  offset ← big16_at buf 6
  load ← big16_at buf 8
  init ← big16_at buf 10
  play ← big16_at buf 12
  songs ← big16_at buf 14
  start ← big16_at buf 16
  speed ← big32_at buf 18
  name ← read_bytes buf 22 32
  author ← read_bytes buf 54 32
  released ← read_bytes buf 86 32
  loaded (record hdr {
    id = id;
    version = version;
    offset = offset;
    load = load;
    init = init;
    play = play;
    songs = songs;
    start = start;
    speed = speed;
    name = name;
    author = author;
    released = released;
  })

-- The fields of versions 2 to 4
unfoldable pub read_v2 : List ℕ → PsidHeader → Load PsidHeader
unfolding big16_at
read_v2 buf hdr = do
  flags ← big16_at buf 118
  start_page ← read_at buf 120
  pages ← read_at buf 121
  base2 ← read_at buf 122
  base3 ← read_at buf 123
  loaded (record hdr {
    flags = flags;
    reloc_start_page = start_page;
    reloc_pages = pages;
    sid_chip_base2 = base2;
    sid_chip_base3 = base3;
  })

-- The rest of `readHeader` once the fields of version 1 are read
unfoldable pub read_extended : List ℕ → PsidHeader → Load PsidHeader
unfolding read_v2
read_extended buf hdr =
    if leb 2 hdr.version
    then require (leb (psidv2_header_size + 2) (length buf)) truncated >> read_v2 buf hdr
    else loaded hdr

-- `readHeader` into a header that holds `hdr`
unfoldable pub read_header : List ℕ → PsidHeader → Load PsidHeader
unfolding read_v1 read_extended
read_header buf hdr = do
  require (leb (psid_header_size + 2) (length buf)) truncated
  hdr' ← read_v1 buf hdr
  read_extended buf hdr'

-- `getSidModel`
unfoldable pub get_sid_model : ℕ → Model
get_sid_model flag =
    if bit_and flag 3 == 3
    then any_model
    else if bit_and flag 1 != 0
    then mos6581
    else if bit_and flag 2 != 0
    then mos8580
    else unknown_model

-- `validateAddress`
unfoldable pub validate_address : ℕ → Bool
validate_address address =
    if bit_and address 1 != 0
    then false
    else if leb address 0x41 || leb 0x80 address && leb address 0xdf
    then false
    else true

-- The identification and the version, as `tryLoad` requires them
unfoldable pub check_version : (id version : ℕ) → Load (Format × Compatibility)
check_version id version =
    if id == psid_id
    then if version == 1
      then loaded (psid_file, psid)
      else if leb 2 version && leb version 4
      then loaded (psid_file, c64)
      else failed unknown_psid
    else if leb 2 version && leb version 4
    then loaded (rsid_file, r64)
    else failed unknown_rsid

-- The clock that the flags ask for
unfoldable pub clock_flag : ℕ → Clock
clock_flag flags =
    if bit_and flags 1 != 0
    then any
    else let clock = bit_and flags 12 in
      if clock == 12 then any else if clock == 4 then pal else if clock == 8 then ntsc else unknown

-- The flag of bit 1, by the compatibility of the format
unfoldable pub special_flag : ℕ → Compatibility → Compatibility
special_flag flags c64 = if bit_and flags 2 != 0 then psid else c64
special_flag flags r64 = if bit_and flags 2 != 0 then basic else r64
special_flag flags other = other

-- An extra SID: its address and its model
abbrev add_chip : (base model : ℕ) → SidTuneInfo → SidTuneInfo
unfolding get_sid_model
add_chip base model i = record i {
  sid_chip_addresses = i.sid_chip_addresses ++ bit_or 0xd000 (base * 2 ^ 4) ∷ [];
  sid_models = i.sid_models ++ get_sid_model model ∷ [];
}

unfoldable pub second_sid : PsidHeader → SidTuneInfo → SidTuneInfo
unfolding add_chip
second_sid h i =
    if validate_address h.sid_chip_base2 then add_chip h.sid_chip_base2 (h.flags / 2 ^ 6) i else i

unfoldable pub third_sid : PsidHeader → SidTuneInfo → SidTuneInfo
unfolding add_chip
third_sid h i =
    if h.sid_chip_base3 != h.sid_chip_base2 && validate_address h.sid_chip_base3
    then add_chip h.sid_chip_base3 (h.flags / 2 ^ 8) i
    else i

abbrev put_first_model : Model → List Model → List Model
put_first_model m [] = []
put_first_model m (n ∷ rest) = m ∷ rest

-- What `tryLoad` takes from the fields of versions 2 to 4
unfoldable pub extend : PsidHeader → SidTuneInfo → SidTuneInfo
unfolding special_flag clock_flag second_sid third_sid get_sid_model
extend h i =
    let base = record i {
      compatibility = special_flag h.flags i.compatibility;
      clock_speed = clock_flag h.flags;
      sid_models = put_first_model (get_sid_model (h.flags / 2 ^ 4)) i.sid_models;
      reloc_start_page = h.reloc_start_page;
      reloc_pages = h.reloc_pages;
    } in
    let two = if leb 3 h.version then second_sid h base else base in
    if leb 4 h.version then third_sid h two else two

-- Whether the fields that RSID reserves are clear
abbrev pub reserved_clear : PsidHeader → Bool
reserved_clear h = h.load == 0 && h.play == 0 && h.speed == 0

abbrev is_r64 : Compatibility → Bool
is_r64 r64 = true
is_r64 other = false

abbrev pub mus_player : PsidHeader → Bool
mus_player h = leb 2 h.version && (bit_and h.flags 1 != 0)

-- The fields of every version; the addresses of the info are not changed after this.
unfoldable pub base_info : Format → Compatibility → PsidHeader → SidTuneInfo → SidTuneInfo
base_info format compatibility h i = record i {
  format = format;
  load_addr = h.load;
  init_addr = h.init;
  play_addr = h.play;
  songs = h.songs;
  start_song = h.start;
  compatibility = compatibility;
  reloc_pages = 0;
  reloc_start_page = 0;
}

unfoldable pub try_load : PsidHeader → SidTuneBase → Load SidTuneBase
unfolding check_version base_info extend clock_flag
try_load h t = do
  (format, compatibility) ← check_version h.id h.version
  let base = base_info format compatibility h t.info
  let info = if leb 2 h.version then extend h base else base
  let clock = if leb 2 h.version then clock_flag h.flags else unknown
  require (not (is_r64 compatibility) || reserved_clear h) invalid
  let speed = if is_r64 compatibility then 0xffffffff else h.speed
  let tune =
      convert_old_style_speed_to_tables speed clock
        (record t { info = info; file_offset = h.offset })
  require (not (mus_player h)) mus_data
  loaded (record tune {
    info = record tune.info {
      info_string = tune.info.info_string ++ h.name ∷ h.author ∷ h.released ∷ [];
    };
  })

-- `PSID::load` once the magic number is read, with the header `hdr` that the stack held
unfoldable pub load_magic : List ℕ → PsidHeader → (magic : ℕ) → Load (Option SidTuneBase)
unfolding read_header try_load
load_magic buf hdr magic =
    if (magic != psid_id) && (magic != rsid_id)
    then loaded none
    else read_header buf hdr >>= λ (h : PsidHeader).
        try_load h new_tune >>= λ (t : SidTuneBase). loaded (some t)

-- `PSID::load`; none is the null pointer.
unfoldable pub load : List ℕ → PsidHeader → Load (Option SidTuneBase)
unfolding load_magic big32_at
load buf hdr = if ltb (length buf) 4 then loaded none else big32_at buf 0 >>= load_magic buf hdr
