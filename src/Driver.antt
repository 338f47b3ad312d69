-- ===== src/Driver.antt =====
-- src/psiddrv.cpp: where the driver of a tune goes, and what is written for it. The bytes of the
-- driver and of the power-on pattern are made by the build and are parameters.
pub mod Poweron
pub mod Patterns
pub mod FreePage
pub mod Placement
mod Tests
use libsidplayfp.Base.{
  ℕ, zero, suc, ◌+◌, ◌-◌, ◌*◌, ◌/◌, ◌%◌, ◌^◌, bit_and, Bool, true, false, ◌||◌, ◌&&◌, not, Option,
  none, some, List, [], ◌∷◌, if◌then◌else◌, ◌==◌, ◌!=◌, ltb, leb,
}
use mathlib.Core.Option as Option
use libsidplayfp.Banks.Ram.{Memory, put_byte, fill, copy}
use libsidplayfp.Banks.Rom.{
  KernalRomBank, BasicRomBank, install_reset_hook, install_trap, set_subtune,
}
use libsidplayfp.Driver.Poweron.{copy_poweron_pattern}
use libsidplayfp.Endian.{read_little16}
use libsidplayfp.Reloc.{Buffer, Relocated, refused, relocated, reloc}
use libsidplayfp.Tune.{
  Clock, Clock.unknown, Clock.pal, Clock.ntsc, Clock.any, Compatibility, Compatibility.c64,
  Compatibility.psid, r64, Compatibility.basic, SidTuneInfo, speed_vbi,
}
use libsidplayfp.Tune.Accept.{write_word, add_32, sub_32}

-- `compatibility() == COMPATIBILITY_BASIC`, `== COMPATIBILITY_R64` and `>= COMPATIBILITY_R64`
abbrev pub is_basic : Compatibility → Bool
is_basic basic = true
is_basic other = false

abbrev pub is_r64 : Compatibility → Bool
is_r64 r64 = true
is_r64 other = false

abbrev pub is_real_c64 : Compatibility → Bool
is_real_c64 c = is_r64 c || is_basic c

-- `iomap`
unfoldable pub iomap : Compatibility → (addr : ℕ) → ℕ
iomap c addr =
    if is_real_c64 c || addr == 0
    then 0
    else if ltb addr 0xa000
    then 0x37
    else if ltb addr 0xd000
    then 0x36
    else if leb 0xe000 addr
    then 0x35
    else 0x34

-- The loop over the pages from `i` on: a page of the data and a page of the BASIC ROM are passed over
unfoldable pub find_page : (rounds i startlp endlp : ℕ) → Option ℕ
find_page zero i startlp endlp = none
find_page (suc rounds) i startlp endlp =
    let rest = find_page rounds (i + 1) startlp endlp in
    if leb startlp i && leb i endlp then rest else if leb 0xa0 i && leb i 0xbf then rest else some i

abbrev pub start_page : SidTuneInfo → ℕ
start_page i = i.load_addr / 2 ^ 8

abbrev pub end_page : SidTuneInfo → ℕ
end_page i = add_32 i.load_addr (sub_32 i.c64data_len 1) / 2 ^ 8

-- A page found is one page; none leaves no page.
abbrev pub one_page : Option ℕ → ℕ × ℕ
one_page none = (0, 0)
one_page (some page) = (page, 1)

-- The first part of `drvReloc`: the first page and the number of pages
unfoldable pub choose_pages : SidTuneInfo → ℕ × ℕ
unfolding find_page
choose_pages i =
    let (first, pages) : ℕ × ℕ =
      if is_basic i.compatibility then (0x04, 0x03) else (i.reloc_start_page, i.reloc_pages) in
    if first == 0xff
    then (first, 0)
    else if first == 0
    then one_page (find_page 0xcc 4 (start_page i) (end_page i))
    else (first, pages)

-- The members of `psiddrv` after `drvReloc`, or the error that it leaves
pub data Driver : Type 0 where
  no_space : Driver
  reloc_failed : Driver
  placed : (driver : Memory) (size driver_addr driver_length : ℕ) → Driver

abbrev pub place_driver : (reloc_addr : ℕ) → Relocated → Driver
place_driver reloc_addr refused = reloc_failed
place_driver reloc_addr (relocated start size bytes) =
    placed (λ a. bytes (start + a)) (size - 10) reloc_addr
      (bit_and ((size - 10 + 0xff) % 2 ^ 16) 0xff00)

unfoldable pub placed_at : (reloc_addr : ℕ) → Option Relocated → Option Driver
placed_at reloc_addr none = none
placed_at reloc_addr (some r) = some (place_driver reloc_addr r)

-- `drvReloc`; none is a relocator that is out of fuel.
unfoldable pub drv_reloc : (fuel : ℕ) → (psid_driver : Buffer) → SidTuneInfo → Option Driver
unfolding choose_pages placed_at
drv_reloc fuel psid_driver i =
    let (first, pages) = choose_pages i in
    let reloc_addr = first * 2 ^ 8 % 2 ^ 16 in
    if ltb pages 1
    then some no_space
    else placed_at reloc_addr (reloc fuel (reloc_addr - 10) psid_driver)

-- What the driver writes to: the RAM and the two ROMs that have hooks
pub record Sidmemory : Type 0 where
  pub ram : Memory
  pub kernal : KernalRomBank
  pub basic_bank : BasicRomBank

abbrev pub with_ram : (Memory → Memory) → Sidmemory → Sidmemory
with_ram f m = record m { ram = f m.ram }

-- The hooks, which depend on whether the tune is in BASIC
unfoldable pub install_hooks : (driver : Memory) → SidTuneInfo → Sidmemory → Sidmemory
unfolding write_word
install_hooks driver i m =
    let addr = read_little16 (driver 8) (driver 9) in
    if is_basic i.compatibility
    then record m {
      basic_bank =
          install_trap 0xbf53 (set_subtune ((i.current_song + 2 ^ 32 - 1) % 256) m.basic_bank);
    }
    else record m {
      ram =
          write_word 0x0328 addr
            (copy 0x0314 (λ a. driver (2 + a)) (if is_r64 i.compatibility then 2 else 6) m.ram);
      basic_bank = install_trap 0xffe1 m.basic_bank;
    }

-- The tune's clock for the driver: PAL, NTSC or that of the machine
abbrev pub clock_byte : Clock → (video : ℕ) → ℕ
clock_byte pal video = 1
clock_byte ntsc video = 0
clock_byte other video = video

-- The driver and the bytes that it finds its tune by
unfoldable pub install_driver :
    (driver : Memory) (size pos video : ℕ) → SidTuneInfo → Memory → Memory
unfolding write_word iomap put_byte
install_driver driver size pos video i ram =
    let init = if is_basic i.compatibility then 0xbf55 else i.init_addr in
    put_byte (pos + 10) (if is_real_c64 i.compatibility then 0 else 2 ^ 2) (
      put_byte (pos + 9) (clock_byte i.clock_speed video) (
        put_byte (pos + 8) video (
          put_byte (pos + 7) (iomap i.compatibility i.play_addr) (
            put_byte (pos + 6) (iomap i.compatibility i.init_addr) (
              write_word (pos + 4) i.play_addr (
                write_word (pos + 2) init (
                  put_byte (pos + 1) (if i.song_speed == speed_vbi then 0 else 1) (
                    put_byte pos ((i.current_song + 2 ^ 32 - 1) % 256)
                      (copy pos (λ a. driver (10 + a)) size ram)))))))))

-- The RAM below $0400 and the video standard
unfoldable pub install_page :
    (poweron : List ℕ) (video : ℕ) → Compatibility → Memory → Option Memory
unfolding put_byte
install_page poweron video c ram =
    let cleared = fill 0 0 0x3ff ram in
    Option.map (put_byte 0x02a6 video)
      (if is_real_c64 c then copy_poweron_pattern poweron cleared else some cleared)

-- `install`; none is a power-on pattern that ends within an entry, or a driver that `fillRam` copies to
-- behind the 65536 bytes of the RAM.
unfoldable pub install :
    (poweron : List ℕ) (driver : Memory) (size driver_addr video : ℕ)
    → SidTuneInfo
    → Sidmemory
    → Option Sidmemory
unfolding install_page install_hooks install_driver
install poweron driver size driver_addr video i m =
    if leb (driver_addr + size) 0x10000
    then Option.map
        (λ (ram : Memory).
          let hook = read_little16 (driver 0) (driver 1) in
          with_ram (install_driver driver size driver_addr video i) (
            install_hooks driver i
              (record m { ram = ram; kernal = install_reset_hook hook m.kernal })))
        (install_page poweron video i.compatibility m.ram)
    else none
