-- ===== src/Mmu.antt =====
-- src/c64/mmu.h, mmu.cpp and Banks/pla.h: which bank the CPU sees in each 4 KB page. The IO region is a
-- parameter, as its chips may reach the rest of the machine. Addresses have 16 bits.
pub mod Mapping
pub mod Shadow
mod Tests
use libsidplayfp.Base.{
  ℕ, ◌+◌, ◌*◌, ◌/◌, ◌%◌, ◌^◌, bit_and, Bool, true, false, not, ◌&&◌, ◌||◌, ◌==◌, ◌!=◌,
  if◌then◌else◌, List, get_or, set, replicate, Option, [], ◌∷◌,
}
use libsidplayfp.Endian.{get_16lo8, get_16hi8, endian_16}
use libsidplayfp.EventQueue.{Context, get_time, phi2}
use libsidplayfp.Banks.Ram.{Memory, put_byte, fill, copy, reset_ram}
use libsidplayfp.Banks.Rom.{
  KernalRomBank, BasicRomBank, peek_rom, set_rom, set_kernal, set_basic, reset_kernal, reset_basic,
  install_reset_hook, install_trap, set_subtune,
}
use libsidplayfp.Banks.Port.{
  Port, reset_port, peek_port, poke_dir, charge_bits, poke_data, cpu_port,
}

-- What the entries of `cpuReadMap` and `cpuWriteMap` point to
pub data ReadBank : Type 0 where
  reads_zero reads_ram reads_kernal reads_basic reads_character reads_io : ReadBank

pub data WriteBank : Type 0 where
  writes_zero writes_ram writes_io : WriteBank

pub record Mmu (S : Type 0) : Type 0 where
  pub event_scheduler : Context
  pub rest : S
  pub loram : Bool
  pub hiram : Bool
  pub charen : Bool
  pub cpu_read_map : List ReadBank
  pub cpu_write_map : List WriteBank
  pub kernal : KernalRomBank
  pub basic : BasicRomBank
  pub character : Memory
  pub ram : Memory
  pub port : Port
  pub seed : ℕ

-- `IOBank`
pub record Io (S : Type 0) : Type 0 where
  pub io_peek : ℕ → Mmu S → ℕ × Mmu S
  pub io_poke : ℕ → ℕ → Mmu S → Mmu S

-- `random`, in 32 bits
unfoldable pub random : ℕ → ℕ
random val = (val * 1664525 + 1013904223) % 2 ^ 32

-- The maps that the constructor makes
abbrev pub first_read_map : List ReadBank
first_read_map = reads_zero ∷ replicate 15 reads_ram

abbrev pub first_write_map : List WriteBank
first_write_map = writes_zero ∷ replicate 15 writes_ram

module _ {S : Type 0} where
  abbrev pub put_read : ℕ → ReadBank → Mmu S → Mmu S
  put_read page bank m = record m { cpu_read_map = set m.cpu_read_map page bank }

  abbrev pub put_write : ℕ → WriteBank → Mmu S → Mmu S
  put_write page bank m = record m { cpu_write_map = set m.cpu_write_map page bank }

  -- The constructor, which leaves the ROMs and the RAM to their own.
  unfoldable pub constructed : Mmu S → Mmu S
  constructed m = record m {
    loram = false;
    hiram = false;
    charen = false;
    cpu_read_map = first_read_map;
    cpu_write_map = first_write_map;
  }

  -- `updateMappingPHI2`
  unfoldable pub update_mapping : Mmu S → Mmu S
  update_mapping m =
      let high = if m.hiram then reads_kernal else reads_ram in
      let middle = if m.loram && m.hiram then reads_basic else reads_ram in
      let m1 : Mmu S =
        put_read 0xa middle (put_read 0xb middle (put_read 0xe high (put_read 0xf high m))) in
      let other = if not m.charen && (m.loram || m.hiram) then reads_character else reads_ram in
      if m.charen && (m.loram || m.hiram)
      then put_write 0xd writes_io (put_read 0xd reads_io m1)
      else put_write 0xd writes_ram (put_read 0xd other m1)

  -- `setCpuPort`
  unfoldable pub set_cpu_port : ℕ → Mmu S → Mmu S
  set_cpu_port state m = update_mapping (record m {
    loram = bit_and state 1 != 0;
    hiram = bit_and state 2 != 0;
    charen = bit_and state 4 != 0;
  })

  -- `getLastReadByte` and `getPhi2Time`
  unfoldable pub get_last_read_byte : Mmu S → ℕ × Mmu S
  get_last_read_byte m = let next = random m.seed in (next % 2 ^ 8, record m { seed = next })

  unfoldable pub get_phi2_time : Mmu S → ℕ
  get_phi2_time m = get_time phi2 m.event_scheduler

  -- `ZeroRAMBank::updateCpuPort` is `setCpuPort` of what the new port gives.
  abbrev pub put_port : Port → Mmu S → Mmu S
  put_port p m = set_cpu_port (cpu_port p) (record m { port = p })

  -- `ZeroRAMBank::peek`
  unfoldable pub peek_zero : ℕ → Mmu S → ℕ × Mmu S
  peek_zero address m =
      let (value, p) = peek_port (get_phi2_time m) m.port in
      if address == 0
      then (m.port.dir, m)
      else if address == 1
      then (value, record m { port = p })
      else (m.ram address, m)

  -- `ZeroRAMBank::poke` before the write to the RAM
  unfoldable pub poke_port : ℕ → ℕ → Mmu S → Mmu S
  poke_port address value m =
      let time = get_phi2_time m in
      let charged = charge_bits time value m.port in
      if address == 0
      then if m.port.dir != value then put_port (poke_dir time value m.port) m else m
      else if m.port.latch != value
      then put_port (poke_data value charged) m
      else record m { port = charged }

  -- The byte under the port is what was last on the bus.
  unfoldable pub poke_zero : ℕ → ℕ → Mmu S → Mmu S
  poke_zero address value m =
      let (last, m') = get_last_read_byte (poke_port address value m) in
      if (address == 0) || (address == 1)
      then record m' { ram = put_byte address last m'.ram }
      else record m { ram = put_byte address value m.ram }

  -- `reset`
  unfoldable pub reset_mmu : Mmu S → Mmu S
  reset_mmu m =
      let p = reset_port m.port in
      let m1 : Mmu S = put_port p (record m { ram = reset_ram m.ram }) in
      update_mapping (record m1 {
        kernal = reset_kernal m1.kernal;
        basic = reset_basic m1.basic;
        loram = false;
        hiram = false;
        charen = false;
      })

  -- The methods of `sidmemory`
  unfoldable pub read_mem_word : ℕ → Mmu S → ℕ
  read_mem_word address m = endian_16 (m.ram (address + 1)) (m.ram address)

  unfoldable pub write_mem_word : ℕ → ℕ → Mmu S → Mmu S
  write_mem_word address value m = record m {
    ram = put_byte (address + 1) (get_16hi8 value) (put_byte address (get_16lo8 value) m.ram);
  }

  unfoldable pub fill_ram : (start value size : ℕ) → Mmu S → Mmu S
  fill_ram start value size m = record m { ram = fill start value size m.ram }

  unfoldable pub copy_ram : ℕ → Memory → ℕ → Mmu S → Mmu S
  copy_ram start source size m = record m { ram = copy start source size m.ram }

module _ {S : Type 0} (io : Io S) where
  unfoldable pub read_bank : ReadBank → ℕ → Mmu S → ℕ × Mmu S
  read_bank reads_zero address m = peek_zero address m
  read_bank reads_ram address m = (m.ram address, m)
  read_bank reads_kernal address m = (peek_rom 0x2000 address m.kernal.kernal_rom, m)
  read_bank reads_basic address m = (peek_rom 0x2000 address m.basic.basic_rom, m)
  read_bank reads_character address m = (peek_rom 0x1000 address m.character, m)
  read_bank reads_io address m = io.io_peek address m

  unfoldable pub write_bank : WriteBank → ℕ → ℕ → Mmu S → Mmu S
  write_bank writes_zero address value m = poke_zero address value m
  write_bank writes_ram address value m = record m { ram = put_byte address value m.ram }
  write_bank writes_io address value m = io.io_poke address value m

  -- `cpuRead` and `cpuWrite`
  unfoldable pub cpu_read : ℕ → Mmu S → ℕ × Mmu S
  cpu_read address m = read_bank (get_or m.cpu_read_map (address / 2 ^ 12) reads_ram) address m

  unfoldable pub cpu_write : ℕ → ℕ → Mmu S → Mmu S
  cpu_write address value m =
      write_bank (get_or m.cpu_write_map (address / 2 ^ 12) writes_ram) address value m
