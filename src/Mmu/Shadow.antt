-- ===== src/Mmu/Shadow.antt =====
-- Writes under the ROMs of src/c64/mmu.cpp: they go to the RAM.
use mathlib.Core.Path.{subst}
use libsidplayfp.Base.{
  ℕ, ◌/◌, ◌^◌, ◌<◌, ◌≤◌, ◌≡◌, ◌≢◌, refl, sym, ap, ◌∙◌, arith, Bool, false, List, get_or,
}
use libsidplayfp.Banks.Ram.{Memory, put_byte}
use libsidplayfp.Mmu.Mapping.{pla_read, pla_write, get_or-tabulate, IsMapped, set_cpu_port-IsMapped}
use libsidplayfp.Mmu.{
  ReadBank, reads_zero, reads_ram, reads_kernal, reads_basic, reads_character, reads_io, WriteBank,
  writes_ram, Mmu, Io, update_mapping, set_cpu_port, read_bank, write_bank, cpu_read, cpu_write,
}

pla_ram :
    (l h n : Bool) (page : ℕ)
    → page ≢ 0
    → pla_read l h n page ≢ reads_io
    → pla_write l h n page ≡ writes_ram
unfolding pla_read pla_write
pla_ram l h n page first not_io = ground arith

pla_not_zero : (l h n : Bool) (page : ℕ) → page ≢ 0 → pla_read l h n page ≢ reads_zero
unfolding pla_read
pla_not_zero l h n page first = ground arith

pla_all_ram : (page : ℕ) → page ≢ 0 → pla_read false false false page ≡ reads_ram
unfolding pla_read
pla_all_ram page first = ground arith

module _ {S : Type 0} (io : Io S) where
  -- A ROM does not read the RAM.
  rom_lem :
      (b : ReadBank) (address : ℕ) (r : Memory) (m : Mmu S)
      → b ≢ reads_zero
      → b ≢ reads_io
      → b ≢ reads_ram
      → (read_bank io b address (record m { ram = r })).0 ≡ (read_bank io b address m).0
  unfolding read_bank
  rom_lem reads_zero address r m not_zero not_io not_ram = absurd (not_zero refl)
  rom_lem reads_ram address r m not_zero not_io not_ram = absurd (not_ram refl)
  rom_lem reads_io address r m not_zero not_io not_ram = absurd (not_io refl)
  rom_lem reads_kernal address r m not_zero not_io not_ram = refl
  rom_lem reads_basic address r m not_zero not_io not_ram = refl
  rom_lem reads_character address r m not_zero not_io not_ram = refl

  read_map_lem :
      (address : ℕ) (m : Mmu S)
      → IsMapped m
      → address < 0x10000
      → get_or m.cpu_read_map (address / 2 ^ 12) reads_ram
        ≡ pla_read m.loram m.hiram m.charen (address / 2 ^ 12)
  read_map_lem address m mapped h =
      ap (λ (xs : List ReadBank). get_or xs (address / 2 ^ 12) reads_ram) mapped.reads
      ∙ get_or-tabulate 16 0 (address / 2 ^ 12) (pla_read m.loram m.hiram m.charen) reads_ram
          (omega arith)
      ∙ ap (pla_read m.loram m.hiram m.charen) (omega arith)

  write_map_lem :
      (address : ℕ) (m : Mmu S)
      → IsMapped m
      → address < 0x10000
      → get_or m.cpu_write_map (address / 2 ^ 12) writes_ram
        ≡ pla_write m.loram m.hiram m.charen (address / 2 ^ 12)
  write_map_lem address m mapped h =
      ap (λ (xs : List WriteBank). get_or xs (address / 2 ^ 12) writes_ram) mapped.writes
      ∙ get_or-tabulate 16 0 (address / 2 ^ 12) (pla_write m.loram m.hiram m.charen) writes_ram
          (omega arith)
      ∙ ap (pla_write m.loram m.hiram m.charen) (omega arith)

  -- A write above the first page goes to the RAM and changes nothing else, whatever ROM is visible
  -- there, except in the page of the IO region when that is visible.
  pub cpu_write_lem :
      (address value : ℕ) (m : Mmu S)
      → IsMapped m
      → 0x1000 ≤ address
      → address < 0x10000
      → pla_read m.loram m.hiram m.charen (address / 2 ^ 12) ≢ reads_io
      → cpu_write io address value m ≡ record m { ram = put_byte address value m.ram }
  unfolding cpu_write write_bank
  cpu_write_lem address value m mapped low high not_io =
      ap (λ (b : WriteBank). write_bank io b address value m)
        (write_map_lem address m mapped high
          ∙ pla_ram m.loram m.hiram m.charen _ (omega arith) not_io)

  -- A byte that is written under a ROM is read back from the RAM once the port switches the ROMs
  -- off, and the ROM's byte until then.
  pub cpu_read-set_cpu_port-cpu_write :
      (address value : ℕ) (m : Mmu S)
      → IsMapped m
      → 0x1000 ≤ address
      → address < 0x10000
      → pla_read m.loram m.hiram m.charen (address / 2 ^ 12) ≢ reads_io
      → pla_read m.loram m.hiram m.charen (address / 2 ^ 12) ≢ reads_ram
      → ((cpu_read io address (cpu_write io address value m)).0 ≡ (cpu_read io address m).0)
        × ((cpu_read io address (set_cpu_port 0 (cpu_write io address value m))).0 ≡ value)
  unfolding cpu_read read_bank set_cpu_port update_mapping put_byte
  cpu_read-set_cpu_port-cpu_write address value m mapped low high not_io not_ram =
      let page = address / 2 ^ 12 in
      let m' : Mmu S = record m { ram = put_byte address value m.ram } in
      let after : cpu_write io address value m ≡ m' =
        cpu_write_lem address value m mapped low high not_io in
      let mapped' : IsMapped m' = record { reads = mapped.reads; writes = mapped.writes } in
      let off = set_cpu_port-IsMapped 0 m' mapped' in
      let bank = read_map_lem address m mapped high in
      let bank_off =
        read_map_lem address (set_cpu_port 0 m') off high ∙ pla_all_ram page (omega arith) in
      (
        ap (λ (x : Mmu S). (cpu_read io address x).0) after
            ∙ rom_lem (get_or m.cpu_read_map page reads_ram) address m'.ram m
                (subst (λ (b : ReadBank). b ≢ reads_zero) (sym bank)
                  (pla_not_zero m.loram m.hiram m.charen page (omega arith)))
                (subst (λ (b : ReadBank). b ≢ reads_io) (sym bank) not_io)
                (subst (λ (b : ReadBank). b ≢ reads_ram) (sym bank) not_ram),
        ap (λ (x : Mmu S). (cpu_read io address (set_cpu_port 0 x)).0) after
            ∙ ap (λ (b : ReadBank). (read_bank io b address (set_cpu_port 0 m')).0) bank_off
            ∙ ground arith,
      )
