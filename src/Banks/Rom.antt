-- ===== src/Banks/Rom.antt =====
-- src/c64/Banks/SystemROMBanks.h. A bank of `n` bytes, a power of two, is read and written at the
-- address masked by `n - 1`; a word at the last byte of a bank is not used by the code.
pub mod Hooks
use libsidplayfp.Base.{ltb, if◌then◌else◌, ℕ, ◌+◌, ◌-◌, bit_and, List, [], ◌∷◌, Option, none, some}
use libsidplayfp.Endian.{get_16lo8, get_16hi8, endian_16}
use libsidplayfp.Cpu.Opcodes.{
  pha_n, txa_n, tya_n, pla_n, tay_n, tax_n, nop_n, jmp_w, nop_a, rti_n, sei_n, jmp_i, rts_n, lda_b,
  sta_a, jsr_w,
}
use libsidplayfp.Banks.Ram.{Memory, put_byte, copy}

module _ (n : ℕ) where
  -- The index of an address, as `getPtr` has it.
  abbrev pub index : ℕ → ℕ
  index address = bit_and address (n - 1)

  -- `setVal` and `setVal16`
  unfoldable pub set_val : ℕ → ℕ → Memory → Memory
  set_val address value rom = put_byte (index address) value rom

  unfoldable pub set_val16 : ℕ → ℕ → Memory → Memory
  set_val16 address value rom =
      put_byte (index address + 1) (get_16hi8 value)
        (put_byte (index address) (get_16lo8 value) rom)

  -- `getVal16`
  unfoldable pub get_val16 : ℕ → Memory → ℕ
  get_val16 address rom = endian_16 (rom (index address + 1)) (rom (index address))

  -- `romBank::set`; none is a null pointer.
  unfoldable pub set_rom : Option Memory → Memory → Memory
  set_rom none rom = rom
  set_rom (some source) rom = copy 0 source n rom

  -- `romBank::peek`
  unfoldable pub peek_rom : ℕ → Memory → ℕ
  peek_rom address rom = rom (index address)

  -- Bytes written one after the other from an index on.
  unfoldable pub put_bytes : ℕ → List ℕ → Memory → Memory
  put_bytes at [] rom = rom
  put_bytes at (b ∷ bytes) rom = put_bytes (at + 1) bytes (put_byte at b rom)

  unfoldable pub put_each : List ℕ → ℕ → Memory → Memory
  put_each [] value rom = rom
  put_each (a ∷ addresses) value rom = put_each addresses value (set_val a value rom)

-- `KernalRomBank`
abbrev pub save_regs : List ℕ
save_regs = pha_n ∷ txa_n ∷ pha_n ∷ tya_n ∷ pha_n ∷ []

abbrev pub restore_regs : List ℕ
restore_regs = pla_n ∷ tay_n ∷ pla_n ∷ tax_n ∷ pla_n ∷ []

abbrev pub kernal_functions : List ℕ
kernal_functions =
    0xff81 ∷ 0xff5b ∷ 0xff84 ∷ 0xfda3 ∷ 0xff87 ∷ 0xfd50 ∷ 0xff8a ∷ 0xfd15 ∷ 0xff8d ∷ 0xfd1a ∷ 0xff90
    ∷ 0xfe18 ∷ 0xff93 ∷ 0xedb9 ∷ 0xff96 ∷ 0xedc7 ∷ 0xff99 ∷ 0xfe25 ∷ 0xff9c ∷ 0xfe34 ∷ 0xff9f
    ∷ 0xea87 ∷ 0xffa2 ∷ 0xfe21 ∷ 0xffa5 ∷ 0xee13 ∷ 0xffa8 ∷ 0xeddd ∷ 0xffab ∷ 0xedef ∷ 0xffae
    ∷ 0xedfe ∷ 0xffb1 ∷ 0xed0c ∷ 0xffb4 ∷ 0xed09 ∷ 0xffb7 ∷ 0xfe07 ∷ 0xffba ∷ 0xfe00 ∷ 0xffbd
    ∷ 0xfdf9 ∷ 0xffc0 ∷ 0xf34a ∷ 0xffc3 ∷ 0xf291 ∷ 0xffc6 ∷ 0xf20e ∷ 0xffc9 ∷ 0xf250 ∷ 0xffcc
    ∷ 0xf333 ∷ 0xffcf ∷ 0xf157 ∷ 0xffd2 ∷ 0xf1ca ∷ 0xffd5 ∷ 0xf49e ∷ 0xffd8 ∷ 0xf5dd ∷ 0xffdb
    ∷ 0xf6e4 ∷ 0xffde ∷ 0xf6dd ∷ 0xffe1 ∷ 0xf6ed ∷ 0xffe4 ∷ 0xf13e ∷ 0xffe7 ∷ 0xf32f ∷ 0xffea
    ∷ 0xf69b ∷ 0xffed ∷ 0xe505 ∷ 0xfff0 ∷ 0xe50a ∷ 0xfff3 ∷ 0xe500 ∷ []

pub record KernalRomBank : Type 0 where
  pub kernal_rom : Memory
  pub reset_vector : ℕ

-- The substitute for the ROM that `KernalRomBank::set` makes when it is given none.
unfoldable pub kernal_stub : Memory → Memory
kernal_stub rom0 =
    let nops : Memory = λ a. if ltb a 0x2000 then nop_n else rom0 a in
    let irq = set_val 0x2000 0xea86 rti_n (
      put_bytes 0x2000 (index 0x2000 0xea81) restore_regs (
        set_val16 0x2000 0xea7f 0xdc0d (
          set_val 0x2000 0xea7e nop_a
            (set_val16 0x2000 0xea32 0xea7e (set_val 0x2000 0xea31 jmp_w nops))))) in
    let entry = set_val16 0x2000 0xfe45 0x0318 (
      set_val 0x2000 0xfe44 jmp_i (set_val 0x2000 0xfe43 sei_n (set_val 0x2000 0xfce2 0x02 irq))) in
    let nmi = set_val 0x2000 0xfec1 rti_n (
      put_bytes 0x2000 (index 0x2000 0xfebc) restore_regs
        (put_bytes 0x2000 (index 0x2000 0xfe47) save_regs entry)) in
    let start =
      set_val16 0x2000 0xff4e 0x0314
        (set_val 0x2000 0xff4d jmp_i (put_bytes 0x2000 (index 0x2000 0xff48) save_regs nmi)) in
    let vectors =
      set_val16 0x2000 0xfffe 0xff48
        (set_val16 0x2000 0xfffc 0xfce2 (set_val16 0x2000 0xfffa 0xfe43 start)) in
    put_each 0x2000 kernal_functions rts_n vectors

-- `KernalRomBank::set`, `reset` and `installResetHook`
unfoldable pub kernal_content : Option Memory → Memory → Memory
kernal_content none rom = kernal_stub rom
kernal_content (some source) rom = set_rom 0x2000 (some source) rom

unfoldable pub set_kernal : Option Memory → KernalRomBank → KernalRomBank
set_kernal source k =
    let rom = kernal_content source k.kernal_rom in
    record { kernal_rom = rom; reset_vector = get_val16 0x2000 0xfffc rom }

unfoldable pub reset_kernal : KernalRomBank → KernalRomBank
reset_kernal k = record k { kernal_rom = set_val16 0x2000 0xfffc k.reset_vector k.kernal_rom }

unfoldable pub install_reset_hook : ℕ → KernalRomBank → KernalRomBank
install_reset_hook address k = record k {
  kernal_rom = set_val16 0x2000 0xfffc address k.kernal_rom;
}

-- `BasicRomBank`: the saved bytes are memories from index 0 on.
pub record BasicRomBank : Type 0 where
  pub basic_rom : Memory
  pub trap : Memory
  pub sub_tune : Memory

abbrev pub slice : ℕ → Memory → Memory
slice start rom a = rom (start + a)

unfoldable pub set_basic : Option Memory → BasicRomBank → BasicRomBank
set_basic source b =
    let rom = set_rom 0x2000 source b.basic_rom in
    record {
      basic_rom = rom;
      trap = slice (index 0x2000 0xa7ae) rom;
      sub_tune = slice (index 0x2000 0xbf53) rom;
    }

unfoldable pub reset_basic : BasicRomBank → BasicRomBank
reset_basic b = record b {
  basic_rom =
      copy (index 0x2000 0xbf53) b.sub_tune 11 (copy (index 0x2000 0xa7ae) b.trap 3 b.basic_rom);
}

unfoldable pub install_trap : ℕ → BasicRomBank → BasicRomBank
install_trap address b = record b {
  basic_rom = set_val16 0x2000 0xa7af address (set_val 0x2000 0xa7ae jmp_w b.basic_rom);
}

unfoldable pub set_subtune : ℕ → BasicRomBank → BasicRomBank
set_subtune tune b = record b {
  basic_rom = set_val16 0x2000 0xbf5c 0xa7b1 (
      set_val 0x2000 0xbf5b jmp_w (
        set_val16 0x2000 0xbf59 0xa82c (
          set_val 0x2000 0xbf58 jsr_w (
            set_val16 0x2000 0xbf56 0x030c (
              set_val 0x2000 0xbf55 sta_a
                (set_val 0x2000 0xbf54 tune (set_val 0x2000 0xbf53 lda_b b.basic_rom)))))));
}
