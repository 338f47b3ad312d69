-- ===== src/Banks/Rom/Hooks.antt =====
-- The patches to the ROMs and their removal.
use libsidplayfp.Base.{ℕ, ◌-◌, ◌/◌, ◌%◌, ◌≤◌, ◌<◌, ◌≡◌, arith, ◌∙◌, ap, Option}
use libsidplayfp.Endian.{get_16lo8, get_16hi8}
use libsidplayfp.Endian.Laws.{endian_16_lem}
use libsidplayfp.Banks.Ram.{Memory, put_byte}
use libsidplayfp.Banks.Rom.{
  slice, KernalRomBank, BasicRomBank, set_val, set_val16, get_val16, set_rom, set_kernal,
  kernal_content, reset_kernal, install_reset_hook, set_basic, install_trap, set_subtune,
  reset_basic, index,
}

-- The hook makes the CPU start at the given address.
pub install_reset_hook_lem :
    (address : ℕ) (k : KernalRomBank)
    → address < 65536
    → get_val16 0x2000 0xfffc (install_reset_hook address k).kernal_rom ≡ address
unfolding get_val16 install_reset_hook set_val16 put_byte get_16lo8 get_16hi8
install_reset_hook_lem address k h =
    endian_16_lem (address / 256 % 256) (address % 256) (omega arith) ∙ omega arith

-- However the reset vector of a Kernal ROM of bytes was hooked, `reset` gives back the ROM that was
-- set, byte by byte.
pub reset_kernal-install_reset_hook :
    (source : Option Memory) (address : ℕ) (k : KernalRomBank) (a : ℕ)
    → ((b : ℕ) → (set_kernal source k).kernal_rom b < 256)
    → (reset_kernal (install_reset_hook address (set_kernal source k))).kernal_rom a
      ≡ (set_kernal source k).kernal_rom a
unfolding install_reset_hook reset_kernal set_kernal get_val16 set_val16 put_byte get_16lo8
    get_16hi8
reset_kernal-install_reset_hook source address k a bytes =
    let rom = kernal_content source k.kernal_rom in
    ground
      (arith, endian_16_lem (rom 0x1ffd) (rom 0x1ffc) (bytes 0x1ffc), bytes 0x1ffc, bytes 0x1ffd)

slice_lem : (start : ℕ) (rom : Memory) (a : ℕ) → start ≤ a → slice start rom (a - start) ≡ rom a
slice_lem start rom a h = ap rom (omega arith)

-- Whatever the trap and the subtune patched into the BASIC ROM, `reset` gives back the ROM that was
-- set, byte by byte.
pub reset_basic-patched :
    (source : Option Memory) (address tune : ℕ) (b : BasicRomBank) (a : ℕ)
    → (reset_basic (set_subtune tune (install_trap address (set_basic source b)))).basic_rom a
      ≡ (set_basic source b).basic_rom a
unfolding set_subtune install_trap set_basic reset_basic set_val set_val16 put_byte
reset_basic-patched source address tune b a =
    let rom = set_rom 0x2000 source b.basic_rom in
    ground (arith, slice_lem (index 0x2000 0xa7ae) rom a, slice_lem (index 0x2000 0xbf53) rom a)
