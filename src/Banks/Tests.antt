-- ===== src/Banks/Tests.antt =====
-- The banks at given contents.
use libsidplayfp.Base.{false, ℕ, ◌<◌, ◌≡◌, arith, some, ◌%◌}
use libsidplayfp.Banks.Ram.{Memory}
use libsidplayfp.Banks.Rom.{
  KernalRomBank, set_kernal, install_reset_hook, reset_kernal, set_rom, set_val, kernal_content,
}
use libsidplayfp.Banks.Rom.Hooks.{reset_kernal-install_reset_hook}
use libsidplayfp.Banks.Port.{Port, DataBit}

abbrev noise : Memory
noise a = a % 251

abbrev empty_kernal : KernalRomBank
empty_kernal = record { kernal_rom = λ a. 0; reset_vector = 0 }

noise_bytes : (b : ℕ) → (set_kernal (some noise) empty_kernal).kernal_rom b < 256
unfolding set_kernal kernal_content set_rom set_val
noise_bytes b = ground arith

reset_kernal-install_reset_hook_example :
    (reset_kernal (install_reset_hook 0xc000 (set_kernal (some noise) empty_kernal))).kernal_rom
      0x1ffd
    ≡ (set_kernal (some noise) empty_kernal).kernal_rom 0x1ffd
reset_kernal-install_reset_hook_example =
    reset_kernal-install_reset_hook (some noise) 0xc000 empty_kernal 0x1ffd noise_bytes

abbrev blank_bit : DataBit
blank_bit = record { data_set_clk = 0; is_falling_off = false; data_set = 0 }

abbrev tape_port : Port
tape_port = record {
  data_bit6 = blank_bit;
  data_bit7 = blank_bit;
  dir = 0x2f;
  latch = 0x37;
  data_read = 0;
  proc_port_pins = 0xc0;
}
