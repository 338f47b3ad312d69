-- ===== src/Cpu/Flags.antt =====
-- src/c64/CPU/flags.h: the processor status register.
pub mod Register
use libsidplayfp.Base.{
  ℕ, ◌<◌, ◌%◌, ◌^◌, bit_and, bit_or, Bool, true, false, ◌&&◌, ◌==◌, ◌!=◌, if◌then◌else◌, ◌≡◌, refl,
}

pub record Flags : Type 0 where
  pub c : Bool
  pub z : Bool
  pub i : Bool
  pub d : Bool
  pub v : Bool
  pub n : Bool

abbrev pub reset_flags : Flags
reset_flags = record { c = false; z = false; i = false; d = false; v = false; n = false }

-- A number where the C++ wants a `bool`.
abbrev pub truth : ℕ → Bool
truth value = value != 0

-- `setNZ`: the parameter is a `uint8_t`.
unfoldable pub set_nz : ℕ → Flags → Flags
set_nz value f =
    let byte = value % 2 ^ 8 in record f { z = byte == 0; n = truth (bit_and byte 0x80) }

abbrev pub raise : Bool → ℕ → ℕ → ℕ
raise b mask sr = if b then bit_or sr mask else sr

-- `get`
unfoldable pub get_sr : Flags → ℕ
get_sr f =
    raise f.n 0x80
      (raise f.v 0x40 (raise f.d 0x08 (raise f.i 0x04 (raise f.z 0x02 (raise f.c 0x01 0)))))

-- `set`
unfoldable pub set_sr : ℕ → Flags
set_sr sr = record {
  c = truth (bit_and sr 0x01);
  z = truth (bit_and sr 0x02);
  i = truth (bit_and sr 0x04);
  d = truth (bit_and sr 0x08);
  v = truth (bit_and sr 0x40);
  n = truth (bit_and sr 0x80);
}
