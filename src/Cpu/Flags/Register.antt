-- ===== src/Cpu/Flags/Register.antt =====
-- The status register as one byte.
use libsidplayfp.Base.{
  ℕ, ◌<◌, bit_and, Bool, true, ◌==◌, ==_iff, all_below, all_below_sound, arith, ◌≡◌, refl,
}
use libsidplayfp.Cpu.Flags.{Flags, get_sr, set_sr}

-- The flags come back from the byte that `get` makes of them.
pub set_sr-get_sr : (f : Flags) → set_sr (get_sr f) ≡ f
unfolding set_sr get_sr
set_sr-get_sr f = ground arith

abbrev comes_back : ℕ → Bool
comes_back sr = get_sr (set_sr sr) == bit_and sr 0xcf

bytes_come_back : all_below 256 comes_back ≡ true
unfolding all_below get_sr set_sr
bytes_come_back = refl

-- A byte that the flags are set from comes back with bits 4 and 5 cleared.
pub get_sr-set_sr : (sr : ℕ) → sr < 256 → get_sr (set_sr sr) ≡ bit_and sr 0xcf
get_sr-set_sr sr h =
    (==_iff (get_sr (set_sr sr)) (bit_and sr 0xcf)).0
      (all_below_sound 256 comes_back sr bytes_come_back h)
