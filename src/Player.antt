-- ===== src/Player.antt =====
-- src/player.cpp: how a tune is started. The machine that runs for a while before it is a parameter
-- on the memory that the tune's driver is written to.
pub mod Init
mod Tests
use libsidplayfp.Base.{
  ℕ, ◌+◌, ◌-◌, ◌/◌, ◌%◌, ◌^◌, bit_and, Bool, true, false, ◌||◌, Option, none, some, List,
  if◌then◌else◌, ltb,
}
use libsidplayfp.Banks.Ram.{Memory}
use libsidplayfp.Driver.{
  Driver, no_space, reloc_failed, placed, Sidmemory, with_ram, drv_reloc, install,
}
use libsidplayfp.Reloc.{Buffer}
use libsidplayfp.Tune.{
  Clock, Clock.unknown, Clock.pal, Clock.ntsc, Clock.any, Model, unknown_model, mos6581, mos8580,
  any_model, SidTuneInfo, SidTuneBase,
}
use libsidplayfp.Tune.Accept.{place_sid_tune_in_c64mem, add_32, sub_32}
use mathlib.Core.Option

-- `MAX_POWER_ON_DELAY`
abbrev pub max_delay : ℕ
max_delay = 0x1fff

-- The number of cycles that the machine runs before a tune: a delay above the greatest is random.
unfoldable pub power_on_delay : (configured random : ℕ) → ℕ
power_on_delay configured random =
    (if ltb max_delay configured then bit_and (random / 2 ^ 3) max_delay else configured) + 8000

-- What `initialise` comes to: an exception, or the memory that the CPU is reset with
pub data Start : Type 0 where
  unsupported_size : Start
  driver_error : Driver → Start
  started : Sidmemory → Start

-- The last address of a tune
abbrev pub last_addr : SidTuneInfo → ℕ
last_addr i = sub_32 (add_32 i.load_addr i.c64data_len) 1

-- The driver is installed and the tune placed, in this order, or the driver's error is thrown. The
-- comment on `install` in src/psiddrv.h asks for the other order.
unfoldable pub install_placed :
    (poweron : List ℕ) (video : ℕ) → SidTuneBase → Driver → Sidmemory → Option Start
unfolding install place_sid_tune_in_c64mem
install_placed poweron video t (placed driver size addr driver_length) m =
    Option.bind (install poweron driver size addr video t.info m) (λ (n : Sidmemory).
      Option.map (λ (ram : Memory). started (with_ram (λ r. ram) n))
        (place_sid_tune_in_c64mem t n.ram))
install_placed poweron video t other m = some (driver_error other)

-- `initialise`: `run` is the reset machine after a number of cycles; none is a relocator that is out of
-- fuel, a power-on pattern that ends within an entry, or a copy that leaves its buffer or the RAM.
unfoldable pub initialise :
    (fuel : ℕ)
    → (psid_driver : Buffer) → (poweron : List ℕ) → (run : ℕ → Sidmemory)
    → (configured random video : ℕ) → SidTuneBase
    → Option Start
unfolding drv_reloc install_placed power_on_delay
initialise fuel psid_driver poweron run configured random video t =
    if ltb 0xffff (last_addr t.info)
    then some unsupported_size
    else elim (drv_reloc fuel psid_driver t.info) [
      | none ↦ none
      | some d ↦ install_placed poweron video t d (run (power_on_delay configured random))
    ]

-- `SidConfig::c64_model_t`, and `c64::model_t`
pub data C64Config : Type 0 where
  pal_config : C64Config
  drean_config : C64Config
  ntsc_config : C64Config
  old_ntsc_config : C64Config
  pal_m_config : C64Config

pub data C64Model : Type 0 where
  pal_b : C64Model
  ntsc_m : C64Model
  old_ntsc_m : C64Model
  pal_n : C64Model
  pal_m : C64Model

-- The model that is preferred, with the video switch
unfoldable pub preferred_model : C64Config → C64Model × ℕ
preferred_model pal_config = (pal_b, 1)
preferred_model drean_config = (pal_n, 1)
preferred_model ntsc_config = (ntsc_m, 0)
preferred_model old_ntsc_config = (old_ntsc_m, 0)
preferred_model pal_m_config = (pal_m, 0)

-- `c64model`, without the text that shows the speed: the tune's clock decides unless the user's is
-- forced.
unfoldable pub c64model : C64Config → (forced : Bool) → Clock → C64Model × ℕ
unfolding preferred_model
c64model preferred true clock = preferred_model preferred
c64model preferred false pal = (pal_b, 1)
c64model preferred false ntsc = (ntsc_m, 0)
c64model preferred false unknown = preferred_model preferred
c64model preferred false any = preferred_model preferred

-- `SidConfig::sid_model_t`
pub data SidModel : Type 0 where
  config_6581 : SidModel
  config_8580 : SidModel

-- `getSidModel`: the tune's model, unless it has none or the user's is forced
abbrev user_model : SidModel → Model
user_model config_6581 = mos6581
user_model config_8580 = mos8580

abbrev config_model : Model → SidModel
config_model mos8580 = config_8580
config_model other = config_6581

unfoldable pub get_sid_model : Model → SidModel → (forced : Bool) → SidModel
get_sid_model model preferred true = config_model (user_model preferred)
get_sid_model unknown_model preferred false = config_model (user_model preferred)
get_sid_model any_model preferred false = config_model (user_model preferred)
get_sid_model model preferred false = config_model model
