-- ===== src/Vic.antt =====
-- src/c64/VIC_II/mos656x.h and mos656x.cpp: the raster of the video chip, its interrupts and its
-- registers. `interrupt` and `setBA` are virtual: they are parameters that act on the rest of the
-- machine. The clock never runs backwards, so `getTime` is not below `rasterClk`.
pub mod Sprites
pub mod Lightpen
pub mod Cycle
pub mod Register
pub mod Progress
pub mod Interrupts
pub mod Sound
pub mod Invariant
pub mod Reachable
pub mod SpriteDma
mod Tests
use libsidplayfp.Base.{
  put_at, switch, Each, NoCase, switch_lem, Each-at, ℕ, zero, suc, ◌+◌, ◌-◌, ◌*◌, ◌/◌, ◌%◌, ◌^◌,
  bit_and, bit_or, Bool, true, false, not, ◌&&◌, ◌||◌, ◌==◌, ◌!=◌, ltb, leb, if◌then◌else◌,
}
use libsidplayfp.World.{World}
use libsidplayfp.EventQueue
use libsidplayfp.EventQueue.{EventId, Context, EventPhase, phi1, phi2, get_time, trigger_at}

-- `model_t`
pub data Model : Type 0 where
  mos6567r56a mos6567r8 mos6569 mos6572 mos6573 : Model

-- `ClockFunc`
pub data ClockFunc : Type 0 where
  clock_pal clock_ntsc clock_old_ntsc : ClockFunc

pub record ModelData : Type 0 where
  pub raster_lines : ℕ
  pub line_cycles : ℕ
  pub clock_func : ClockFunc

unfoldable pub model_data : Model → ModelData
model_data mos6567r56a = record {
  raster_lines = 262;
  line_cycles = 64;
  clock_func = clock_old_ntsc;
}
model_data mos6567r8 = record { raster_lines = 263; line_cycles = 65; clock_func = clock_ntsc }
model_data mos6569 = record { raster_lines = 312; line_cycles = 63; clock_func = clock_pal }
model_data mos6572 = record { raster_lines = 312; line_cycles = 65; clock_func = clock_ntsc }
model_data mos6573 = record { raster_lines = 263; line_cycles = 65; clock_func = clock_ntsc }

-- The registers are a function on the addresses below 0x40.
pub record Vic : Type 0 where
  pub clock : ClockFunc
  pub raster_clk : ℕ
  pub cycles_per_line : ℕ
  pub max_rasters : ℕ
  pub line_cycle : ℕ
  pub raster_y : ℕ
  pub yscroll : ℕ
  pub are_bad_lines_enabled : Bool
  pub is_bad_line : Bool
  pub raster_y_irq_condition : Bool
  pub vblanking : Bool
  pub lp_asserted : Bool
  pub irq_flags : ℕ
  pub irq_mask : ℕ
  pub regs : ℕ → ℕ
  pub lp : Lightpen.Lightpen
  pub sprites : Sprites.Sprites

abbrev pub irq_raster : ℕ
irq_raster = 1

abbrev pub irq_lightpen : ℕ
irq_lightpen = 8

abbrev pub first_dma_line : ℕ
first_dma_line = 0x30

abbrev pub last_dma_line : ℕ
last_dma_line = 0xf7

abbrev pub vicii_fetch_cycle : ℕ
vicii_fetch_cycle = 11

abbrev pub vicii_screen_textcols : ℕ
vicii_screen_textcols = 40

-- `readRasterLineIRQ`, `readDEN`, `evaluateIsBadLine` and `oldRasterY`
unfoldable pub read_raster_line_irq : Vic → ℕ
read_raster_line_irq v = v.regs 0x12 + bit_and (v.regs 0x11) 0x80 * 2

unfoldable pub read_den : Vic → Bool
read_den v = bit_and (v.regs 0x11) 0x10 != 0

unfoldable pub evaluate_is_bad_line : Vic → Bool
evaluate_is_bad_line v =
    v.are_bad_lines_enabled
    && (leb first_dma_line v.raster_y
        && (leb v.raster_y last_dma_line && (bit_and v.raster_y 7 == v.yscroll)))

unfoldable pub old_raster_y : Vic → ℕ
old_raster_y v = (if ltb 0 v.raster_y then v.raster_y else v.max_rasters) - 1

-- The chip with the machine around it.
pub record Machine (S : Type 0) : Type 0 where
  pub this : Vic
  pub world : World S

-- The virtual functions.
pub record Env (S : Type 0) : Type 0 where
  pub interrupt : Bool → World S → World S
  pub set_ba : Bool → World S → World S

-- The events: the chip itself and its three callbacks.
pub record Events : Type 0 where
  pub self : EventId
  pub bad_line_state_change_event : EventId
  pub raster_y_irq_edge_detector_event : EventId
  pub lightpen_trigger_event : EventId

module _ {S : Type 0} where
  abbrev pub on_vic : (Vic → Vic) → Machine S → Machine S
  on_vic f m = record m { this = f m.this }

  abbrev pub on_context : (Context → Context) → Machine S → Machine S
  on_context f m = record m { world = record m.world { context = f m.world.context } }

module _ {S : Type 0} (env : Env S) where
  abbrev pub call_interrupt : Bool → Machine S → Machine S
  call_interrupt b m = record m { world = env.interrupt b m.world }

  abbrev pub call_set_ba : Bool → Machine S → Machine S
  call_set_ba b m = record m { world = env.set_ba b m.world }

  -- `handleIrqState`
  unfoldable pub handle_irq_state : Machine S → Machine S
  handle_irq_state m =
      let v = m.this in
      if bit_and (bit_and v.irq_flags v.irq_mask) 0x0f != 0
      then if bit_and v.irq_flags 0x80 == 0
        then on_vic (λ (w : Vic). record w { irq_flags = bit_or w.irq_flags 0x80 })
            (call_interrupt true m)
        else m
      else if bit_and v.irq_flags 0x80 != 0
      then on_vic (λ (w : Vic). record w { irq_flags = bit_and w.irq_flags 0x7f })
          (call_interrupt false m)
      else m

  -- `activateIRQFlag`
  unfoldable pub activate_irq_flag : ℕ → Machine S → Machine S
  activate_irq_flag flag m =
      handle_irq_state (on_vic (λ (w : Vic). record w { irq_flags = bit_or w.irq_flags flag }) m)

  -- `badLineStateChange`
  unfoldable pub bad_line_state_change : Machine S → Machine S
  bad_line_state_change m = call_set_ba (not m.this.is_bad_line) m

  -- `rasterYIRQEdgeDetector`
  unfoldable pub raster_y_irq_edge_detector : Machine S → Machine S
  raster_y_irq_edge_detector m =
      let old = m.this.raster_y_irq_condition in
      let now = m.this.raster_y == read_raster_line_irq m.this in
      let m' = on_vic (λ (w : Vic). record w { raster_y_irq_condition = now }) m in
      if not old && now then activate_irq_flag irq_raster m' else m'

module _ {S : Type 0} (ids : Events) where
  abbrev pub schedule_event : EventId → ℕ → EventPhase → Machine S → Machine S
  schedule_event e cycles phase m = on_context (EventQueue.schedule_phase e cycles phase) m

  -- `reset`
  unfoldable pub reset : Machine S → Machine S
  reset m =
      let fresh : Machine S =
        on_vic
          (λ (w : Vic). record w {
            irq_flags = 0;
            irq_mask = 0;
            yscroll = 0;
            raster_y = w.max_rasters - 1;
            line_cycle = 0;
            are_bad_lines_enabled = false;
            is_bad_line = false;
            raster_y_irq_condition = false;
            raster_clk = 0;
            vblanking = false;
            lp_asserted = false;
            regs = λ i. 0;
            lp = Lightpen.reset w.lp;
            sprites = Sprites.reset;
          })
          m in
      schedule_event ids.self 0 phi1 (on_context (EventQueue.cancel ids.self) fresh)

  -- `chip`
  unfoldable pub chip : Model → Machine S → Machine S
  chip model m =
      let d = model_data model in
      reset (
        on_vic
          (λ (w : Vic). record w {
            max_rasters = d.raster_lines;
            cycles_per_line = d.line_cycles;
            clock = d.clock_func;
            lp = Lightpen.set_screen_size d.raster_lines d.line_cycles w.lp;
          })
          m)

  -- `triggerLightpen` and `clearLightpen`
  unfoldable pub trigger_lightpen : Machine S → Machine S
  trigger_lightpen m =
      on_context (EventQueue.schedule ids.lightpen_trigger_event 1)
        (on_vic (λ (w : Vic). record w { lp_asserted = true }) m)

  unfoldable pub clear_lightpen : Machine S → Machine S
  clear_lightpen m = on_vic (λ (w : Vic). record w { lp_asserted = false }) m
