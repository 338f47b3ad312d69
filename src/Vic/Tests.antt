-- ===== src/Vic/Tests.antt =====
-- The video chip at given states.
use libsidplayfp.Base.{
  ℕ, ◌+◌, ◌*◌, ◌%◌, ◌^◌, ◌≤◌, ◌<◌, ◌≡◌, refl, arith, Bool, false, [], bit, bit_and, ◌!=◌, ◌==◌,
  ◌&&◌, if◌then◌else◌,
}
use libsidplayfp.Vic.{Vic, Machine, Env, Events, mos6569, model_data, clock_pal, chip}
use libsidplayfp.Vic.Cycle.{call_clock}
use libsidplayfp.Vic.Register.{write}
use libsidplayfp.Vic.Sprites
use libsidplayfp.Vic.Sprites.{check_dma, update_mc, update_mc_base}
use libsidplayfp.Vic.Lightpen
use libsidplayfp.Vic.Lightpen.{get_xpos}
use libsidplayfp.Vic.Interrupts.{requested}
use libsidplayfp.Vic.Reachable.{here, then_step, is_written, irq_pin_lem}
use libsidplayfp.Vic.Progress.{call_clock-InLine}
use libsidplayfp.Vic.SpriteDma.{check_dma_lem, update_mc_base-update_mc}

abbrev pen : Lightpen.Lightpen
pen = record { last_line = 311; cycles_per_line = 63; lpx = 0; lpy = 0; is_triggered = false }

-- Sprites 0 and 2 have DMA, and sprite 0 is at its last bytes.
abbrev two_sprites : Sprites.Sprites
two_sprites = record { exp_flop = 0xff; dma = 5; mc_base = λ i. 0; mc = λ i. 60 }

abbrev blank_vic : Vic
blank_vic = record {
  clock = clock_pal;
  raster_clk = 0;
  cycles_per_line = 63;
  max_rasters = 312;
  line_cycle = 57;
  raster_y = 100;
  yscroll = 0;
  are_bad_lines_enabled = false;
  is_bad_line = false;
  raster_y_irq_condition = false;
  vblanking = false;
  lp_asserted = false;
  irq_flags = 0;
  irq_mask = 0;
  regs = λ i. 0;
  lp = pen;
  sprites = two_sprites;
}

-- The rest of the machine is the interrupt pin.
abbrev pin_env : Env Bool
pin_env = record { interrupt = λ b w. record w { rest = b }; set_ba = λ b w. w }

abbrev some_ids : Events
some_ids = record {
  self = 1;
  bad_line_state_change_event = 2;
  raster_y_irq_edge_detector_event = 3;
  lightpen_trigger_event = 4;
}

abbrev blank_machine : Machine Bool
blank_machine = record {
  this = blank_vic;
  world = record { context = record { now = 10; queue = [] }; rest = false };
}

irq_pin_lem_example :
    ((write pin_env some_ids 0x1a 1 (chip some_ids mos6569 blank_machine)).world.rest
      ≡ requested
          (write pin_env some_ids 0x1a 1 (chip some_ids mos6569 blank_machine)).this.irq_flags
          (write pin_env some_ids 0x1a 1 (chip some_ids mos6569 blank_machine)).this.irq_mask)
    × ((write pin_env some_ids 0x1a 1 (chip some_ids mos6569 blank_machine)).this.line_cycle
        < (write pin_env some_ids 0x1a 1
            (chip some_ids mos6569 blank_machine)).this.cycles_per_line)
    × ((write pin_env some_ids 0x1a 1 (chip some_ids mos6569 blank_machine)).this.raster_y
        < (write pin_env some_ids 0x1a 1 (chip some_ids mos6569 blank_machine)).this.max_rasters)
irq_pin_lem_example =
    irq_pin_lem pin_env some_ids (λ b. b) (λ b w. refl) (λ b w. refl) mos6569 blank_machine
      (write pin_env some_ids 0x1a 1 (chip some_ids mos6569 blank_machine)) refl
      (then_step (here (chip some_ids mos6569 blank_machine))
        (is_written 0x1a 1 (chip some_ids mos6569 blank_machine)))

call_clock-InLine_example :
    (1 ≤ (call_clock pin_env blank_machine).1) × (57 + (call_clock pin_env blank_machine).1 ≤ 63)
unfolding model_data
call_clock-InLine_example = call_clock-InLine pin_env mos6569 blank_machine refl (omega arith)

abbrev sprite_regs : ℕ → ℕ
sprite_regs i = if i == 0x15 then 2 else 100

check_dma_lem_example : bit 1 (check_dma 356 sprite_regs two_sprites).dma ≡ (
    if (bit_and (sprite_regs 0x15) (2 ^ 1) != 0) && (356 % 256 == sprite_regs (1 * 2 + 1))
    then 1
    else bit 1 two_sprites.dma)
check_dma_lem_example = check_dma_lem 356 sprite_regs two_sprites 1 (omega arith)

update_mc_base-update_mc_example :
    ((update_mc_base (update_mc two_sprites)).mc 0 ≡ 63)
    × ((update_mc_base (update_mc two_sprites)).mc_base 0 ≡ 63)
    × (bit 0 (update_mc_base (update_mc two_sprites)).dma ≡ 0)
update_mc_base-update_mc_example = update_mc_base-update_mc two_sprites 0 (omega arith)
