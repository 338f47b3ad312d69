-- ===== src/Vic/Register.antt =====
-- The event of src/c64/VIC_II/mos656x.cpp, and the chip's registers as the processor reads and
-- writes them.
use libsidplayfp.Base.{
  put_at, switch, ℕ, ◌+◌, ◌-◌, ◌/◌, ◌%◌, ◌^◌, bit_and, bit_or, Bool, true, false, ◌&&◌, ◌||◌, ◌==◌,
  ◌!=◌, ltb, leb, xor, if◌then◌else◌, List, [], ◌∷◌,
}
use libsidplayfp.EventQueue
use libsidplayfp.EventQueue.{EventId, Context, EventPhase, phi1, phi2, get_time}
use libsidplayfp.Vic.{
  Vic, Machine, Env, Events, on_vic, on_context, handle_irq_state, activate_irq_flag, read_den,
  old_raster_y, first_dma_line, last_dma_line, irq_lightpen, schedule_event, vicii_fetch_cycle,
  vicii_screen_textcols,
}
use libsidplayfp.Vic.Cycle.{call_clock, on_sprites}
use libsidplayfp.Vic.Sprites
use libsidplayfp.Vic.Lightpen

-- `phase()` of the scheduler, and `getTime(phase())`
unfoldable pub phase_bit : Context → ℕ
phase_bit c = bit_and c.now 1

unfoldable pub present : Context → ℕ
present c = get_time (if phase_bit c == 0 then phi1 else phi2) c

-- The `switch` of `read`
unfoldable pub register : ℕ → Vic → ℕ
register addr v =
    switch addr
      ((0x11, bit_or (bit_and (v.regs addr) 0x7f) (bit_and v.raster_y 0x100 / 2))
        ∷ (0x12, bit_and v.raster_y 0xff)
        ∷ (0x13, Lightpen.get_x v.lp)
        ∷ (0x14, Lightpen.get_y v.lp)
        ∷ (0x19, bit_or v.irq_flags 0x70)
        ∷ (0x1a, bit_or v.irq_mask 0xf0)
        ∷ [])
      (if ltb addr 0x20
        then v.regs addr
        else if ltb addr 0x2f
        then bit_or (v.regs addr) 0xf0
        else 0xff)

-- The new `areBadLinesEnabled` after a write to control register 1
unfoldable pub bad_lines_enabled : Vic → Bool
bad_lines_enabled v =
    let enabled =
      if (v.raster_y == first_dma_line) && (v.line_cycle == 0)
      then read_den v
      else v.are_bad_lines_enabled in
    if (old_raster_y v == first_dma_line) && read_den v then true else enabled

-- The new `isBadLine` when the bad line condition has become or ceased to be true
unfoldable pub bad_line_trick : (was_bad_line : Bool) → Vic → Bool
bad_line_trick was_bad_line v =
    if was_bad_line
    then if ltb v.line_cycle vicii_fetch_cycle then false else v.is_bad_line
    else if leb v.line_cycle (vicii_fetch_cycle + vicii_screen_textcols + 6)
    then true
    else v.is_bad_line

module _ {S : Type 0} (env : Env S) where
  -- The block `if (cycles)` of `event`
  unfoldable pub advance : (cycles : ℕ) → Machine S → Machine S × ℕ
  advance cycles m =
      if cycles != 0
      then call_clock env (
          on_vic
            (λ (w : Vic). record w {
              raster_clk = w.raster_clk + cycles;
              line_cycle = (w.line_cycle + cycles) % 2 ^ 32 % w.cycles_per_line;
            })
            m)
      else (m, 1)

module _ {S : Type 0} (ids : Events) where
  -- Case 0x11 of `write`, up to the fall-through
  unfoldable pub write_control_1 : ℕ → Machine S → Machine S
  write_control_1 value m =
      let v = m.this in
      let yscroll = bit_and value 0x7 in
      let enabled = bad_lines_enabled v in
      let was = v.are_bad_lines_enabled && (v.yscroll == bit_and v.raster_y 7) in
      let now = enabled && (yscroll == bit_and v.raster_y 7) in
      let m1 : Machine S =
        on_vic (λ (w : Vic). record w { yscroll = yscroll; are_bad_lines_enabled = enabled }) m in
      let bad = bad_line_trick was v in
      let m2 : Machine S = on_vic (λ (w : Vic). record w { is_bad_line = bad }) m1 in
      if ((v.yscroll != yscroll) || xor enabled v.are_bad_lines_enabled)
        && (leb first_dma_line v.raster_y && leb v.raster_y last_dma_line)
      then if xor now was
        then if xor bad v.is_bad_line
          then schedule_event ids ids.bad_line_state_change_event 0 phi1 m2
          else m2
        else m1
      else m1

  -- Case 0x12
  unfoldable pub write_raster : Machine S → Machine S
  write_raster m = schedule_event ids ids.raster_y_irq_edge_detector_event 0 phi1 m

module _ {S : Type 0} (env : Env S) (ids : Events) where
  unfoldable pub event : Machine S → Machine S
  event m =
      let (m', delay) = advance env (present m.world.context - m.this.raster_clk) m in
      schedule_event ids ids.self ((delay + 2 ^ 32 - phase_bit m'.world.context) % 2 ^ 32) phi1 m'

  unfoldable pub sync : Machine S → Machine S
  sync m = event (on_context (EventQueue.cancel ids.self) m)

  -- `lightpenTrigger`
  unfoldable pub lightpen_trigger : Machine S → Machine S
  lightpen_trigger m =
      let m1 = sync m in
      let (seen, lp') = Lightpen.trigger m1.this.line_cycle m1.this.raster_y m1.this.lp in
      let m2 : Machine S = on_vic (λ (w : Vic). record w { lp = lp' }) m1 in
      if seen then activate_irq_flag env irq_lightpen m2 else m2

  unfoldable pub read : ℕ → Machine S → ℕ × Machine S
  read addr m = let address = bit_and addr 0x3f in let m' = sync m in (register address m'.this, m')

  -- The `switch` of `write`
  unfoldable pub write_cases : (value : ℕ) → List (ℕ × (Machine S → Machine S))
  write_cases value =
      (0x11, λ m. write_raster ids (write_control_1 ids value m))
      ∷ (0x12, write_raster ids)
      ∷ (0x17, λ m. on_sprites (Sprites.line_crunch value m.this.line_cycle) m)
      ∷ (
        0x19,
        λ m. handle_irq_state env (
            on_vic
              (λ (w : Vic). record w {
                irq_flags = bit_and w.irq_flags (bit_or (bit_and (255 - value) 0x0f) 0x80);
              })
              m),
      )
      ∷ (
        0x1a,
        λ m.
            handle_irq_state env
              (on_vic (λ (w : Vic). record w { irq_mask = bit_and value 0x0f }) m),
      )
      ∷ []

  unfoldable pub write_register : (addr value : ℕ) → Machine S → Machine S
  write_register addr value m = switch addr (write_cases value) (λ n. n) m

  unfoldable pub write : (addr value : ℕ) → Machine S → Machine S
  write addr value m =
      let address = bit_and addr 0x3f in
      write_register address value
        (sync (on_vic (λ (w : Vic). record w { regs = put_at w.regs address value }) m))
