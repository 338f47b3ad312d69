-- ===== src/Vic/Invariant.antt =====
-- The invariant of the video chip of src/c64/VIC_II/mos656x.cpp through its events and the accesses
-- of the processor.
use libsidplayfp.Base.{
  Each, switch_lem, Each-at, ℕ, ◌+◌, ◌-◌, ◌/◌, ◌%◌, ◌^◌, ◌<◌, ◌≡◌, refl, sym, ap, ◌∙◌, arith,
  bit_and, bit_or, Bool, true, false, ◌&&◌, ◌||◌, ◌==◌, ◌!=◌, if◌then◌else◌, [], ◌∷◌, xor, leb,
  bit_and-le_right, bit_or-lt, bit_or-shr, bit_and-shr, bit_and-0x01, bit_and-0x80,
}
use libsidplayfp.World.{World}
use libsidplayfp.EventQueue.{Context}
use libsidplayfp.Vic.{
  Vic, Machine, Env, Events, ClockFunc, clock_pal, clock_ntsc, clock_old_ntsc, on_vic,
  handle_irq_state, irq_lightpen, first_dma_line, last_dma_line,
}
use libsidplayfp.Vic.Sprites
use libsidplayfp.Vic.Lightpen
use libsidplayfp.Vic.Cycle.{
  Cases, call_clock, clock_cases, pal_cases, ntsc_cases, old_ntsc_cases, on_sprites,
  sprites_check_dma, sprites_check_exp,
}
use libsidplayfp.Vic.Register.{
  advance, event, sync, lightpen_trigger, read, write, write_register, write_cases, bad_line_trick,
  bad_lines_enabled, write_control_1, write_raster,
}
use libsidplayfp.Vic.Interrupts.{
  signalled, IsSound, handle_irq_state-IsSettled, handle_irq_state-IsFramed,
}
use libsidplayfp.Vic.Sound.{
  chosen, others, with_lp, activate_irq_flag-IsSound, set_ba-IsSound, start_dma-IsSound,
  end_dma-IsSound, start_badline-IsSound, on_sprites-IsSound, check_vblank-IsSound, vblank-IsSound,
}

ruleset cycle_rules = (
  start_dma-IsSound, end_dma-IsSound, start_badline-IsSound, on_sprites-IsSound,
  check_vblank-IsSound, vblank-IsSound, set_ba-IsSound,
)

-- The flags after a write to the interrupt register
abbrev acknowledged : ℕ → ℕ → ℕ
acknowledged flags value = bit_and flags (bit_or (bit_and (255 - value) 0x0f) 0x80)

acknowledged_byte : (flags value : ℕ) → acknowledged flags value < 256
acknowledged_byte flags value =
    let low = bit_and (255 - value) 0x0f in
    let mask : bit_or low 0x80 < 2 ^ 8 =
      bit_or-lt 8 low 0x80 (ground (arith, bit_and-le_right 0x0f (255 - value) 0x0f))
        (omega arith) in
    ground (arith, mask, bit_and-le_right 256 flags (bit_or low 0x80))

acknowledged_lem : (flags value : ℕ) → signalled (acknowledged flags value) ≡ signalled flags
acknowledged_lem flags value =
    let low = bit_and (255 - value) 0x0f in
    let small : low < 16 = ground (arith, bit_and-le_right 0x0f (255 - value) 0x0f) in
    let high : bit_or low 0x80 / 2 ^ 7 ≡ 1 =
      bit_or-shr 7 low 0x80
      ∙ ap (λ (n : ℕ). bit_or n 1) {x = low / 2 ^ 7} {y = 0} (omega (arith, small)) in
    let both : acknowledged flags value / 2 ^ 7 ≡ bit_and (flags / 2 ^ 7) 1 =
      bit_and-shr 7 flags (bit_or low 0x80) ∙ ap (bit_and (flags / 2 ^ 7)) high in
    ground (
      arith,
      both,
      bit_and-0x01 (flags / 2 ^ 7),
      bit_and-0x80 flags,
      bit_and-0x80 (acknowledged flags value),
    )

module _ {S : Type 0} (env : Env S) (pin : S → Bool)
    (pin-interrupt : (b : Bool) (w : World S) → pin (env.interrupt b w).rest ≡ b)
    (pin-set_ba : (b : Bool) (w : World S) → pin (env.set_ba b w).rest ≡ pin w.rest) where
  abbrev KeepsSound : ℕ → (Machine S → Machine S × ℕ) → Type 0
  KeepsSound k f = (m : Machine S) → IsSound pin m → IsSound pin (f m).0

  update_mc-IsSound : (m : Machine S) → IsSound pin m → IsSound pin (on_sprites Sprites.update_mc m)
  update_mc-IsSound = on_sprites-IsSound env pin pin-interrupt pin-set_ba Sprites.update_mc

  update_mc_base-IsSound :
      (m : Machine S) → IsSound pin m → IsSound pin (on_sprites Sprites.update_mc_base m)
  update_mc_base-IsSound =
      on_sprites-IsSound env pin pin-interrupt pin-set_ba Sprites.update_mc_base

  check_display-IsSound :
      (m : Machine S) → IsSound pin m → IsSound pin (on_sprites Sprites.check_display m)
  check_display-IsSound = on_sprites-IsSound env pin pin-interrupt pin-set_ba Sprites.check_display

  check_exp-IsSound : (m : Machine S) → IsSound pin m → IsSound pin (sprites_check_exp m)
  check_exp-IsSound m = on_sprites-IsSound env pin pin-interrupt pin-set_ba _ m

  check_dma-IsSound : (m : Machine S) → IsSound pin m → IsSound pin (sprites_check_dma m)
  check_dma-IsSound m = on_sprites-IsSound env pin pin-interrupt pin-set_ba _ m

  ruleset on_all_sprites = (
    update_mc-IsSound, update_mc_base-IsSound, check_display-IsSound, check_exp-IsSound,
    check_dma-IsSound,
  )

  clock_cases-IsSound : (c : ClockFunc) → Each KeepsSound (clock_cases env c)
  unfolding clock_cases pal_cases ntsc_cases old_ntsc_cases
  clock_cases-IsSound clock_pal =
      search (cycle_rules, on_all_sprites, pin-interrupt, pin-set_ba) depth 9
  clock_cases-IsSound clock_ntsc =
      search (cycle_rules, on_all_sprites, pin-interrupt, pin-set_ba) depth 9
  clock_cases-IsSound clock_old_ntsc =
      search (cycle_rules, on_all_sprites, pin-interrupt, pin-set_ba) depth 9

  clock-Each :
      (m : Machine S) (i : IsSound pin m) (cases : Cases S)
      → Each KeepsSound cases
      → Each (λ k (f : Machine S → Machine S × ℕ). IsSound pin (f m).0) cases
  clock-Each m i [] each = tt
  clock-Each m i ((k, f) ∷ cases) each = (each.0 m i, clock-Each m i cases each.1)

  call_clock-IsSound : (m : Machine S) → IsSound pin m → IsSound pin (call_clock env m).0
  unfolding call_clock
  call_clock-IsSound m i =
      let n = m.this.line_cycle in
      switch_lem (λ (f : Machine S → Machine S × ℕ). IsSound pin (f m).0) n
        (clock_cases env m.this.clock) _
        (Each-at (λ k (f : Machine S → Machine S × ℕ). IsSound pin (f m).0) n
          (clock_cases env m.this.clock)
          (clock-Each m i (clock_cases env m.this.clock) (clock_cases-IsSound m.this.clock)))
        (λ none. i)

  pub context-IsSound :
      (c : Context) (m : Machine S)
      → IsSound pin m
      → IsSound pin (record m { world = record m.world { context = c } })
  context-IsSound c m i = record {
    settled = record {
      byte = i.settled.byte;
      driven = i.settled.driven;
      settled = i.settled.settled;
    };
    framed = i.framed;
  }

  advance-IsSound :
      (cycles : ℕ) (m : Machine S) → IsSound pin m → IsSound pin (advance env cycles m).0
  unfolding advance
  advance-IsSound cycles m i =
      let started : Machine S =
        on_vic
          (λ (w : Vic). record w {
            raster_clk = w.raster_clk + cycles;
            line_cycle = (w.line_cycle + cycles) % 2 ^ 32 % w.cycles_per_line;
          })
          m in
      elim (cycles != 0) as (λ b. IsSound pin (if b then call_clock env started else (m, 1)).0) [
        | true ↦ call_clock-IsSound started (record {
          settled = record {
            byte = i.settled.byte;
            driven = i.settled.driven;
            settled = i.settled.settled;
          };
          framed = record {
            model = i.framed.model;
            clock_fits = i.framed.clock_fits;
            cycles_fit = i.framed.cycles_fit;
            rasters_fit = i.framed.rasters_fit;
            in_line = ground (arith, i.framed.in_line);
            in_frame = i.framed.in_frame;
          };
        })
        | false ↦ i
      ]

  flags-IsSound :
      (f : ℕ → ℕ) (k : ℕ) (m : Machine S)
      → f m.this.irq_flags < 256
      → signalled (f m.this.irq_flags) ≡ signalled m.this.irq_flags
      → IsSound pin m
      → IsSound pin (
          handle_irq_state env
            (on_vic (λ (w : Vic). record w { irq_flags = f w.irq_flags; irq_mask = k }) m))
  flags-IsSound f k m byte same i = record {
    settled =
        handle_irq_state-IsSettled env pin pin-interrupt _
          (record { byte = byte; driven = i.settled.driven ∙ sym same });
    framed = handle_irq_state-IsFramed env _ (record {
      model = i.framed.model;
      clock_fits = i.framed.clock_fits;
      cycles_fit = i.framed.cycles_fit;
      rasters_fit = i.framed.rasters_fit;
      in_line = i.framed.in_line;
      in_frame = i.framed.in_frame;
    });
  }

  lines-IsSound :
      (y : ℕ) (enabled bad : Bool) (m : Machine S)
      → IsSound pin m
      → IsSound pin (
          on_vic
            (λ (w : Vic). record w {
              yscroll = y;
              are_bad_lines_enabled = enabled;
              is_bad_line = bad;
            })
            m)
  lines-IsSound y enabled bad m i =
      others env pin pin-interrupt pin-set_ba m _ y enabled bad _ _ _ _ _ _ i

  module _ (ids : Events) where
    pub event-IsSound : (m : Machine S) → IsSound pin m → IsSound pin (event env ids m)
    unfolding event
    event-IsSound m i = context-IsSound _ _ (advance-IsSound _ m i)

    pub sync-IsSound : (m : Machine S) → IsSound pin m → IsSound pin (sync env ids m)
    unfolding sync
    sync-IsSound m i = event-IsSound _ (context-IsSound _ m i)

    pub lightpen_trigger-IsSound :
        (m : Machine S) → IsSound pin m → IsSound pin (lightpen_trigger env ids m)
    unfolding lightpen_trigger
    lightpen_trigger-IsSound m i =
        let m1 = sync env ids m in
        let seen = Lightpen.trigger m1.this.line_cycle m1.this.raster_y m1.this.lp in
        let i2 = with_lp env pin pin-interrupt pin-set_ba seen.1 m1 (sync-IsSound m i) in
        chosen env pin pin-interrupt pin-set_ba seen.0 _ _
          (activate_irq_flag-IsSound env pin pin-interrupt pin-set_ba irq_lightpen _ (omega arith)
            i2)
          i2

    pub write_control_1-IsSound :
        (value : ℕ) (m : Machine S) → IsSound pin m → IsSound pin (write_control_1 ids value m)
    unfolding write_control_1
    write_control_1-IsSound value m i =
        let v = m.this in
        let y = bit_and value 0x7 in
        let enabled = bad_lines_enabled v in
        let was = v.are_bad_lines_enabled && (v.yscroll == bit_and v.raster_y 7) in
        let now = enabled && (y == bit_and v.raster_y 7) in
        let bad = bad_line_trick was v in
        let i1 = lines-IsSound y enabled v.is_bad_line m i in
        let i2 = lines-IsSound y enabled bad m i in
        chosen env pin pin-interrupt pin-set_ba
          (((v.yscroll != y) || xor enabled v.are_bad_lines_enabled)
            && (leb first_dma_line v.raster_y && leb v.raster_y last_dma_line))
          _ _
          (chosen env pin pin-interrupt pin-set_ba (xor now was) _ _
            (chosen env pin pin-interrupt pin-set_ba (xor bad v.is_bad_line) _ _
              (context-IsSound _ _ i2) i2)
            i1)
          i1

    pub write_register-IsSound :
        (addr value : ℕ) (m : Machine S)
        → IsSound pin m
        → IsSound pin (write_register env ids addr value m)
    unfolding write_register write_cases write_raster
    write_register-IsSound addr value m i =
        switch_lem (λ (f : Machine S → Machine S). IsSound pin (f m)) addr
          (write_cases env ids value) _
          (
            λ e. context-IsSound _ _ (write_control_1-IsSound value m i),
            (
              λ e. context-IsSound _ m i,
              (
                λ e. on_sprites-IsSound env pin pin-interrupt pin-set_ba _ m i,
                (
                  λ e.
                      flags-IsSound (λ f. bit_and f (bit_or (bit_and (255 - value) 0x0f) 0x80))
                        m.this.irq_mask m (acknowledged_byte m.this.irq_flags value)
                        (acknowledged_lem m.this.irq_flags value) i,
                  (λ e. flags-IsSound (λ f. f) (bit_and value 0x0f) m i.settled.byte refl i, tt),
                ),
              ),
            ),
          )
          (λ none. i)

    pub write-IsSound :
        (addr value : ℕ) (m : Machine S) → IsSound pin m → IsSound pin (write env ids addr value m)
    unfolding write
    write-IsSound addr value m i =
        write_register-IsSound _ value _
          (sync-IsSound _ (others env pin pin-interrupt pin-set_ba m _ _ _ _ _ _ _ _ _ _ i))

    pub read-IsSound :
        (addr : ℕ) (m : Machine S) → IsSound pin m → IsSound pin (read env ids addr m).1
    unfolding read
    read-IsSound addr m i = sync-IsSound m i
