-- ===== src/Vic/Cycle.antt =====
-- The cycles of a raster line in src/c64/VIC_II/mos656x.cpp: what the chip does in each and when it
-- looks again, its event, and its registers.
use libsidplayfp.Base.{
  switch, ℕ, zero, suc, ◌+◌, ◌-◌, ◌*◌, ◌%◌, ◌^◌, true, false, not, ◌&&◌, ◌==◌, if◌then◌else◌, List,
  [], ◌∷◌,
}
use libsidplayfp.Vic.{
  Vic, Machine, Env, ClockFunc, clock_pal, clock_ntsc, clock_old_ntsc, on_vic, call_set_ba,
  activate_irq_flag, raster_y_irq_edge_detector, read_den, evaluate_is_bad_line, first_dma_line,
  last_dma_line, irq_lightpen,
}
use libsidplayfp.Vic.Sprites
use libsidplayfp.Vic.Sprites.{is_dma}
use libsidplayfp.Vic.Lightpen

-- The start of `checkVblank`, up to `isBadLine = false`.
unfoldable pub check_lines : Vic → Vic
check_lines v =
    let last = v.raster_y == v.max_rasters - 1 in
    let enabled =
      if (v.raster_y == first_dma_line) && (not v.are_bad_lines_enabled && read_den v)
      then true
      else v.are_bad_lines_enabled in
    record v {
      vblanking = if last then true else v.vblanking;
      are_bad_lines_enabled = if v.raster_y == last_dma_line then false else enabled;
      is_bad_line = false;
    }

-- `54 - lineCycle` of the default case, in 32 bits
abbrev pub default_delay : ℕ → ℕ
default_delay cycle = (2 ^ 32 + 54 - cycle) % 2 ^ 32

abbrev pub Cases : Type 0 → Type 0
Cases S = List (ℕ × (Machine S → Machine S × ℕ))

module _ {S : Type 0} where
  unfoldable pub on_sprites : (Sprites.Sprites → Sprites.Sprites) → Machine S → Machine S
  on_sprites f m = on_vic (λ (w : Vic). record w { sprites = f w.sprites }) m

  abbrev pub sprites_check_dma : Machine S → Machine S
  sprites_check_dma m = on_sprites (Sprites.check_dma m.this.raster_y m.this.regs) m

  abbrev pub sprites_check_exp : Machine S → Machine S
  sprites_check_exp m = on_sprites (Sprites.check_exp (m.this.regs 0x17)) m

  -- `delay = sprites.isDma(val) ? x : y`
  abbrev pub delay_if : (val x y : ℕ) → Machine S → Machine S × ℕ
  delay_if val x y m = (m, if is_dma val m.this.sprites then x else y)

  -- A cycle in which nothing happens
  abbrev pub idle : Machine S → Machine S × ℕ
  idle m = (m, 1)

module _ {S : Type 0} (env : Env S) where
  -- The block `if (!vblanking)`
  unfoldable pub next_line : Machine S → Machine S
  next_line m =
      let m' =
        raster_y_irq_edge_detector env
          (on_vic (λ (w : Vic). record w { raster_y = w.raster_y + 1 }) m) in
      if (m'.this.raster_y == first_dma_line) && not m'.this.are_bad_lines_enabled
      then on_vic (λ (w : Vic). record w { are_bad_lines_enabled = read_den w }) m'
      else m'

  -- `checkVblank`
  unfoldable pub check_vblank : Machine S → Machine S
  check_vblank m =
      let m1 : Machine S = on_vic check_lines m in
      let m2 : Machine S = if not m1.this.vblanking then next_line m1 else m1 in
      if evaluate_is_bad_line m2.this
      then on_vic (λ (w : Vic). record w { is_bad_line = true }) m2
      else m2

  -- `vblank`
  unfoldable pub vblank : Machine S → Machine S
  vblank m =
      let first : Machine S =
        on_vic (λ (w : Vic). record w { vblanking = false; raster_y = 0 }) m in
      let detected = raster_y_irq_edge_detector env first in
      let m1 : Machine S =
        on_vic (λ (w : Vic). record w { lp = Lightpen.untrigger w.lp }) detected in
      let (seen, lp') = Lightpen.retrigger m1.this.lp in
      let m2 : Machine S = on_vic (λ (w : Vic). record w { lp = lp' }) m1 in
      if m.this.vblanking
      then if m1.this.lp_asserted
        then if seen then activate_irq_flag env irq_lightpen m2 else m2
        else m1
      else m

  -- `startDma` and `endDma`, with the specialisations for sprites 0 and 7
  unfoldable pub start_dma : (n : ℕ) → Machine S → Machine S
  start_dma zero m = call_set_ba env (not (is_dma 0x01 m.this.sprites)) m
  start_dma (suc n) m = if is_dma (2 ^ suc n) m.this.sprites then call_set_ba env false m else m

  unfoldable pub end_dma : (n : ℕ) → Machine S → Machine S
  end_dma n m =
      if n == 7
      then call_set_ba env true m
      else if not (is_dma (6 * 2 ^ n) m.this.sprites)
      then call_set_ba env true m
      else m

  -- `startBadline`
  unfoldable pub start_badline : Machine S → Machine S
  start_badline m = if m.this.is_bad_line then call_set_ba env false m else m

  -- The `switch` of `clockPAL`
  unfoldable pub pal_cases : Cases S
  pal_cases =
      (0, λ m. (end_dma 2 (check_vblank m), 1))
      ∷ (1, λ m. delay_if 0xf8 1 10 (start_dma 5 (vblank m)))
      ∷ (2, λ m. (end_dma 3 m, 1))
      ∷ (3, λ m. (start_dma 6 m, 1))
      ∷ (4, λ m. (end_dma 4 m, 1))
      ∷ (5, λ m. (start_dma 7 m, 1))
      ∷ (6, λ m. delay_if 0xc0 2 5 (end_dma 5 m))
      ∷ (7, idle)
      ∷ (8, λ m. (end_dma 6 m, 2))
      ∷ (9, idle)
      ∷ (10, λ m. (end_dma 7 m, 1))
      ∷ (11, λ m. (start_badline m, 3))
      ∷ (12, λ m. (m, 2))
      ∷ (13, idle)
      ∷ (14, λ m. (on_sprites Sprites.update_mc m, 1))
      ∷ (15, λ m. (on_sprites Sprites.update_mc_base m, 39))
      ∷ (54, λ m. (start_dma 0 (sprites_check_dma m), 1))
      ∷ (55, λ m. (start_dma 0 (sprites_check_exp (sprites_check_dma m)), 1))
      ∷ (56, λ m. (start_dma 1 m, 1))
      ∷ (57, λ m. delay_if 0x1f 1 6 (on_sprites Sprites.check_display m))
      ∷ (58, λ m. (start_dma 2 m, 1))
      ∷ (59, λ m. (end_dma 0 m, 1))
      ∷ (60, λ m. (start_dma 3 m, 1))
      ∷ (61, λ m. (end_dma 1 m, 1))
      ∷ (62, λ m. (start_dma 4 m, 1))
      ∷ []

  -- The `switch` of `clockNTSC`
  unfoldable pub ntsc_cases : Cases S
  ntsc_cases =
      (0, λ m. (start_dma 5 (check_vblank m), 1))
      ∷ (1, λ m. delay_if 0xf0 1 10 (end_dma 3 (vblank m)))
      ∷ (2, λ m. (start_dma 6 m, 1))
      ∷ (3, λ m. (end_dma 4 m, 1))
      ∷ (4, λ m. (start_dma 7 m, 1))
      ∷ (5, λ m. delay_if 0xc0 2 6 (end_dma 5 m))
      ∷ (6, idle)
      ∷ (7, λ m. (end_dma 6 m, 2))
      ∷ (8, idle)
      ∷ (9, λ m. (end_dma 7 m, 2))
      ∷ (10, idle)
      ∷ (11, λ m. (start_badline m, 3))
      ∷ (12, λ m. (m, 2))
      ∷ (13, idle)
      ∷ (14, λ m. (on_sprites Sprites.update_mc m, 1))
      ∷ (15, λ m. (on_sprites Sprites.update_mc_base m, 39))
      ∷ (54, λ m. (call_set_ba env true m, 1))
      ∷ (55, λ m. (start_dma 0 (sprites_check_exp (sprites_check_dma m)), 1))
      ∷ (56, λ m. (start_dma 0 (sprites_check_dma m), 1))
      ∷ (57, λ m. (start_dma 1 m, 1))
      ∷ (58, λ m. delay_if 0x1f 1 7 (on_sprites Sprites.check_display m))
      ∷ (59, λ m. (start_dma 2 m, 1))
      ∷ (60, λ m. (end_dma 0 m, 1))
      ∷ (61, λ m. (start_dma 3 m, 1))
      ∷ (62, λ m. (end_dma 1 m, 1))
      ∷ (63, λ m. (start_dma 4 m, 1))
      ∷ (64, λ m. (end_dma 2 m, 1))
      ∷ []

  -- The `switch` of `clockOldNTSC`
  unfoldable pub old_ntsc_cases : Cases S
  old_ntsc_cases =
      (0, λ m. (end_dma 2 (check_vblank m), 1))
      ∷ (1, λ m. delay_if 0xf8 1 10 (start_dma 5 (vblank m)))
      ∷ (2, λ m. (end_dma 3 m, 1))
      ∷ (3, λ m. (start_dma 6 m, 1))
      ∷ (4, λ m. (end_dma 4 m, 1))
      ∷ (5, λ m. (start_dma 7 m, 1))
      ∷ (6, λ m. delay_if 0xc0 2 5 (end_dma 5 m))
      ∷ (7, idle)
      ∷ (8, λ m. (end_dma 6 m, 2))
      ∷ (9, idle)
      ∷ (10, λ m. (end_dma 7 m, 1))
      ∷ (11, λ m. (start_badline m, 3))
      ∷ (12, λ m. (m, 2))
      ∷ (13, idle)
      ∷ (14, λ m. (on_sprites Sprites.update_mc m, 1))
      ∷ (15, λ m. (on_sprites Sprites.update_mc_base m, 39))
      ∷ (54, λ m. (call_set_ba env true m, 1))
      ∷ (55, λ m. (start_dma 0 (sprites_check_exp (sprites_check_dma m)), 1))
      ∷ (56, λ m. (start_dma 0 (sprites_check_dma m), 1))
      ∷ (57, λ m. delay_if 0x1f 2 7 (start_dma 1 (on_sprites Sprites.check_display m)))
      ∷ (58, idle)
      ∷ (59, λ m. (start_dma 2 m, 1))
      ∷ (60, λ m. (end_dma 0 m, 1))
      ∷ (61, λ m. (start_dma 3 m, 1))
      ∷ (62, λ m. (end_dma 1 m, 1))
      ∷ (63, λ m. (start_dma 4 m, 1))
      ∷ []

  unfoldable pub clock_cases : ClockFunc → Cases S
  clock_cases clock_pal = pal_cases
  clock_cases clock_ntsc = ntsc_cases
  clock_cases clock_old_ntsc = old_ntsc_cases

  -- `(this->*clock)()`
  unfoldable pub call_clock : Machine S → Machine S × ℕ
  call_clock m =
      switch m.this.line_cycle (clock_cases m.this.clock)
        (λ n. (n, default_delay n.this.line_cycle)) m
