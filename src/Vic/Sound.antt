-- ===== src/Vic/Sound.antt =====
-- The invariant of the video chip of src/c64/VIC_II/mos656x.cpp through the cycles of a line.
use libsidplayfp.Base.{
  ℕ, zero, suc, ◌+◌, ◌-◌, ◌/◌, ◌<◌, ◌≡◌, ◌≢◌, refl, ap, ◌∙◌, arith, bit_or, Bool, true, false, not,
  ◌&&◌, ◌==◌, if◌then◌else◌, bit_or-lt, bit_or-shr, bit_or-zero, bit_and-0x80,
}
use libsidplayfp.World.{World}
use libsidplayfp.Vic.{
  Vic, Machine, Env, on_vic, call_set_ba, activate_irq_flag, raster_y_irq_edge_detector,
  read_raster_line_irq, irq_lightpen,
}
use libsidplayfp.Vic.Sprites
use libsidplayfp.Vic.Lightpen
use libsidplayfp.Vic.Cycle.{
  check_lines, next_line, check_vblank, vblank, start_dma, end_dma, start_badline, on_sprites,
}
use libsidplayfp.Vic.Interrupts.{
  signalled, IsSound, handle_irq_state-IsSettled, handle_irq_state-IsFramed,
}

low_flag : (f flag : ℕ) → flag < 128 → signalled f ≡ signalled (bit_or f flag)
low_flag f flag h =
    let high : bit_or f flag / 128 ≡ bit_or (f / 128) (flag / 128) = bit_or-shr 7 f flag in
    let none : bit_or (f / 128) (flag / 128) ≡ f / 128 =
      ap (bit_or (f / 128)) {x = flag / 128} {y = 0} (omega arith) ∙ bit_or-zero (f / 128) in
    ground (arith, high, none, bit_and-0x80 f, bit_and-0x80 (bit_or f flag))

module _ {S : Type 0} (env : Env S) (pin : S → Bool)
    (pin-interrupt : (b : Bool) (w : World S) → pin (env.interrupt b w).rest ≡ b)
    (pin-set_ba : (b : Bool) (w : World S) → pin (env.set_ba b w).rest ≡ pin w.rest) where
  pub chosen :
      (b : Bool) (x y : Machine S)
      → IsSound pin x
      → IsSound pin y
      → IsSound pin (if b then x else y)
  chosen true x y p q = p
  chosen false x y p q = q

  pub chosen_by :
      (b : Bool) (x y : Machine S)
      → (b ≡ true → IsSound pin x)
      → IsSound pin y
      → IsSound pin (if b then x else y)
  chosen_by true x y p q = p refl
  chosen_by false x y p q = q

  -- What is in neither half of the invariant may change.
  pub others :
      (m : Machine S) (clk y : ℕ) (a b c d e : Bool) (regs : ℕ → ℕ) (lp : Lightpen.Lightpen)
      (sprites : Sprites.Sprites)
      → IsSound pin m
      → IsSound pin (
          on_vic
            (λ (w : Vic). record w {
              raster_clk = clk;
              yscroll = y;
              are_bad_lines_enabled = a;
              is_bad_line = b;
              raster_y_irq_condition = c;
              vblanking = d;
              lp_asserted = e;
              regs = regs;
              lp = lp;
              sprites = sprites;
            })
            m)
  others m clk y a b c d e regs lp sprites i = record {
    settled = record {
      byte = i.settled.byte;
      driven = i.settled.driven;
      settled = i.settled.settled;
    };
    framed = record {
      model = i.framed.model;
      clock_fits = i.framed.clock_fits;
      cycles_fit = i.framed.cycles_fit;
      rasters_fit = i.framed.rasters_fit;
      in_line = i.framed.in_line;
      in_frame = i.framed.in_frame;
    };
  }

  pub with_lp :
      (lp : Lightpen.Lightpen) (m : Machine S)
      → IsSound pin m
      → IsSound pin (on_vic (λ (w : Vic). record w { lp = lp }) m)
  with_lp lp m i = others m _ _ _ _ _ _ _ _ lp _ i

  pub at_line :
      (m : Machine S) (y : ℕ)
      → y < m.this.max_rasters
      → IsSound pin m
      → IsSound pin (on_vic (λ (w : Vic). record w { raster_y = y }) m)
  at_line m y below i = record {
    settled = record {
      byte = i.settled.byte;
      driven = i.settled.driven;
      settled = i.settled.settled;
    };
    framed = record {
      model = i.framed.model;
      clock_fits = i.framed.clock_fits;
      cycles_fit = i.framed.cycles_fit;
      rasters_fit = i.framed.rasters_fit;
      in_line = i.framed.in_line;
      in_frame = below;
    };
  }

  pub activate_irq_flag-IsSound :
      (flag : ℕ) (m : Machine S)
      → flag < 128
      → IsSound pin m
      → IsSound pin (activate_irq_flag env flag m)
  unfolding activate_irq_flag
  activate_irq_flag-IsSound flag m byte i = record {
    settled = handle_irq_state-IsSettled env pin pin-interrupt _ (record {
      byte = bit_or-lt 8 m.this.irq_flags flag i.settled.byte (omega arith);
      driven = i.settled.driven ∙ low_flag m.this.irq_flags flag byte;
    });
    framed = handle_irq_state-IsFramed env _ (record {
      model = i.framed.model;
      clock_fits = i.framed.clock_fits;
      cycles_fit = i.framed.cycles_fit;
      rasters_fit = i.framed.rasters_fit;
      in_line = i.framed.in_line;
      in_frame = i.framed.in_frame;
    });
  }

  pub raster_y_irq_edge_detector-IsSound :
      (m : Machine S) → IsSound pin m → IsSound pin (raster_y_irq_edge_detector env m)
  unfolding raster_y_irq_edge_detector
  raster_y_irq_edge_detector-IsSound m i =
      let i' = others m _ _ _ _ (m.this.raster_y == read_raster_line_irq m.this) _ _ _ _ _ i in
      chosen (not m.this.raster_y_irq_condition && (m.this.raster_y == read_raster_line_irq m.this))
        _ _ (activate_irq_flag-IsSound _ _ (omega arith) i') i'

  pub set_ba-IsSound :
      (b : Bool) (m : Machine S) → IsSound pin m → IsSound pin (call_set_ba env b m)
  set_ba-IsSound b m i = record {
    settled = record {
      byte = i.settled.byte;
      driven = pin-set_ba b m.world ∙ i.settled.driven;
      settled = i.settled.settled;
    };
    framed = i.framed;
  }

  pub start_dma-IsSound : (n : ℕ) (m : Machine S) → IsSound pin m → IsSound pin (start_dma env n m)
  unfolding start_dma
  start_dma-IsSound zero m i = set_ba-IsSound _ m i
  start_dma-IsSound (suc n) m i = chosen _ _ _ (set_ba-IsSound false m i) i

  pub end_dma-IsSound : (n : ℕ) (m : Machine S) → IsSound pin m → IsSound pin (end_dma env n m)
  unfolding end_dma
  end_dma-IsSound n m i =
      chosen _ _ _ (set_ba-IsSound true m i) (chosen _ _ _ (set_ba-IsSound true m i) i)

  pub start_badline-IsSound : (m : Machine S) → IsSound pin m → IsSound pin (start_badline env m)
  unfolding start_badline
  start_badline-IsSound m i = chosen _ _ _ (set_ba-IsSound false m i) i

  pub on_sprites-IsSound :
      (f : Sprites.Sprites → Sprites.Sprites) (m : Machine S)
      → IsSound pin m
      → IsSound pin (on_sprites f m)
  unfolding on_sprites
  on_sprites-IsSound f m i = others m _ _ _ _ _ _ _ _ _ (f m.this.sprites) i

  pub next_line-IsSound :
      (m : Machine S)
      → m.this.raster_y ≢ m.this.max_rasters - 1
      → IsSound pin m
      → IsSound pin (next_line env m)
  unfolding next_line
  next_line-IsSound m h i =
      let i' =
        raster_y_irq_edge_detector-IsSound _
          (at_line m (m.this.raster_y + 1) (ground (arith, i.framed.in_frame)) i) in
      chosen _ _ _ (others _ _ _ _ _ _ _ _ _ _ _ i') i'

  pub check_vblank-IsSound : (m : Machine S) → IsSound pin m → IsSound pin (check_vblank env m)
  unfolding check_vblank check_lines
  check_vblank-IsSound m i =
      let i1 : IsSound pin (on_vic check_lines m) = others m _ _ _ _ _ _ _ _ _ _ i in
      let i2 =
        chosen_by (not (check_lines m.this).vblanking) _ _
          (λ running. next_line-IsSound _ (ground (arith, running)) i1) i1 in
      chosen _ _ _ (others _ _ _ _ _ _ _ _ _ _ _ i2) i2

  pub vblank-IsSound : (m : Machine S) → IsSound pin m → IsSound pin (vblank env m)
  unfolding vblank
  vblank-IsSound m i =
      let m0 : Machine S = on_vic (λ (w : Vic). record w { vblanking = false }) m in
      let i0 : IsSound pin m0 = others m _ _ _ _ _ false _ _ _ _ i in
      let top =
        raster_y_irq_edge_detector-IsSound _
          (at_line m0 0 (ground (arith, i.framed.in_frame)) i0) in
      let m1 =
        raster_y_irq_edge_detector env
          (on_vic (λ (w : Vic). record w { raster_y = 0; vblanking = false }) m) in
      let untriggered = Lightpen.untrigger m1.this.lp in
      let again = with_lp (Lightpen.retrigger untriggered).1 m1 top in
      chosen m.this.vblanking _ _
        (chosen m1.this.lp_asserted _ _
          (chosen (Lightpen.retrigger untriggered).0 _ _
            (activate_irq_flag-IsSound irq_lightpen _ (omega arith) again) again)
          (with_lp untriggered m1 top))
        i
