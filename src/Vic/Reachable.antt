-- ===== src/Vic/Reachable.antt =====
-- The states that the video chip of src/c64/VIC_II/mos656x.cpp reaches after a reset.
use libsidplayfp.Base.{ℕ, ◌-◌, ◌<◌, ◌≡◌, refl, ◌∙◌, arith, Bool, true, false}
use libsidplayfp.World.{World}
use libsidplayfp.Vic.{
  Machine, Env, Events, Model, mos6567r56a, mos6567r8, mos6569, mos6572, mos6573, model_data,
  bad_line_state_change, raster_y_irq_edge_detector, trigger_lightpen, clear_lightpen, reset, chip,
}
use libsidplayfp.Vic.Register.{event, lightpen_trigger, read, write}
use libsidplayfp.Vic.Interrupts.{requested, IsSound}
use libsidplayfp.Vic.Sound.{others, raster_y_irq_edge_detector-IsSound, set_ba-IsSound}
use libsidplayfp.Vic.Invariant.{
  context-IsSound, event-IsSound, lightpen_trigger-IsSound, read-IsSound, write-IsSound,
}

module _ {S : Type 0} (env : Env S) (ids : Events) (pin : S → Bool) where
  -- The chip's four events, the accesses of the processor, the light pen's line, and what the rest
  -- of the machine does without touching the interrupt pin.
  pub data Step : Machine S → Machine S → Type 0 where
    looks : (m : Machine S) → Step m (event env ids m)
    detects_raster : (m : Machine S) → Step m (raster_y_irq_edge_detector env m)
    changes_bad_line : (m : Machine S) → Step m (bad_line_state_change env m)
    sees_pen : (m : Machine S) → Step m (lightpen_trigger env ids m)
    is_read : (addr : ℕ) (m : Machine S) → Step m (read env ids addr m).1
    is_written : (addr value : ℕ) (m : Machine S) → Step m (write env ids addr value m)
    pen_on : (m : Machine S) → Step m (trigger_lightpen ids m)
    pen_off : (m : Machine S) → Step m (clear_lightpen ids m)
    elsewhere :
        (w : World S) (m : Machine S)
        → pin w.rest ≡ pin m.world.rest
        → Step m (record m { world = w })

  pub data Reaches : Machine S → Machine S → Type 0 where
    here : (m : Machine S) → Reaches m m
    then_step : {m n o : Machine S} → Reaches m n → Step n o → Reaches m o

positive_cycles : (model : Model) → 0 < (model_data model).line_cycles
unfolding model_data
positive_cycles mos6567r56a = omega arith
positive_cycles mos6567r8 = omega arith
positive_cycles mos6569 = omega arith
positive_cycles mos6572 = omega arith
positive_cycles mos6573 = omega arith

last_line : (model : Model) → (model_data model).raster_lines - 1 < (model_data model).raster_lines
unfolding model_data
last_line mos6567r56a = omega arith
last_line mos6567r8 = omega arith
last_line mos6569 = omega arith
last_line mos6572 = omega arith
last_line mos6573 = omega arith

module _ {S : Type 0} (env : Env S) (ids : Events) (pin : S → Bool)
    (pin-interrupt : (b : Bool) (w : World S) → pin (env.interrupt b w).rest ≡ b)
    (pin-set_ba : (b : Bool) (w : World S) → pin (env.set_ba b w).rest ≡ pin w.rest) where
  chip-IsSound :
      (model : Model) (m : Machine S) → pin m.world.rest ≡ false → IsSound pin (chip ids model m)
  unfolding chip reset
  chip-IsSound model m low = record {
    settled = record { byte = omega arith; driven = low; settled = refl };
    framed = record {
      model = model;
      clock_fits = refl;
      cycles_fit = refl;
      rasters_fit = refl;
      in_line = positive_cycles model;
      in_frame = last_line model;
    };
  }

  Step-IsSound : {m n : Machine S} → Step env ids pin m n → IsSound pin m → IsSound pin n
  unfolding trigger_lightpen clear_lightpen bad_line_state_change
  Step-IsSound (looks m) i = event-IsSound env pin pin-interrupt pin-set_ba ids m i
  Step-IsSound (detects_raster m) i =
      raster_y_irq_edge_detector-IsSound env pin pin-interrupt pin-set_ba m i
  Step-IsSound (changes_bad_line m) i = set_ba-IsSound env pin pin-interrupt pin-set_ba _ m i
  Step-IsSound (sees_pen m) i = lightpen_trigger-IsSound env pin pin-interrupt pin-set_ba ids m i
  Step-IsSound (is_read addr m) i = read-IsSound env pin pin-interrupt pin-set_ba ids addr m i
  Step-IsSound (is_written addr value m) i =
      write-IsSound env pin pin-interrupt pin-set_ba ids addr value m i
  Step-IsSound (pen_on m) i =
      context-IsSound env pin pin-interrupt pin-set_ba _ _
        (others env pin pin-interrupt pin-set_ba m _ _ _ _ _ _ true _ _ _ i)
  Step-IsSound (pen_off m) i = others env pin pin-interrupt pin-set_ba m _ _ _ _ _ _ false _ _ _ i
  Step-IsSound (elsewhere w m same) i = record {
    settled = record {
      byte = i.settled.byte;
      driven = same ∙ i.settled.driven;
      settled = i.settled.settled;
    };
    framed = i.framed;
  }

  Reaches-IsSound : {m n : Machine S} → Reaches env ids pin m n → IsSound pin m → IsSound pin n
  Reaches-IsSound (here m) i = i
  Reaches-IsSound (then_step r s) i = Step-IsSound s (Reaches-IsSound r i)

  -- In every state that the chip reaches after a reset for any model with its interrupt pin low,
  -- the pin is high exactly when a masked interrupt flag is set, and the raster is inside the
  -- screen. The environment's `interrupt` sets the pin, and its `setBA` leaves it alone.
  pub irq_pin_lem :
      (model : Model) (m n : Machine S)
      → pin m.world.rest ≡ false
      → Reaches env ids pin (chip ids model m) n
      → (pin n.world.rest ≡ requested n.this.irq_flags n.this.irq_mask)
        × (n.this.line_cycle < n.this.cycles_per_line)
        × (n.this.raster_y < n.this.max_rasters)
  irq_pin_lem model m n low r =
      let i = Reaches-IsSound r (chip-IsSound model m low) in
      (i.settled.driven ∙ i.settled.settled, i.framed.in_line, i.framed.in_frame)
