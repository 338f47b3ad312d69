-- ===== src/Vic/Interrupts.antt =====
-- The interrupt line of the video chip of src/c64/VIC_II/mos656x.cpp.
use libsidplayfp.Base.{
  ℕ, ◌+◌, ◌*◌, ◌/◌, ◌%◌, ◌^◌, ◌<◌, ◌≡◌, refl, arith, bit_and, bit_or, Bool, true, false, not, ◌&&◌,
  ◌==◌, ◌!=◌, all_below, all_below_sound, bit_and-0x0f, bit_and_split, bit_or-lt, bit_and-le_right,
}
use libsidplayfp.World.{World}
use libsidplayfp.Vic.{Vic, Machine, Model, model_data, Env, handle_irq_state}

-- A masked interrupt flag is set.
abbrev pub requested : ℕ → ℕ → Bool
requested flags mask = bit_and (bit_and flags mask) 0x0f != 0

abbrev pub signalled : ℕ → Bool
signalled flags = bit_and flags 0x80 != 0

-- Setting and clearing bit 7, for each byte
bit_7 : ℕ → Bool
bit_7 f =
    signalled (bit_or f 0x80)
    && (not (signalled (bit_and f 0x7f))
        && ((bit_and (bit_or f 0x80) 0x0f == bit_and f 0x0f)
            && (bit_and (bit_and f 0x7f) 0x0f == bit_and f 0x0f)))

bit_7_all : all_below 256 bit_7 ≡ true
unfolding all_below bit_7
bit_7_all = refl

record Bit7 (f : ℕ) : Type 0 where
  raised : signalled (bit_or f 0x80) ≡ true
  lowered : signalled (bit_and f 0x7f) ≡ false
  kept_raised : bit_and (bit_or f 0x80) 0x0f ≡ bit_and f 0x0f
  kept_lowered : bit_and (bit_and f 0x7f) 0x0f ≡ bit_and f 0x0f

bit_7_lem : (f : ℕ) → f < 256 → Bit7 f
unfolding bit_7
bit_7_lem f h =
    let all = all_below_sound 256 bit_7 f bit_7_all h in
    record {
      raised = ground (arith, all);
      lowered = ground (arith, all);
      kept_raised = ground (arith, all);
      kept_lowered = ground (arith, all);
    }

-- Only the low nibbles count.
requested_lem : (f k : ℕ) → bit_and (bit_and f k) 0x0f ≡ bit_and (bit_and f 0x0f) (bit_and k 0x0f)
requested_lem f k =
    let whole : bit_and (f / 2 ^ 4 * 2 ^ 4 + f % 16) (k / 2 ^ 4 * 2 ^ 4 + k % 16)
        ≡ bit_and (f / 2 ^ 4) (k / 2 ^ 4) * 2 ^ 4 + bit_and (f % 16) (k % 16) =
      bit_and_split 4 (f / 2 ^ 4) (f % 16) (k / 2 ^ 4) (k % 16) (omega arith) (omega arith) in
    let f_parts : f / 2 ^ 4 * 2 ^ 4 + f % 16 ≡ f = omega arith in
    let k_parts : k / 2 ^ 4 * 2 ^ 4 + k % 16 ≡ k = omega arith in
    ground (
      arith,
      whole,
      f_parts,
      k_parts,
      bit_and-0x0f f,
      bit_and-0x0f k,
      bit_and-0x0f (bit_and f k),
      bit_and-le_right 16 (f % 16) (k % 16) (omega arith),
    )

module _ {S : Type 0} (pin : S → Bool) where
  -- The pin that `interrupt` drives follows bit 7 of the flags.
  pub record IsDriven (m : Machine S) : Type 0 where
    pub byte : m.this.irq_flags < 256
    pub driven : pin m.world.rest ≡ signalled m.this.irq_flags

  pub record IsSettled (m : Machine S) : Type 0 where
    pub byte : m.this.irq_flags < 256
    pub driven : pin m.world.rest ≡ signalled m.this.irq_flags
    pub settled : signalled m.this.irq_flags ≡ requested m.this.irq_flags m.this.irq_mask

module _ {S : Type 0} (env : Env S) (pin : S → Bool)
    (pin-interrupt : (b : Bool) (w : World S) → pin (env.interrupt b w).rest ≡ b) where
  pub handle_irq_state-IsSettled :
      (m : Machine S) → IsDriven pin m → IsSettled pin (handle_irq_state env m)
  unfolding handle_irq_state
  handle_irq_state-IsSettled m d =
      let f = m.this.irq_flags in
      let bits = bit_7_lem f d.byte in
      let k = m.this.irq_mask in
      record {
        byte = ground (arith, d.byte, bit_or-lt 8 f 0x80, bit_and-le_right 0x7f f 0x7f);
        driven = ground (
          arith,
          d.driven,
          pin-interrupt true m.world,
          pin-interrupt false m.world,
          bits.raised,
          bits.lowered,
        );
        settled = ground (
          arith,
          bits.raised,
          bits.lowered,
          bits.kept_raised,
          bits.kept_lowered,
          requested_lem f k,
          requested_lem (bit_or f 0x80) k,
          requested_lem (bit_and f 0x7f) k,
        );
      }

-- The raster is inside the screen of the chip's model.
pub record IsFramed (v : Vic) : Type 0 where
  pub model : Model
  pub clock_fits : v.clock ≡ (model_data model).clock_func
  pub cycles_fit : v.cycles_per_line ≡ (model_data model).line_cycles
  pub rasters_fit : v.max_rasters ≡ (model_data model).raster_lines
  pub in_line : v.line_cycle < v.cycles_per_line
  pub in_frame : v.raster_y < v.max_rasters

module _ {S : Type 0} (pin : S → Bool) where
  pub record IsSound (m : Machine S) : Type 0 where
    pub settled : IsSettled pin m
    pub framed : IsFramed m.this

  IsSettled→IsDriven : (m : Machine S) → IsSettled pin m → IsDriven pin m
  IsSettled→IsDriven m h = record { byte = h.byte; driven = h.driven }

-- The calls that the cycles, the events and the registers share
module _ {S : Type 0} (env : Env S) where
  handle_irq_state-this :
      (m : Machine S)
      → (handle_irq_state env m).this
        ≡ record m.this { irq_flags = (handle_irq_state env m).this.irq_flags }
  unfolding handle_irq_state
  handle_irq_state-this m = ground arith

  pub handle_irq_state-IsFramed :
      (m : Machine S) → IsFramed m.this → IsFramed (handle_irq_state env m).this
  handle_irq_state-IsFramed m f = rw (handle_irq_state-this m) (record {
    model = f.model;
    clock_fits = f.clock_fits;
    cycles_fit = f.cycles_fit;
    rasters_fit = f.rasters_fit;
    in_line = f.in_line;
    in_frame = f.in_frame;
  })
