-- ===== src/Vic/Progress.antt =====
-- When the video chip of src/c64/VIC_II/mos656x.cpp looks again: soon enough to begin each line at
-- its cycle 0, and never at the same cycle.

use libsidplayfp.Base.{
  Each, NoCase, switch_lem, Each-at, ℕ, ◌+◌, ◌<◌, ◌≤◌, ◌≡◌, refl, ap, ◌∙◌, arith,
}
use libsidplayfp.Vic.{
  Machine, Env, ClockFunc, clock_pal, clock_ntsc, clock_old_ntsc, Model, mos6567r56a, mos6567r8,
  mos6569, mos6572, mos6573, model_data,
}
use libsidplayfp.Vic.Cycle.{
  call_clock, clock_cases, pal_cases, ntsc_cases, old_ntsc_cases, default_delay,
}

-- The chip looks again within the line, and later than now.
abbrev InLine : ℕ → ℕ → ℕ → Type 0
InLine limit cycle delay = (1 ≤ delay) × (cycle + delay ≤ limit)

-- The cycles of a line, by the clock function
abbrev width : ClockFunc → ℕ
width clock_pal = 63
width clock_ntsc = 65
width clock_old_ntsc = 64

width_lem : (model : Model) → width (model_data model).clock_func ≡ (model_data model).line_cycles
unfolding model_data
width_lem mos6567r56a = refl
width_lem mos6567r8 = refl
width_lem mos6569 = refl
width_lem mos6572 = refl
width_lem mos6573 = refl

module _ {S : Type 0} (env : Env S) where
  cases-InLine :
      (c : ClockFunc) (m : Machine S)
      → Each (λ k (f : Machine S → Machine S × ℕ). InLine (width c) k (f m).1) (clock_cases env c)
  unfolding clock_cases pal_cases ntsc_cases old_ntsc_cases
  cases-InLine clock_pal m = ground arith
  cases-InLine clock_ntsc m = ground arith
  cases-InLine clock_old_ntsc m = ground arith

  default-InLine :
      (c : ClockFunc) (n : ℕ)
      → n < width c
      → NoCase n (clock_cases env c)
      → InLine (width c) n (default_delay n)
  unfolding clock_cases pal_cases ntsc_cases old_ntsc_cases
  default-InLine clock_pal n h none = omega (arith, none)
  default-InLine clock_ntsc n h none = omega (arith, none)
  default-InLine clock_old_ntsc n h none = omega (arith, none)

  -- With the clock function of any model and a cycle inside its line, the chip looks again at a
  -- later cycle, and at the latest at the start of the next line.
  pub call_clock-InLine :
      (model : Model) (m : Machine S)
      → m.this.clock ≡ (model_data model).clock_func
      → m.this.line_cycle < (model_data model).line_cycles
      → (1 ≤ (call_clock env m).1)
        × (m.this.line_cycle + (call_clock env m).1 ≤ (model_data model).line_cycles)
  unfolding call_clock
  call_clock-InLine model m clock_fits h =
      let n = m.this.line_cycle in
      let wide : width m.this.clock ≡ (model_data model).line_cycles =
        ap width clock_fits ∙ width_lem model in
      let inside : InLine (width m.this.clock) n (call_clock env m).1 =
        switch_lem (λ (f : Machine S → Machine S × ℕ). InLine (width m.this.clock) n (f m).1) n
          (clock_cases env m.this.clock) (λ (k : Machine S). (k, default_delay k.this.line_cycle))
          (Each-at (λ k (f : Machine S → Machine S × ℕ). InLine (width m.this.clock) k (f m).1) n
            (clock_cases env m.this.clock) (cases-InLine m.this.clock m))
          (default-InLine m.this.clock n (ground (arith, wide))) in
      ground (arith, wide, inside)
