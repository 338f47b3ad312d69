-- ===== src/Cia/Interrupts/Line.antt =====
-- The interrupt line that the interrupt source of src/c64/CIA/interrupt.cpp drives.
use libsidplayfp.Base.{
  ℕ, ◌≡◌, refl, sym, ap, ◌∙◌, arith, bit_and, bit_or, Bool, true, false, ◌!=◌, bit_or-bit,
  bit_and-0x80,
}
use libsidplayfp.World.{World}
use libsidplayfp.Cia.Interrupts.{
  SourceModel, new_icr, interrupt_none, source_6526, source_8521, Events, Machine,
  interrupt_triggered, ack0, schedule, schedule_irq, trigger_interrupt, set_irq, clear_irq,
  interrupt_cpu, update_idr, is_triggered, trigger_on, trigger, set, clear_source, clear,
  interrupt_request, reset,
}

-- An operation that does not reach the line
record IsQuiet {S : Type 0} (m n : Machine S) : Type 0 where
  same_asserted : n.this.asserted ≡ m.this.asserted
  same_rest : n.world.rest ≡ m.world.rest

requested_bit : (idr : ℕ) → (bit_and (bit_or idr interrupt_request) interrupt_request != 0) ≡ true
requested_bit idr = ground (arith, bit_and-0x80 (bit_or idr 0x80), bit_or-bit 7 idr 0x80)

module _ {S : Type 0} (ids : Events) where
  trigger_interrupt_lem :
      (model : SourceModel) (m : Machine S)
      → ack0 m ≡ false
      → ((trigger_interrupt ids model m).this.idr ≡ bit_or m.this.idr interrupt_request)
        × (ack0 (trigger_interrupt ids model m) ≡ false)
  unfolding trigger_interrupt schedule_irq ack0
  trigger_interrupt_lem source_6526 m late = (refl, late)
  trigger_interrupt_lem source_8521 m late = ground (arith, late)

  trigger_interrupt-IsQuiet :
      (model : SourceModel) (m : Machine S) → IsQuiet m (trigger_interrupt ids model m)
  unfolding trigger_interrupt schedule_irq
  trigger_interrupt-IsQuiet source_6526 m = record { same_asserted = refl; same_rest = refl }
  trigger_interrupt-IsQuiet source_8521 m = record {
    same_asserted = ground arith;
    same_rest = ground arith;
  }

  trigger_on-IsQuiet :
      (model : SourceModel) (mask : ℕ) (m : Machine S) → IsQuiet m (trigger_on ids model mask m)
  unfolding trigger_on is_triggered schedule
  trigger_on-IsQuiet source_6526 mask m = record {
    same_asserted = ground arith;
    same_rest = ground arith;
  }
  trigger_on-IsQuiet source_8521 mask m = record {
    same_asserted = ground arith;
    same_rest = ground arith;
  }

  set-IsQuiet : (mask : ℕ) (m : Machine S) → IsQuiet m (set ids mask m)
  unfolding set new_icr
  set-IsQuiet mask m =
      let m1 : Machine S = record m { this = record m.this { icr = new_icr mask m.this.icr } } in
      let q = trigger_on-IsQuiet m.this.model interrupt_none m1 in
      record {
        same_asserted = ground (arith, q.same_asserted);
        same_rest = ground (arith, q.same_rest);
      }

  update_idr-IsQuiet : (m : Machine S) → IsQuiet m (update_idr ids m)
  unfolding update_idr
  update_idr-IsQuiet m = record { same_asserted = ground arith; same_rest = ground arith }

  clear-IsQuiet : (m : Machine S) → IsQuiet m (clear ids m).1
  unfolding clear clear_source
  clear-IsQuiet m = record { same_asserted = ground arith; same_rest = ground arith }

module _ {S : Type 0} (interrupt : Bool → World S → World S) (ids : Events) (pin : S → Bool) where
  -- The callbacks of the source, what its chip calls, and what the rest of the machine does without
  -- touching the line. `reset` does not call `interrupt`: all components are reset together, so the
  -- machine lowers the line then, as `c64::reset` does with its count of the lines that are high.
  pub data Step : Machine S → Machine S → Type 0 where
    fires : (m : Machine S) → Step m (interrupt_cpu interrupt ids m)
    raises : (m : Machine S) → Step m (set_irq interrupt m)
    lowers : (m : Machine S) → Step m (clear_irq interrupt m)
    updates : (m : Machine S) → Step m (update_idr ids m)
    is_triggered_by : (interrupt_mask : ℕ) (m : Machine S) → Step m (trigger ids interrupt_mask m)
    is_set : (interrupt_mask : ℕ) (m : Machine S) → Step m (set ids interrupt_mask m)
    is_cleared : (m : Machine S) → Step m (clear ids m).1
    is_reset :
        (lowered : S) (m : Machine S)
        → pin lowered ≡ false
        → Step m (record (reset ids m) { world = record (reset ids m).world { rest = lowered } })
    elsewhere :
        (w : World S) (m : Machine S)
        → pin w.rest ≡ pin m.world.rest
        → Step m (record m { world = w })

  pub data Reaches : Machine S → Machine S → Type 0 where
    here : (m : Machine S) → Reaches m m
    then_step : {m n o : Machine S} → Reaches m n → Step n o → Reaches m o

module _ {S : Type 0} (interrupt : Bool → World S → World S) (pin : S → Bool)
    (pin-interrupt : (b : Bool) (w : World S) → pin (interrupt b w).rest ≡ b) where
  set_irq-driven :
      (m : Machine S)
      → pin m.world.rest ≡ m.this.asserted
      → pin (set_irq interrupt m).world.rest ≡ (set_irq interrupt m).this.asserted
  unfolding set_irq
  set_irq-driven m h = ground (arith, h, pin-interrupt true m.world)

  clear_irq-driven :
      (m : Machine S)
      → pin m.world.rest ≡ m.this.asserted
      → pin (clear_irq interrupt m).world.rest ≡ (clear_irq interrupt m).this.asserted
  unfolding clear_irq
  clear_irq-driven m h = ground (arith, h, pin-interrupt false m.world)

  quiet-driven :
      {m n : Machine S}
      → IsQuiet m n
      → pin m.world.rest ≡ m.this.asserted
      → pin n.world.rest ≡ n.this.asserted
  quiet-driven q h = ap pin q.same_rest ∙ h ∙ sym q.same_asserted

  interrupt_cpu-driven :
      (ids : Events) (m : Machine S)
      → pin m.world.rest ≡ m.this.asserted
      → pin (interrupt_cpu interrupt ids m).world.rest
        ≡ (interrupt_cpu interrupt ids m).this.asserted
  unfolding interrupt_cpu
  interrupt_cpu-driven ids m h =
      let q = trigger_interrupt-IsQuiet ids m.this.model m in
      let t = trigger_interrupt ids m.this.model m in
      ground (arith, h, set_irq-driven t (quiet-driven q h))

  Step-driven :
      (ids : Events) {m n : Machine S}
      → Step interrupt ids pin m n
      → pin m.world.rest ≡ m.this.asserted
      → pin n.world.rest ≡ n.this.asserted
  unfolding reset
  Step-driven ids (fires m) h = interrupt_cpu-driven ids m h
  Step-driven ids (raises m) h = set_irq-driven m h
  Step-driven ids (lowers m) h = clear_irq-driven m h
  Step-driven ids (updates m) h = quiet-driven (update_idr-IsQuiet ids m) h
  Step-driven ids (is_triggered_by mask m) h =
      quiet-driven (trigger_on-IsQuiet ids m.this.model mask m) h
  Step-driven ids (is_set mask m) h = quiet-driven (set-IsQuiet ids mask m) h
  Step-driven ids (is_cleared m) h = quiet-driven (clear-IsQuiet ids m) h
  Step-driven ids (is_reset lowered m low) h = low
  Step-driven ids (elsewhere w m same) h = same ∙ h

  -- The line stays high exactly as long as the source has it asserted, in every state that the
  -- source reaches from one where that holds, over resets of the machine too. The parent's
  -- `interrupt` sets the line, and a reset of the machine lowers it.
  pub Reaches-driven :
      (ids : Events) {m n : Machine S}
      → Reaches interrupt ids pin m n
      → pin m.world.rest ≡ m.this.asserted
      → pin n.world.rest ≡ n.this.asserted
  Reaches-driven ids (here m) h = h
  Reaches-driven ids (then_step r s) h = Step-driven ids s (Reaches-driven ids r h)

  -- The interrupt event of a source whose request bit is clear sets that bit, and raises the line
  -- unless the source was read in the cycle before.
  pub interrupt_cpu-raises :
      (ids : Events) (m : Machine S)
      → interrupt_triggered m.this ≡ false
      → ack0 m ≡ false
      → pin m.world.rest ≡ m.this.asserted
      → (pin (interrupt_cpu interrupt ids m).world.rest ≡ true)
        × (interrupt_triggered (interrupt_cpu interrupt ids m).this ≡ true)
  unfolding interrupt_cpu set_irq interrupt_triggered
  interrupt_cpu-raises ids m clear late h =
      let t = trigger_interrupt ids m.this.model m in
      let q = trigger_interrupt-IsQuiet ids m.this.model m in
      let facts = trigger_interrupt_lem ids m.this.model m late in
      ground (
        arith,
        clear,
        facts,
        quiet-driven q h,
        pin-interrupt true t.world,
        requested_bit m.this.idr,
      )
