-- ===== src/Cia/Interrupts/Tests.antt =====
-- The interrupt source of a CIA at given states.
use libsidplayfp.Base.{◌≡◌, refl, Bool, true, false, []}
use libsidplayfp.World.{World}
use libsidplayfp.EventQueue.{get_time, time_at, schedule_phase}
use libsidplayfp.Cia.Interrupts.{
  source_8521, Events, Machine, new_source, trigger, interrupt_cpu, reset, trigger_on, is_triggered,
  schedule, interrupt_masked, interrupt_triggered, trigger_interrupt, set_irq, ack0,
}
use libsidplayfp.Cia.Interrupts.Line.{
  here, then_step, fires, is_triggered_by, is_reset, Reaches-driven,
}

abbrev some_ids : Events
some_ids = record {
  interrupt_event = 1;
  update_idr_event = 2;
  set_irq_event = 3;
  clear_irq_event = 4;
}

-- The rest of the machine is the interrupt line.
abbrev put_line : Bool → World Bool → World Bool
put_line b w = record w { rest = b }

-- A new source to which the underflow of timer A has just come, with its mask bit set
abbrev masked_source : Machine Bool
masked_source = record {
  this = record (new_source source_8521) { icr = 1; idr = 1; idr_temp = 1 };
  world = record { context = record { now = 40; queue = [] }; rest = false };
}

-- The event raises the line, and a reset of the machine lowers it.
abbrev raised : Machine Bool
raised = interrupt_cpu put_line some_ids (trigger some_ids 1 masked_source)

abbrev reset_source : Machine Bool
reset_source = record (reset some_ids raised) {
  world = record (reset some_ids raised).world { rest = false };
}

line_goes_high : raised.world.rest ≡ true
unfolding new_source interrupt_cpu trigger_on is_triggered schedule interrupt_masked
    interrupt_triggered trigger_interrupt set_irq ack0 get_time time_at schedule_phase
line_goes_high = refl

Reaches-driven_example : reset_source.world.rest ≡ reset_source.this.asserted
unfolding new_source
Reaches-driven_example =
    Reaches-driven put_line (λ b. b) (λ b w. refl) some_ids
      (then_step
        (then_step (then_step (here masked_source) (is_triggered_by 1 masked_source))
          (fires (trigger some_ids 1 masked_source)))
        (is_reset false raised refl))
      refl
