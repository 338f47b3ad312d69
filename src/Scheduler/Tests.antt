-- ===== src/Scheduler/Tests.antt =====
-- The refinement of the scheduler at given heaps.
use libsidplayfp.Base.{◌≡◌, refl, ◌==◌, if◌then◌else◌, some, [], ◌∷◌, arith}
use libsidplayfp.EventQueue
use libsidplayfp.EventQueue.{EventId, Context, phi2, next_event}
use libsidplayfp.Scheduler.{Event, EventScheduler, Heap, schedule_phase, schedule, cancel, clock}
use libsidplayfp.Scheduler.Refine.Runs.{
  Represents, schedule_phase_refines, schedule_refines, cancel_refines, clock_refines,
}

abbrev blank : Event
blank = record { next = 0; trigger_time = 0 }

-- Event 1 is pending for time 8, event 2 for time 12.
abbrev two_cells : Heap
two_cells b =
    if b == 1
    then record { next = 2; trigger_time = 8 }
    else if b == 2
    then record { next = 0; trigger_time = 12 }
    else blank

abbrev two_events : EventScheduler
two_events = record { first_event = 1; current_time = 3; heap = two_cells }

abbrev two_pending : Context
two_pending = record { now = 3; queue = (1, 8) ∷ (2, 12) ∷ [] }

two_events-Represents : Represents two_events two_pending
two_events-Represents = record {
  time = refl;
  chain = (refl, omega arith, refl, (refl, omega arith, refl, refl));
  once = (refl, (refl, tt));
}

schedule_phase_refines_example :
    (s' : EventScheduler) × (schedule_phase 3 5 2 phi2 two_events ≡ some s')
    × Represents s' (EventQueue.schedule_phase 5 2 phi2 two_pending)
schedule_phase_refines_example =
    schedule_phase_refines 3 5 two_events-Represents (omega arith) 2 phi2 (omega arith) refl

schedule_refines_example :
    (s' : EventScheduler) × (schedule 3 5 2 two_events ≡ some s')
    × Represents s' (EventQueue.schedule 5 2 two_pending)
schedule_refines_example =
    schedule_refines 3 5 two_events-Represents (omega arith) 2 (omega arith) refl

cancel_refines_example :
    (s' : EventScheduler) × (cancel 3 1 two_events ≡ some s')
    × Represents s' (EventQueue.cancel 1 two_pending)
cancel_refines_example = cancel_refines 3 1 two_events-Represents (omega arith)

abbrev one_left : Context
one_left = record { now = 8; queue = (2, 12) ∷ [] }

first_fires : next_event two_pending ≡ some (1, one_left)
unfolding next_event
first_fires = refl

clock_refines_example :
    (s' : EventScheduler) × (clock two_events ≡ some (1, s')) × Represents s' one_left
clock_refines_example = clock_refines two_events-Represents first_fires
