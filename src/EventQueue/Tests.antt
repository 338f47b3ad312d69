-- ===== src/EventQueue/Tests.antt =====
-- The laws of the event queue at given queues.
use libsidplayfp.Base.{◌≤◌, ◌≡◌, refl, some, []}
use libsidplayfp.EventQueue.{
  Context, phi2, insert, trigger_at, schedule_phase, next_event, IsTimely,
}
use libsidplayfp.EventQueue.Laws.{here, next, at_phase, fired, Reach-IsTimely}

abbrev idle : Context
idle = record { now = 5; queue = [] }

abbrev fired_once : Context
fired_once = record { now = trigger_at 5 3 phi2; queue = [] }

one_step : next_event (schedule_phase 7 3 phi2 idle) ≡ some (7, fired_once)
unfolding schedule_phase insert next_event
one_step = refl

Reach-IsTimely_example : (5 ≤ trigger_at 5 3 phi2) × IsTimely fired_once
Reach-IsTimely_example =
    Reach-IsTimely {c = idle} {d = fired_once} (record { sorted = tt; not_late = tt })
      (next (next here (at_phase 7 3 phi2 idle)) (fired 7 one_step))
