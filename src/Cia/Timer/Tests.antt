-- ===== src/Cia/Timer/Tests.antt =====
-- The laws of the CIA timer on a timer that counts down from 10.
use libsidplayfp.Base.{[], ◌∷◌, suc, ◌+◌, ◌-◌, ◌≡◌, refl, true, false, arith}
use libsidplayfp.EventQueue.{Context, phi1, phi2, trigger_after, cancel, get_time, time_at}
use libsidplayfp.Cia.Timer.{
  since, stopped, Timer, Machine, next_state, clock, event, sync_with_cpu, cycle_skipping_event,
  reschedule,
}
use libsidplayfp.Cia.Timer.Flags.{Flags, encode}
use libsidplayfp.Cia.Timer.Skip.{clocks, pauses, skipped, IsState, skipped-eq-clocks}
use libsidplayfp.Cia.Timer.Events.{paused, sync-event, wake-event}

-- Started, on the system clock, and counting.
abbrev counting_flags : Flags
counting_flags = record {
  cr_start = true;
  step = false;
  cr_oneshot = false;
  cr_fload = false;
  phi2in = true;
  count2 = true;
  count3 = true;
  oneshot0 = false;
  oneshot = false;
  load1 = false;
  load = false;
  out = false;
}

abbrev ten : Timer
ten = record {
  cia_event_pause_time = stopped;
  pb_toggle = false;
  timer = 10;
  latch = 20;
  last_control_value = 0x01;
  m_state = 0x321;
}

ten_encoded : ten.m_state ≡ encode counting_flags
unfolding encode
ten_encoded = refl

ten-IsState : IsState ten
ten-IsState = (counting_flags, ten_encoded)

ten-pauses : pauses (clock ten).0 ≡ true
unfolding clock next_state
ten-pauses = refl

ten-left : (clock ten).0.timer ≡ 9
unfolding clock next_state
ten-left = refl

skipped-eq-clocks_example :
    (clocks (suc 5) (clock ten).0 ≡ ((skipped 5 (clock ten).0).0, 0))
    × ((skipped 5 (clock ten).0).1 ≡ false)
skipped-eq-clocks_example =
    skipped-eq-clocks ten 5 ten-IsState (omega arith) (omega arith) ten-pauses
      (omega (arith, ten-left))

abbrev at_8 : Machine
at_8 = record { this = ten; context = record { now = 8; queue = [] } }

-- Five cycles after the pause began, and when it ends.
abbrev at_21 : Context
at_21 = record { now = 21; queue = (2, 24) ∷ [] }

abbrev at_24 : Context
at_24 = record { now = 24; queue = [] }

five_later : get_time phi2 at_21 ≡ get_time phi1 at_8.context + 1 + 5
unfolding get_time time_at
five_later = refl

skip_time : at_24.now ≡ trigger_after at_8.context.now ((clock ten).0.timer - 1)
unfolding trigger_after
skip_time = omega (arith, ten-left)

sync-event_example : sync_with_cpu 1 2 (record (event 1 2 at_8).0 { context = at_21 }) ≡ (
  record { this = paused stopped (clocks (suc 5) (clock ten).0).0; context = cancel 2 at_21 },
  false,
)
sync-event_example =
    sync-event 1 2 at_8 at_21 5 ten-IsState (omega arith) (omega arith) ten-pauses
      (omega (arith, ten-left)) five_later

wake-event_example : cycle_skipping_event 1 2 (record (event 1 2 at_8).0 { context = at_24 }) ≡ (
  reschedule 1 2 (record {
    this = paused (since 0) (clocks (suc ((clock ten).0.timer - 2)) (clock ten).0).0;
    context = at_24;
  }),
  false,
)
wake-event_example =
    wake-event 1 2 at_8 at_24 ten-IsState (omega arith) (omega arith) ten-pauses skip_time
