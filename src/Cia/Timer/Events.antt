-- ===== src/Cia/Timer/Events.antt =====
-- Cycle skipping of src/c64/CIA/timer.cpp with the scheduler: what `syncWithCpu` and the wake-up
-- find after a pause.
use libsidplayfp.Base.{ℕ, suc, ◌+◌, ◌-◌, ◌≤◌, ◌<◌, ◌≡◌, Bool, true, false, arith, ap, ap₂, sym, ◌∙◌}
use libsidplayfp.EventQueue.{
  EventId, Context, phi1, phi2, get_time, time_at, cancel, schedule, trigger_after,
}
use libsidplayfp.Cia.Timer.{
  Timer, Machine, PauseTime, stopped, since, clock, reload, sub_16, event, reschedule,
  sync_with_cpu, cycle_skipping_event, elapsed_since,
}
use libsidplayfp.Cia.Timer.Skip.{
  clocks, pauses, skipped, IsState, skipped-eq-clocks, clock-timer-lt,
}

-- The state machine does not look at the pause time.
abbrev pub paused : PauseTime → Timer → Timer
paused p s = record s { cia_event_pause_time = p }

clock-paused :
    (s : Timer) (p : PauseTime) → clock (paused p s) ≡ (paused p (clock s).0, (clock s).1)
unfolding clock reload
clock-paused s p = ground arith

module _ (self skip_event : EventId) where
  -- A timer that pauses has its skip event scheduled one cycle before it would run out.
  pub event-pauses :
      (m : Machine)
      → pauses (clock m.this).0 ≡ true
      → (event self skip_event m).0 ≡ record {
        this = paused (since (get_time phi1 m.context + 1)) (clock m.this).0;
        context = schedule skip_event ((clock m.this).0.timer - 1) m.context;
      }
  unfolding event reschedule
  event-pauses m p = ground arith

  sync-skipped :
      (s : Timer) (c : Context) (n k : ℕ)
      → 0 < n
      → get_time phi2 c ≡ n + k
      → sync_with_cpu self skip_event (record { this = paused (since n) s; context = c }) ≡ (
        record { this = paused stopped (skipped k s).0; context = cancel skip_event c },
        (skipped k s).1,
      )
  unfolding sync_with_cpu get_time cancel
  sync-skipped s c n k pos later =
      ground (arith, clock-paused (record s { timer = sub_16 s.timer k }) (since n))

  -- Looked at by the CPU `k` cycles into a pause that began with a tick, up to the cycle at which 2
  -- is left, the timer is as if it had been clocked at every cycle: it stops skipping, its skip
  -- event is cancelled, and no underflow is missed.
  pub sync-event :
      (m : Machine) (c : Context) (k : ℕ)
      → IsState m.this
      → m.this.timer < 65536
      → m.this.latch < 65536
      → pauses (clock m.this).0 ≡ true
      → k + 2 ≤ (clock m.this).0.timer
      → get_time phi2 c ≡ get_time phi1 m.context + 1 + k
      → sync_with_cpu self skip_event (record (event self skip_event m).0 { context = c }) ≡ (
        record {
          this = paused stopped (clocks (suc k) (clock m.this).0).0;
          context = cancel skip_event c;
        },
        false,
      )
  sync-event m c k st small latched p left later =
      let s = (clock m.this).0 in
      let begin = get_time phi1 m.context + 1 in
      let exact = skipped-eq-clocks m.this k st small latched p left in
      ap (λ (t : Timer). sync_with_cpu self skip_event (record { this = t; context = c }))
        (ap Machine.this (event-pauses m p))
      ∙ sync-skipped s c begin k (omega arith) later
      ∙ ap₂
          (λ (r : Timer × ℕ) (u : Bool).
            let found : Machine × Bool =
              (record { this = paused stopped r.0; context = cancel skip_event c }, u) in
            found)
          (sym exact.0) exact.1

  wake-skipped :
      (s : Timer) (c : Context) (n k : ℕ)
      → get_time phi1 c ≡ n + k
      → cycle_skipping_event self skip_event (record { this = paused (since n) s; context = c }) ≡ (
        reschedule self skip_event
            (record { this = paused (since 0) (skipped k s).0; context = c }),
        (skipped k s).1,
      )
  unfolding cycle_skipping_event event elapsed_since
  wake-skipped s c n k later =
      let elapsed : get_time phi1 c - n ≡ k = omega arith in
      rw (elapsed, clock-paused (record s { timer = sub_16 s.timer k }) (since 0))

  -- The scheduler's time at the wake-up.
  wake-time :
      (m c : Context) (t : ℕ)
      → 2 < t
      → t < 65536
      → c.now ≡ trigger_after m.now (t - 1)
      → get_time phi1 c ≡ get_time phi1 m + 1 + (t - 2)
  unfolding get_time time_at trigger_after
  wake-time m c t low high e = omega arith

  -- Left alone until its skip event fires, a timer that paused on a tick is as if it had been clocked at every cycle,
  -- up to the clock after which 1 is left; no underflow is missed.
  pub wake-event :
      (m : Machine) (c : Context)
      → IsState m.this
      → m.this.timer < 65536
      → m.this.latch < 65536
      → pauses (clock m.this).0 ≡ true
      → c.now ≡ trigger_after m.context.now ((clock m.this).0.timer - 1)
      → cycle_skipping_event self skip_event (record (event self skip_event m).0 { context = c })
        ≡ (
          reschedule self skip_event (record {
            this = paused (since 0) (clocks (suc ((clock m.this).0.timer - 2)) (clock m.this).0).0;
            context = c;
          }),
          false,
        )
  wake-event m c st small latched p fires =
      let s = (clock m.this).0 in
      let begin = get_time phi1 m.context + 1 in
      let more : 2 < s.timer = ground arith in
      let later = wake-time m.context c s.timer more (clock-timer-lt m.this small latched) fires in
      let exact = skipped-eq-clocks m.this (s.timer - 2) st small latched p (omega arith) in
      ap (λ (t : Timer). cycle_skipping_event self skip_event (record { this = t; context = c }))
        (ap Machine.this (event-pauses m p))
      ∙ wake-skipped s c begin (s.timer - 2) later
      ∙ ap₂
          (λ (r : Timer × ℕ) (u : Bool).
            let found : Machine × Bool = (
              reschedule self skip_event (record { this = paused (since 0) r.0; context = c }),
              u,
            ) in
            found)
          (sym exact.0) exact.1
