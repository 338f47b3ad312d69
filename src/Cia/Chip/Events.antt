-- ===== src/Cia/Chip/Events.antt =====
-- The events of the CIA of src/c64/CIA/mos652x.cpp, and its registers as the processor reads and
-- writes them.
use libsidplayfp.Base.{
  put_at, switch, ℕ, ◌-◌, ◌/◌, bit_and, bit_or, bit_xor, true, ◌&&◌, ◌==◌, ◌!=◌, if◌then◌else◌,
  List, [], ◌∷◌,
}
use libsidplayfp.World.{World}
use libsidplayfp.Endian.{get_16lo8, get_16hi8}
use libsidplayfp.EventQueue.{phi1, get_time}
use libsidplayfp.Cia.Timer
use libsidplayfp.Cia.Timer.{since, elapsed_since, sub_16, ciat_step}
use libsidplayfp.Cia.Tod
use libsidplayfp.Cia.Tod.{Reg, tenths, seconds, minutes, hours}
use libsidplayfp.Cia.Interrupts
use libsidplayfp.Cia.Serial
use libsidplayfp.Cia.Chip.{
  Cia, Machine, Env, Ids, pra, prb, ddra, ddrb, cra, crb, put_context, on_timer_a, on_timer_b,
  on_serial, on_source, adjust_data_port, if_under_a, if_under_b, sync_a, sync_b, wake_up_a,
  wake_up_b, tod_interrupt, sp_interrupt,
}

module _ {S : Type 0} where
  abbrev pub put_timer_a : Timer.Timer → Machine S → Machine S
  put_timer_a t m = record m { this = record m.this { timer_a = t } }

  abbrev pub put_timer_b : Timer.Timer → Machine S → Machine S
  put_timer_b t m = record m { this = record m.this { timer_b = t } }

  abbrev pub put_tod : Tod.Tod → Machine S → Machine S
  put_tod t m = record m { this = record m.this { tod = t } }

-- `cycleSkippingEvent` up to the call of `event`
unfoldable pub skipped : ℕ → Timer.Timer → Timer.Timer
skipped now t = record t {
  cia_event_pause_time = since 0;
  timer = sub_16 t.timer (elapsed_since 0 0 now t.cia_event_pause_time);
}

module _ {S : Type 0} (ids : Ids) where
  -- `Timer::event` of the two timers: what an underflow calls comes between `clock` and
  -- `reschedule`.
  unfoldable pub timer_a_event : Machine S → Machine S
  timer_a_event m =
      let (t, under) = Timer.clock m.this.timer_a in
      on_timer_a (Timer.reschedule ids.timer_a ids.skip_a) (if_under_a ids under (put_timer_a t m))

  unfoldable pub timer_b_event : Machine S → Machine S
  timer_b_event m =
      let (t, under) = Timer.clock m.this.timer_b in
      on_timer_b (Timer.reschedule ids.timer_b ids.skip_b) (if_under_b ids under (put_timer_b t m))

  unfoldable pub skip_a_event : Machine S → Machine S
  skip_a_event m =
      timer_a_event (put_timer_a (skipped (get_time phi1 m.world.context) m.this.timer_a) m)

  unfoldable pub skip_b_event : Machine S → Machine S
  skip_b_event m =
      timer_b_event (put_timer_b (skipped (get_time phi1 m.world.context) m.this.timer_b) m)

  -- `bTick`, with `TimerB::cascade`
  unfoldable pub b_tick : Machine S → Machine S
  b_tick m =
      let m' = sync_b ids m in
      wake_up_b ids (
        put_timer_b (record m'.this.timer_b { m_state = bit_or m'.this.timer_b.m_state ciat_step })
          m')

  unfoldable pub tod_event : Machine S → Machine S
  tod_event m =
      let (t, alarm, c) = Tod.event ids.tod (m.this.regs cra) m.this.tod m.world.context in
      let m' = put_context c (put_tod t m) in if alarm then tod_interrupt ids m' else m'

  -- `SerialPort::event`
  unfoldable pub serial_event : Machine S → Machine S
  serial_event m = sp_interrupt ids m

module _ {S : Type 0} (env : Env S) (ids : Ids) where
  abbrev pub read_tod : Reg → Machine S → ℕ × Machine S
  read_tod reg m = let (value, t) = Tod.read reg m.this.tod in (value, put_tod t m)

  abbrev pub write_tod : Reg → ℕ → Machine S → Machine S
  write_tod reg value m =
      let (t, alarm) = Tod.write (m.this.regs crb) reg value m.this.tod in
      if alarm then tod_interrupt ids (put_tod t m) else put_tod t m

  abbrev pub read_icr : Machine S → ℕ × Machine S
  read_icr m =
      let (value, s) =
        Interrupts.clear ids.interrupts
          (record { this = m.this.interrupt_source; world = m.world }) in
      (value, record { this = record m.this { interrupt_source = s.this }; world = s.world })

  abbrev pub sync_timers : Machine S → Machine S
  sync_timers m = wake_up_b ids (sync_b ids (wake_up_a ids (sync_a ids m)))

  -- The `switch` of `read`
  unfoldable pub read_register : ℕ → Machine S → ℕ × Machine S
  read_register addr m =
      let c = m.this in
      switch addr
        ((pra, (bit_or (c.regs pra) (255 - c.regs ddra), m))
          ∷ (prb, (adjust_data_port (bit_or (c.regs prb) (255 - c.regs ddrb)) c, m))
          ∷ (4, (get_16lo8 c.timer_a.timer, m))
          ∷ (5, (get_16hi8 c.timer_a.timer, m))
          ∷ (6, (get_16lo8 c.timer_b.timer, m))
          ∷ (7, (get_16hi8 c.timer_b.timer, m))
          ∷ (8, read_tod tenths m)
          ∷ (9, read_tod seconds m)
          ∷ (10, read_tod minutes m)
          ∷ (11, read_tod hours m)
          ∷ (13, read_icr m)
          ∷ (cra, (bit_or (bit_and (c.regs cra) 0xee) (bit_and c.timer_a.m_state 1), m))
          ∷ (crb, (bit_or (bit_and (c.regs crb) 0xee) (bit_and c.timer_b.m_state 1), m))
          ∷ [])
        (c.regs addr, m)

  unfoldable pub read : ℕ → Machine S → ℕ × Machine S
  read addr m = read_register (bit_and addr 0x0f) (sync_timers m)

  -- Cases CRA and CRB of `write`
  unfoldable pub write_cra : (old_data value : ℕ) → Machine S → Machine S
  write_cra old_data value m =
      let m1 =
        if bit_and (bit_xor value old_data) 0x40 != 0
        then on_serial (Serial.switch_serial_direction ids.serial (bit_and value 0x40 == 0)) m
        else m in
      let t = m1.this.timer_a in
      let starts = (bit_and value 1 != 0) && (bit_and old_data 1 == 0) in
      let t' = if starts then Timer.set_pb_toggle true t else t in
      put_timer_a (Timer.set_control_register value t') m1

  unfoldable pub write_crb : (old_data value : ℕ) → Machine S → Machine S
  write_crb old_data value m =
      let t = m.this.timer_b in
      let starts = (bit_and value 1 != 0) && (bit_and old_data 1 == 0) in
      let t' = if starts then Timer.set_pb_toggle true t else t in
      put_timer_b (Timer.set_control_register (bit_or value (bit_and value 0x40 / 2)) t') m

  abbrev pub call_port : (Cia → World S → World S) → Machine S → Machine S
  call_port port m = record m { world = port m.this m.world }

  -- The `switch` of `write`
  unfoldable pub write_cases : (old_data value : ℕ) → List (ℕ × (Machine S → Machine S))
  write_cases old_data value =
      (pra, call_port env.port_a)
      ∷ (ddra, call_port env.port_a)
      ∷ (prb, call_port env.port_b)
      ∷ (ddrb, call_port env.port_b)
      ∷ (4, λ m. put_timer_a (Timer.latch_lo value m.this.timer_a) m)
      ∷ (5, λ m. put_timer_a (Timer.latch_hi value m.this.timer_a) m)
      ∷ (6, λ m. put_timer_b (Timer.latch_lo value m.this.timer_b) m)
      ∷ (7, λ m. put_timer_b (Timer.latch_hi value m.this.timer_b) m)
      ∷ (8, write_tod tenths value)
      ∷ (9, write_tod seconds value)
      ∷ (10, write_tod minutes value)
      ∷ (11, write_tod hours value)
      ∷ (12, on_serial (Serial.start_sdr ids.serial))
      ∷ (13, on_source (Interrupts.set ids.interrupts value))
      ∷ (cra, write_cra old_data value)
      ∷ (crb, write_crb old_data value)
      ∷ []

  unfoldable pub write : (addr value : ℕ) → Machine S → Machine S
  write addr value m =
      let address = bit_and addr 0x0f in
      let synced = sync_b ids (sync_a ids m) in
      let stored : Machine S = record synced {
        this = record synced.this { regs = put_at synced.this.regs address value };
      } in
      wake_up_b ids (
        wake_up_a ids
          (switch address (write_cases (synced.this.regs address) value) (λ n. n) stored))
