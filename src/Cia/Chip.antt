-- ===== src/Cia/Chip.antt =====
-- src/c64/CIA/mos652x.h and mos652x.cpp: the CIA around its timers, its clock, its serial port and
-- its interrupt source. The virtual `interrupt`, `portA` and `portB` are parameters that act on the
-- rest of the machine.
pub mod Events
pub mod Ports
use libsidplayfp.Base.{
  ℕ, zero, suc, ◌+◌, ◌-◌, ◌*◌, ◌/◌, ◌%◌, ◌^◌, bit_and, bit_or, bit_xor, Bool, true, false, not,
  ◌&&◌, ◌||◌, ◌==◌, ◌!=◌, if◌then◌else◌, List, [], ◌∷◌,
}
use libsidplayfp.World.{World}
use libsidplayfp.Endian.{get_16lo8, get_16hi8}
use libsidplayfp.EventQueue
use libsidplayfp.EventQueue.{EventId, Context, phi1, phi2}
use libsidplayfp.Cia.Timer
use libsidplayfp.Cia.Timer.{ciat_cr_start, ciat_step}
use libsidplayfp.Cia.Tod
use libsidplayfp.Cia.Tod.{tenths, seconds, minutes, hours}
use libsidplayfp.Cia.Interrupts
use libsidplayfp.Cia.Interrupts.{
  InterruptSource, SourceModel, source_6526, source_8521, interrupt_underflow_a,
  interrupt_underflow_b, interrupt_alarm, interrupt_sp, new_source,
}
use libsidplayfp.Cia.Serial

-- `model_t`
pub data Model : Type 0 where
  mos6526 mos8521 mos6526w4485 : Model

-- The registers are a function on the addresses below 0x10.
pub record Cia : Type 0 where
  pub regs : ℕ → ℕ
  pub timer_a : Timer.Timer
  pub timer_b : Timer.Timer
  pub interrupt_source : InterruptSource
  pub tod : Tod.Tod
  pub serial_port : Serial.SerialPort

-- The chip's events. `skip_a` and `skip_b` are the `m_cycleSkippingEvent` of the timers.
pub record Ids : Type 0 where
  pub timer_a : EventId
  pub skip_a : EventId
  pub timer_b : EventId
  pub skip_b : EventId
  pub tod : EventId
  pub b_tick_event : EventId
  pub serial : Serial.Events
  pub interrupts : Interrupts.Events

pub record Env (S : Type 0) : Type 0 where
  pub interrupt : Bool → World S → World S
  pub port_a : Cia → World S → World S
  pub port_b : Cia → World S → World S

pub record Machine (S : Type 0) : Type 0 where
  pub this : Cia
  pub world : World S

abbrev pub pra : ℕ
pra = 0

abbrev pub prb : ℕ
prb = 1

abbrev pub ddra : ℕ
ddra = 2

abbrev pub ddrb : ℕ
ddrb = 3

abbrev pub cra : ℕ
cra = 14

abbrev pub crb : ℕ
crb = 15

-- `started`
unfoldable pub started : Timer.Timer → Bool
started t = bit_and t.m_state ciat_cr_start != 0

-- `adjustDataPort`
unfoldable pub adjust_data_port : ℕ → Cia → ℕ
adjust_data_port value c =
    let with_a =
      bit_or (bit_and value 0xbf) (if Timer.get_pb (c.regs cra) c.timer_a then 0x40 else 0) in
    let value' = if bit_and (c.regs cra) 0x02 != 0 then with_a else value in
    let with_b =
      bit_or (bit_and value' 0x7f) (if Timer.get_pb (c.regs crb) c.timer_b then 0x80 else 0) in
    if bit_and (c.regs crb) 0x02 != 0 then with_b else value'

-- A part of the chip is run with the scheduler, and put back.
module _ {S : Type 0} where
  abbrev pub put_context : Context → Machine S → Machine S
  put_context c m = record m { world = record m.world { context = c } }

  abbrev pub on_timer_a : (Timer.Machine → Timer.Machine) → Machine S → Machine S
  on_timer_a f m =
      let t = f (record { this = m.this.timer_a; context = m.world.context }) in
      put_context t.context (record m { this = record m.this { timer_a = t.this } })

  abbrev pub on_timer_b : (Timer.Machine → Timer.Machine) → Machine S → Machine S
  on_timer_b f m =
      let t = f (record { this = m.this.timer_b; context = m.world.context }) in
      put_context t.context (record m { this = record m.this { timer_b = t.this } })

  abbrev pub on_serial : (Serial.Machine → Serial.Machine) → Machine S → Machine S
  on_serial f m =
      let p = f (record { this = m.this.serial_port; context = m.world.context }) in
      put_context p.context (record m { this = record m.this { serial_port = p.this } })

  abbrev pub on_source : (Interrupts.Machine S → Interrupts.Machine S) → Machine S → Machine S
  on_source f m =
      let s = f (record { this = m.this.interrupt_source; world = m.world }) in
      record { this = record m.this { interrupt_source = s.this }; world = s.world }

module _ {S : Type 0} (ids : Ids) where
  abbrev pub trigger : ℕ → Machine S → Machine S
  trigger interrupt_mask m = on_source (Interrupts.trigger ids.interrupts interrupt_mask) m

  -- `handleSerialPort`, `underflowA`, `underflowB`, `todInterrupt` and `spInterrupt`
  unfoldable pub handle_serial_port : Machine S → Machine S
  handle_serial_port m =
      if bit_and (m.this.regs cra) 0x40 != 0 then on_serial (Serial.handle ids.serial) m else m

  unfoldable pub underflow_a : Machine S → Machine S
  underflow_a m =
      let m' = trigger interrupt_underflow_a m in
      if bit_and (m'.this.regs crb) 0x41 == 0x41
      then if started m'.this.timer_b
        then put_context (EventQueue.schedule_phase ids.b_tick_event 0 phi2 m'.world.context) m'
        else m'
      else m'

  unfoldable pub underflow_b : Machine S → Machine S
  underflow_b m = trigger interrupt_underflow_b m

  unfoldable pub tod_interrupt : Machine S → Machine S
  tod_interrupt m = trigger interrupt_alarm m

  unfoldable pub sp_interrupt : Machine S → Machine S
  sp_interrupt m = trigger interrupt_sp m

  -- The calls of `Timer::clock` when timer A or B underflows
  unfoldable pub if_under_a : Bool → Machine S → Machine S
  if_under_a under m = if under then underflow_a (handle_serial_port m) else m

  unfoldable pub if_under_b : Bool → Machine S → Machine S
  if_under_b under m = if under then underflow_b m else m

  -- `Timer::syncWithCpu` and `wakeUpAfterSyncWithCpu` of the two timers
  unfoldable pub sync_a : Machine S → Machine S
  sync_a m =
      let (t, under) =
        Timer.sync_with_cpu ids.timer_a ids.skip_a
          (record { this = m.this.timer_a; context = m.world.context }) in
      if_under_a under
        (put_context t.context (record m { this = record m.this { timer_a = t.this } }))

  unfoldable pub sync_b : Machine S → Machine S
  sync_b m =
      let (t, under) =
        Timer.sync_with_cpu ids.timer_b ids.skip_b
          (record { this = m.this.timer_b; context = m.world.context }) in
      if_under_b under
        (put_context t.context (record m { this = record m.this { timer_b = t.this } }))

  unfoldable pub wake_up_a : Machine S → Machine S
  wake_up_a m = on_timer_a (Timer.wake_up_after_sync_with_cpu ids.timer_a ids.skip_a) m

  unfoldable pub wake_up_b : Machine S → Machine S
  wake_up_b m = on_timer_b (Timer.wake_up_after_sync_with_cpu ids.timer_b ids.skip_b) m

  -- `reset`
  unfoldable pub reset : Machine S → Machine S
  reset m =
      let cleared : Machine S = record m { this = record m.this { regs = λ i. 0 } } in
      let m1 = on_serial Serial.reset cleared in
      let m2 = on_timer_a (Timer.reset ids.timer_a ids.skip_a) m1 in
      let m3 = on_timer_b (Timer.reset ids.timer_b ids.skip_b) m2 in
      let m4 = on_source (Interrupts.reset ids.interrupts) m3 in
      let (t, c) = Tod.reset ids.tod m4.this.tod m4.world.context in
      put_context (EventQueue.cancel ids.b_tick_event c)
        (record m4 { this = record m4.this { tod = t } })

  -- `setModel`
  unfoldable pub set_model : Model → Machine S → Machine S
  set_model model m =
      let source : SourceModel = elim model [ mos8521 ↦ source_8521 | _ ↦ source_6526 ] in
      let is4485 : Bool = elim model [ mos6526w4485 ↦ true | _ ↦ false ] in
      record m {
        this = record m.this {
          interrupt_source = new_source source;
          serial_port = Serial.set_model4485 is4485 m.this.serial_port;
        };
      }
