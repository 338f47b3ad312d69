-- ===== src/Cia/Timer.antt =====
-- src/c64/CIA/timer.h and timer.cpp: a CIA timer, its state machine and its cycle skipping. The
-- scheduler is the event queue. The virtual calls of `clock`, `serialPort()` and `underFlow()`,
-- always made together, are a Boolean beside the new state.
pub mod Flags
pub mod State
pub mod Skip
pub mod Events
mod Tests
use libsidplayfp.Base.{
  ℕ, ◌+◌, ◌-◌, ◌*◌, ◌%◌, ◌^◌, bit_and, bit_or, bit_xor, Bool, true, false, not, ◌&&◌, ◌||◌, ◌==◌,
  ◌!=◌, ltb, leb, if◌then◌else◌,
}
use libsidplayfp.EventQueue
use libsidplayfp.EventQueue.{
  EventId, Context, phi1, phi2, schedule, schedule_phase, cancel, get_time,
}
use libsidplayfp.Endian.{set_16lo8, set_16hi8}

abbrev pub ciat_cr_start : ℕ
ciat_cr_start = 0x01

abbrev pub ciat_step : ℕ
ciat_step = 0x04

abbrev pub ciat_cr_oneshot : ℕ
ciat_cr_oneshot = 0x08

abbrev pub ciat_cr_fload : ℕ
ciat_cr_fload = 0x10

abbrev pub ciat_phi2in : ℕ
ciat_phi2in = 0x20

abbrev pub ciat_cr_mask : ℕ
ciat_cr_mask = bit_or (bit_or (bit_or ciat_cr_start ciat_cr_oneshot) ciat_cr_fload) ciat_phi2in

abbrev pub ciat_count2 : ℕ
ciat_count2 = 0x100

abbrev pub ciat_count3 : ℕ
ciat_count3 = 0x200

abbrev pub ciat_oneshot0 : ℕ
ciat_oneshot0 = 0x08 * 2 ^ 8

abbrev pub ciat_oneshot : ℕ
ciat_oneshot = 0x08 * 2 ^ 16

abbrev pub ciat_load1 : ℕ
ciat_load1 = 0x10 * 2 ^ 8

abbrev pub ciat_load : ℕ
ciat_load = 0x10 * 2 ^ 16

abbrev pub ciat_out : ℕ
ciat_out = 0x80000000

-- `ciaEventPauseTime`: -1, or a clock, 0 for a timer that ticks.
pub data PauseTime : Type 0 where
  stopped : PauseTime
  since : ℕ → PauseTime

-- `m_state` is its bit pattern, of 32 bits.
pub record Timer : Type 0 where
  pub cia_event_pause_time : PauseTime
  pub pb_toggle : Bool
  pub timer : ℕ
  pub latch : ℕ
  pub last_control_value : ℕ
  pub m_state : ℕ

-- `state & mask` as a test, `state & ~mask`, and the tests that all of a mask's bits are set.
abbrev pub any_of : ℕ → ℕ → Bool
any_of mask state = bit_and state mask != 0

abbrev pub all_of : ℕ → ℕ → Bool
all_of mask state = bit_and state mask == mask

abbrev pub without : ℕ → ℕ → ℕ
without mask state = bit_and state (0xffffffff - mask)

pub set_control_register : ℕ → Timer → Timer
set_control_register cr s = record s {
  m_state = bit_or (without ciat_cr_mask s.m_state) (bit_xor (bit_and cr ciat_cr_mask) ciat_phi2in);
  last_control_value = cr;
}

-- The block of `clock` taken from ciatimer.c.
pub next_state : ℕ → ℕ
next_state m =
    let start_in = bit_or ciat_cr_start ciat_phi2in in
    let adj = bit_and m (bit_or (bit_or ciat_cr_start ciat_cr_oneshot) ciat_phi2in) in
    let adj' = if all_of start_in m then bit_or adj ciat_count2 else adj in
    let adj'' =
      if any_of ciat_count2 m || all_of (bit_or ciat_step ciat_cr_start) m
      then bit_or adj' ciat_count3
      else adj' in
    bit_or adj'' (
      bit_and m (bit_or (bit_or (bit_or ciat_cr_fload ciat_cr_oneshot) ciat_load1) ciat_oneshot0)
      * 2 ^ 8)

-- `timer -= n` in 16 bits.
abbrev pub sub_16 : ℕ → ℕ → ℕ
sub_16 t n = (t + 65536 - n % 65536) % 65536

-- The state after an underflow.
pub underflow_state : ℕ → ℕ
underflow_state m =
    let m' = bit_or m (bit_or ciat_load ciat_out) in
    if any_of (bit_or ciat_oneshot ciat_oneshot0) m'
    then without (bit_or ciat_cr_start ciat_count2) m'
    else m'

-- The last block of `clock`.
pub reload : Timer → Timer
reload s =
    if any_of ciat_load s.m_state
    then record s { timer = s.latch; m_state = without ciat_count3 s.m_state }
    else s

-- The Boolean says whether `serialPort()` and `underFlow()` were called.
pub clock : Timer → Timer × Bool
unfolding next_state underflow_state reload
clock s =
    let t = if any_of ciat_count3 s.m_state then sub_16 s.timer 1 else s.timer in
    let m = next_state s.m_state in
    let toggle = bit_and s.last_control_value 0x06 == 6 in
    if (t == 0) && any_of ciat_count3 m
    then (
      reload (record s {
        timer = t;
        m_state = underflow_state m;
        pb_toggle = toggle && not s.pb_toggle;
      }),
      true,
    )
    else (reload (record s { timer = t; m_state = m }), false)

-- A timer with the scheduler. The two events are the timer itself and `m_cycleSkippingEvent`.
pub record Machine : Type 0 where
  pub this : Timer
  pub context : Context

module _ (self skip_event : EventId) where
  pub reschedule : Machine → Machine
  reschedule m =
      let s = m.this in
      let next_clock = record m { context = schedule self 1 m.context } in
      let unwanted = bit_or (bit_or (bit_or ciat_out ciat_cr_fload) ciat_load1) ciat_load in
      let wanted = bit_or (bit_or (bit_or ciat_cr_start ciat_phi2in) ciat_count2) ciat_count3 in
      if any_of unwanted s.m_state
      then next_clock
      else if any_of ciat_count3 s.m_state
      then if ltb 2 s.timer && all_of wanted s.m_state
        then record {
          this = record s { cia_event_pause_time = since (get_time phi1 m.context + 1) };
          context = schedule skip_event (s.timer - 1) m.context;
        }
        else next_clock
      else if all_of (bit_or ciat_cr_start ciat_phi2in) s.m_state
          || all_of (bit_or ciat_cr_start ciat_step) s.m_state
      then next_clock
      else record m { this = record s { cia_event_pause_time = stopped } }

  pub event : Machine → Machine × Bool
  unfolding reschedule
  event m = let (s, under) = clock m.this in (reschedule (record m { this = s }), under)

  -- `getTime(EVENT_CLOCK_PHI1) - ciaEventPauseTime`; the event fires after the pause began.
  pub elapsed_since : ℕ → PauseTime → ℕ
  elapsed_since now stopped = now + 1
  elapsed_since now (since n) = now - n

  pub cycle_skipping_event : Machine → Machine × Bool
  unfolding event elapsed_since
  cycle_skipping_event m =
      let s = m.this in
      let elapsed = elapsed_since (get_time phi1 m.context) s.cia_event_pause_time in
      event (record m {
        this = record s { cia_event_pause_time = since 0; timer = sub_16 s.timer elapsed };
      })

  -- `if (ciaEventPauseTime > 0)` of `syncWithCpu`
  pub sync_skipped : ℕ → Machine → Machine × Bool
  sync_skipped n m =
      let c = cancel skip_event m.context in
      let elapsed = get_time phi2 c - n in
      let (s, under) = clock (record m.this { timer = sub_16 m.this.timer elapsed }) in
      if leb n (get_time phi2 c)
      then (record { this = s; context = c }, under)
      else (record m { context = c }, false)

  pub sync_with_cpu : Machine → Machine × Bool
  unfolding sync_skipped
  sync_with_cpu m = elim m.this.cia_event_pause_time [
    | stopped ↦ (record m { this = record m.this { cia_event_pause_time = stopped } }, false)
    | since n ↦
        let (m', under) = if ltb 0 n then sync_skipped n m else (m, false) in
        let c = if n == 0 then cancel self m'.context else m'.context in
        (record { this = record m'.this { cia_event_pause_time = stopped }; context = c }, under)
  ]

  pub wake_up_after_sync_with_cpu : Machine → Machine
  wake_up_after_sync_with_cpu m = record {
    this = record m.this { cia_event_pause_time = since 0 };
    context = schedule_phase self 0 phi1 m.context;
  }

  pub reset : Machine → Machine
  reset m = record {
    this = record {
      cia_event_pause_time = since 0;
      pb_toggle = false;
      timer = 0xffff;
      latch = 0xffff;
      last_control_value = 0;
      m_state = 0;
    };
    context = schedule_phase self 1 phi1 (cancel self m.context);
  }

pub latch_lo : ℕ → Timer → Timer
latch_lo byte s =
    let latch = set_16lo8 s.latch byte in
    if any_of ciat_load s.m_state
    then record s { latch = latch; timer = latch }
    else record s { latch = latch }

pub latch_hi : ℕ → Timer → Timer
latch_hi byte s =
    let latch = set_16hi8 s.latch byte in
    if any_of ciat_load s.m_state
    then record s { latch = latch; timer = latch }
    else if any_of ciat_cr_start s.m_state
    then record s { latch = latch }
    else record s { latch = latch; m_state = bit_or s.m_state ciat_load1 }

pub set_pb_toggle : Bool → Timer → Timer
set_pb_toggle b s = record s { pb_toggle = b }

-- `getPb(reg)`
pub get_pb : ℕ → Timer → Bool
get_pb reg s = if bit_and reg 0x04 != 0 then s.pb_toggle else any_of ciat_out s.m_state
