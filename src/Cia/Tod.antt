-- ===== src/Cia/Tod.antt =====
-- src/c64/CIA/tod.h and tod.cpp: the time-of-day clock of a CIA. `cra` and `crb` are references to
-- the control registers and are arguments here; `m_parent.todInterrupt()` is a Boolean beside the
-- new state.
pub mod Counters
pub mod Alarm
pub mod Ring
mod Tests
use libsidplayfp.Base.{
  ℕ, ◌+◌, ◌-◌, ◌*◌, ◌/◌, ◌%◌, ◌^◌, bit_and, bit_or, bit_xor, Bool, true, false, not, ◌&&◌, ◌||◌,
  ◌==◌, ◌!=◌, if◌then◌else◌,
}
use libsidplayfp.EventQueue.{EventId, Context, phi1, schedule, schedule_phase}

-- The indices of the registers.
pub data Reg : Type 0 where
  tenths seconds minutes hours : Reg

-- `uint8_t m_clock[4]`
pub record Time : Type 0 where
  pub ten : ℕ
  pub sec : ℕ
  pub min : ℕ
  pub hour : ℕ

abbrev pub at : Time → Reg → ℕ
at t tenths = t.ten
at t seconds = t.sec
at t minutes = t.min
at t hours = t.hour

abbrev pub put : Time → Reg → ℕ → Time
put t tenths v = record t { ten = v }
put t seconds v = record t { sec = v }
put t minutes v = record t { min = v }
put t hours v = record t { hour = v }

-- `memcmp` of two arrays: whether they are equal.
abbrev pub same_time : Time → Time → Bool
same_time a b = (a.ten == b.ten) && ((a.sec == b.sec) && ((a.min == b.min) && (a.hour == b.hour)))

pub record Tod : Type 0 where
  pub cycles : ℕ
  pub period : ℕ
  pub todtickcounter : ℕ
  pub is_latched : Bool
  pub is_stopped : Bool
  pub m_clock : Time
  pub m_latch : Time
  pub m_alarm : Time

pub set_period : ℕ → Tod → Tod
set_period clock s = record s { period = clock * 2 ^ 7 }

pub reset : EventId → Tod → Context → Tod × Context
reset self s c =
    let clock : Time = record { ten = 0; sec = 0; min = 0; hour = 1 } in
    (
      record {
        cycles = 0;
        period = s.period;
        todtickcounter = 0;
        is_latched = false;
        is_stopped = true;
        m_clock = clock;
        m_latch = clock;
        m_alarm = record { ten = 0; sec = 0; min = 0; hour = 0 };
      },
      schedule_phase self 0 phi1 c,
    )

pub read : Reg → Tod → ℕ × Tod
read reg s =
    let latch = if s.is_latched then s.m_latch else s.m_clock in
    let latched : Bool = elim reg [ tenths ↦ false | hours ↦ true | _ ↦ s.is_latched ] in
    (at latch reg, record s { m_latch = latch; is_latched = latched })

pub check_alarm : Tod → Bool
check_alarm s = same_time s.m_alarm s.m_clock

-- The `switch` of `write`, which cuts the data down to the register's bits.
pub masked : ℕ → Reg → ℕ → ℕ
masked crb tenths d = bit_and d 0x0f
masked crb seconds d = bit_and d 0x7f
masked crb minutes d = bit_and d 0x7f
masked crb hours d =
    let d' = bit_and d 0x9f in
    if (bit_and d' 0x1f == 0x12) && (bit_and crb 0x80 == 0) then bit_xor d' 0x80 else d'

-- Writing the tenths starts a stopped clock, writing the hours stops it.
pub start_stop : Reg → Tod → Tod
start_stop tenths s =
    if s.is_stopped then record s { todtickcounter = 0; is_stopped = false } else s
start_stop hours s = record s { is_stopped = true }
start_stop seconds s = s
start_stop minutes s = s

pub write : ℕ → Reg → ℕ → Tod → Tod × Bool
unfolding masked start_stop check_alarm
write crb reg byte s =
    let d = masked crb reg byte in
    let with_alarm = record s { m_alarm = put s.m_alarm reg d } in
    let s' = start_stop reg s in
    let with_time = record s' { m_clock = put s'.m_clock reg d } in
    if bit_and crb 0x80 != 0
    then if at s.m_alarm reg != d then (with_alarm, check_alarm with_alarm) else (s, false)
    else if at s'.m_clock reg != d
    then (with_time, check_alarm with_time)
    else (s', false)

-- The digits that `updateCounters` works on.
pub record Digits : Type 0 where
  pub ts : ℕ
  pub sl : ℕ
  pub sh : ℕ
  pub ml : ℕ
  pub mh : ℕ
  pub hl : ℕ
  pub hh : ℕ
  pub pm : ℕ

pub unpack : Time → Digits
unpack t = record {
  ts = bit_and t.ten 0x0f;
  sl = bit_and t.sec 0x0f;
  sh = bit_and (t.sec / 2 ^ 4) 0x07;
  ml = bit_and t.min 0x0f;
  mh = bit_and (t.min / 2 ^ 4) 0x07;
  hl = bit_and t.hour 0x0f;
  hh = bit_and (t.hour / 2 ^ 4) 0x01;
  pm = bit_and t.hour 0x80;
}

pub pack : Digits → Time
pack d = record {
  ten = d.ts;
  sec = bit_or d.sl (d.sh * 2 ^ 4);
  min = bit_or d.ml (d.mh * 2 ^ 4);
  hour = bit_or (bit_or d.hl (d.hh * 2 ^ 4)) d.pm;
}

-- The innermost block of `updateCounters`: hours 1 to 12, with the am/pm flag.
pub advance_hours : Digits → Digits
advance_hours d =
    if ((d.hl == 2) && (d.hh == 1)) || ((d.hl == 9) && (d.hh == 0))
    then record d { hl = d.hh; hh = bit_xor d.hh 1 }
    else let hl = bit_and (d.hl + 1) 0x0f in
      if (hl == 2) && (d.hh == 1)
      then record d { hl = hl; pm = bit_xor d.pm 0x80 }
      else record d { hl = hl }

pub advance_minutes : Digits → Digits
advance_minutes d =
    let ml = bit_and (d.ml + 1) 0x0f in
    let mh = bit_and (d.mh + 1) 0x07 in
    if ml == 10
    then if mh == 6
      then advance_hours (record d { ml = 0; mh = 0 })
      else record d { ml = 0; mh = mh }
    else record d { ml = ml }

pub advance_seconds : Digits → Digits
advance_seconds d =
    let sl = bit_and (d.sl + 1) 0x0f in
    let sh = bit_and (d.sh + 1) 0x07 in
    if sl == 10
    then if sh == 6
      then advance_minutes (record d { sl = 0; sh = 0 })
      else record d { sl = 0; sh = sh }
    else record d { sl = sl }

pub advance : Digits → Digits
advance d =
    let ts = bit_and (d.ts + 1) 0x0f in
    if ts == 10 then advance_seconds (record d { ts = 0 }) else record d { ts = ts }

pub update_counters : Tod → Tod × Bool
unfolding unpack pack advance advance_seconds advance_minutes advance_hours check_alarm
update_counters s =
    let s' = record s { m_clock = pack (advance (unpack s.m_clock)) } in (s', check_alarm s')

-- The ring counter of the power supply's ticks; `~todtickcounter` is of 32 bits.
pub count_tick : ℕ → ℕ
count_tick n = bit_or (n / 2) (bit_and ((0xffffffff - n) * 2 ^ 2 % 2 ^ 32) 0x4)

pub event : EventId → ℕ → Tod → Context → Tod × Bool × Context
unfolding update_counters count_tick
event self cra s c =
    let cycles = s.cycles + s.period in
    let c' = schedule self (cycles / 2 ^ 7 % 2 ^ 32) c in
    let s' = record s { cycles = bit_and cycles 0x7f } in
    let (counted, alarm) = update_counters (record s' { todtickcounter = 0 }) in
    if s.is_stopped
    then (s', false, c')
    else if s.todtickcounter == bit_or 0x1 (bit_and cra 0x80 / 2 ^ 6)
    then (counted, alarm, c')
    else (record s' { todtickcounter = count_tick s.todtickcounter }, false, c')
