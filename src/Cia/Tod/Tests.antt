-- ===== src/Cia/Tod/Tests.antt =====
-- The laws of the time of day at given times.
use libsidplayfp.Base.{◌+◌, ◌%◌, ◌≡◌, inr, refl, false, [], arith}
use libsidplayfp.EventQueue.{Context}
use libsidplayfp.Cia.Tod.{Tod, unpack, update_counters}
use libsidplayfp.Cia.Tod.Counters.{IsTime, since_midnight, update_counters_lem}

-- 11:59:59.9 pm, with the alarm at 12:00:00.0 am.
abbrev last_tenth : Tod
last_tenth = record {
  cycles = 0;
  period = 0;
  todtickcounter = 0;
  is_latched = false;
  is_stopped = false;
  m_clock = record { ten = 9; sec = 0x59; min = 0x59; hour = 0x91 };
  m_latch = record { ten = 0; sec = 0; min = 0; hour = 0 };
  m_alarm = record { ten = 0; sec = 0; min = 0; hour = 0x12 };
}

last_tenth-IsTime : IsTime (unpack last_tenth.m_clock)
unfolding unpack
last_tenth-IsTime = record {
  ts_lt = omega arith;
  sl_lt = omega arith;
  sh_lt = omega arith;
  ml_lt = omega arith;
  mh_lt = omega arith;
  hour_in = inr (refl, omega arith);
  half = inr refl;
}

update_counters_lem_example :
    let d = unpack last_tenth.m_clock in
    let d' = unpack (update_counters last_tenth).0.m_clock in
    IsTime d' × (since_midnight d' ≡ (since_midnight d + 1) % 864000)
update_counters_lem_example = update_counters_lem last_tenth last_tenth-IsTime

abbrev start : Context
start = record { now = 0; queue = [] }
