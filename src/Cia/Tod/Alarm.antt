-- ===== src/Cia/Tod/Alarm.antt =====
-- Reading and setting the clock in src/c64/CIA/tod.cpp: the latch and the alarm.
use libsidplayfp.Base.{ℕ, zero, suc, ◌≡◌, ◌≢◌, ◌↔◌, true, arith, bit_and, ◌!=◌, if◌then◌else◌}
use libsidplayfp.EventQueue.{EventId, Context}
use libsidplayfp.Cia.Tod.{
  Reg, tenths, seconds, minutes, hours, at, same_time, Tod, write, masked, event,
}

module _ (self : EventId) (cra : ℕ) where
  -- The clock left to run for `n` events.
  unfoldable pub ticks : ℕ → Tod → Context → Tod × Context
  ticks zero s c = (s, c)
  ticks (suc n) s c = let (s', alarm, c') = event self cra s c in ticks n s' c'

-- A write raises the alarm exactly when it has changed the clock or the alarm and the two are now
-- the same in all four registers.
pub write_alarm :
    (crb : ℕ) (reg : Reg) (byte : ℕ) (s : Tod)
    → ((write crb reg byte s).1 ≡ true) ↔ (
        (same_time (write crb reg byte s).0.m_alarm (write crb reg byte s).0.m_clock ≡ true)
        × (at (if bit_and crb 0x80 != 0 then s.m_alarm else s.m_clock) reg ≢ masked crb reg byte))
unfolding write
write_alarm crb tenths byte s = ground arith
write_alarm crb seconds byte s = ground arith
write_alarm crb minutes byte s = ground arith
write_alarm crb hours byte s = ground arith
