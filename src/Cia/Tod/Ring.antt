-- ===== src/Cia/Tod/Ring.antt =====
-- The ring counter of src/c64/CIA/tod.cpp, which divides the ticks of the power supply.
use libsidplayfp.Base.{
  Bool-cases, ℕ, zero, suc, Bool, not, ◌&&◌, ◌-◌, ◌!=◌, if◌then◌else◌, bit_and-0x80, inl, inr, ◌⊎◌,
  ◌/◌, ◌%◌, ◌^◌, ◌≡◌, refl, true, false, arith, bit_and, bit_or, ◌==◌,
}
use libsidplayfp.EventQueue.{EventId, Context}
use libsidplayfp.Cia.Tod.{Tod, event, update_counters, count_tick}
use libsidplayfp.Cia.Tod.Alarm.{ticks}

-- The value of the counter at which the clock goes on.
abbrev pub target : ℕ → ℕ
target cra = bit_or 0x1 (bit_and cra 0x80 / 2 ^ 6)

-- The ticks of the power supply for a tenth of a second, by bit 7 of the control register.
abbrev pub ticks_per_tenth : ℕ → ℕ
ticks_per_tenth cra = if bit_and cra 0x80 != 0 then 5 else 6

-- The counter `n` ticks on, and whether it misses the target at each of these ticks.
turned : ℕ → ℕ → ℕ
turned zero x = x
turned (suc n) x = turned n (count_tick x)

misses : ℕ → ℕ → ℕ → Bool
misses t zero x = true
misses t (suc n) x = not (x == t) && misses t n (count_tick x)

module _ (self : EventId) (cra : ℕ) (s : Tod) (c : Context) (runs : s.is_stopped ≡ false) where
  event-waits :
      (s.todtickcounter == target cra) ≡ false
      → ((event self cra s c).0.todtickcounter ≡ count_tick s.todtickcounter)
        × ((event self cra s c).0.m_clock ≡ s.m_clock)
        × ((event self cra s c).0.is_stopped ≡ false)
  unfolding event
  event-waits other = ground arith

  event-counts :
      (s.todtickcounter == target cra) ≡ true
      → ((event self cra s c).0.todtickcounter ≡ 0)
        × ((event self cra s c).0.m_clock ≡ (update_counters s).0.m_clock)
        × ((event self cra s c).0.is_stopped ≡ false)
  unfolding event update_counters
  event-counts reached = ground arith

rate_bit : (cra : ℕ) → (bit_and cra 0x80 ≡ 0x80) ⊎ (bit_and cra 0x80 ≡ 0)
rate_bit cra = elim (Bool-cases (cra / 128 % 2 == 1)) [
  | inl h ↦ inl (ground (arith, bit_and-0x80 cra))
  | inr h ↦ inr (ground (arith, bit_and-0x80 cra))
]

module _ (self : EventId) (cra : ℕ) where
  ticks-suc :
      (n : ℕ) (s : Tod) (c : Context)
      → (ticks self cra (suc n) s c).0
        ≡ (let (s', c') = ticks self cra n s c in (event self cra s' c').0)
  unfolding ticks
  ticks-suc zero s c = refl
  ticks-suc (suc n) s c = let (s', alarm, c') = event self cra s c in ticks-suc n s' c'

  ticks-waits :
      (n : ℕ) (s : Tod) (c : Context)
      → s.is_stopped ≡ false
      → misses (target cra) n s.todtickcounter ≡ true
      → ((ticks self cra n s c).0.todtickcounter ≡ turned n s.todtickcounter)
        × ((ticks self cra n s c).0.m_clock ≡ s.m_clock)
        × ((ticks self cra n s c).0.is_stopped ≡ false)
  unfolding ticks turned misses
  ticks-waits zero s c runs h = (refl, refl, runs)
  ticks-waits (suc n) s c runs h =
      let (s', alarm, c') = event self cra s c in
      ground (arith, event-waits self cra s c runs, ticks-waits n s' c')

  ticks-counts :
      (n : ℕ) (s : Tod) (c : Context)
      → s.is_stopped ≡ false
      → s.todtickcounter ≡ 0
      → misses (target cra) n 0 ≡ true
      → (turned n 0 == target cra) ≡ true
      → ((ticks self cra n s c).0.m_clock ≡ s.m_clock)
        × ((ticks self cra (suc n) s c).0.m_clock ≡ (update_counters s).0.m_clock)
        × ((ticks self cra (suc n) s c).0.todtickcounter ≡ 0)
  unfolding update_counters
  ticks-counts n s c runs cleared m reached =
      let (s', c') = ticks self cra n s c in
      let waited = ticks-waits n s c runs (rw cleared m) in
      ground (arith, waited, ticks-suc n s c, event-counts self cra s' c')

  -- A running clock whose counter is clear goes on by one tenth of a second at the fifth tick of a
  -- power supply of 50 Hz and at the sixth of one of 60 Hz, as bit 7 of the control register says,
  -- and not before; then the counter is clear again.
  pub ticks-ticks_per_tenth :
      (s : Tod) (c : Context)
      → s.is_stopped ≡ false
      → s.todtickcounter ≡ 0
      → ((ticks self cra (ticks_per_tenth cra - 1) s c).0.m_clock ≡ s.m_clock)
        × ((ticks self cra (ticks_per_tenth cra) s c).0.m_clock ≡ (update_counters s).0.m_clock)
        × ((ticks self cra (ticks_per_tenth cra) s c).0.todtickcounter ≡ 0)
  unfolding turned misses count_tick
  ticks-ticks_per_tenth s c runs cleared = elim (rate_bit cra) [
    | inl on ↦ rw on (ticks-counts 4 s c runs cleared (rw on refl) (rw on refl))
    | inr off ↦ rw off (ticks-counts 5 s c runs cleared (rw off refl) (rw off refl))
  ]
