-- ===== src/Cia/Timer/Skip.antt =====
-- Cycle skipping in src/c64/CIA/timer.cpp: a timer that only counts down is not clocked, and the
-- clocks are made up for when it is looked at.
use libsidplayfp.Base.{
  ℕ, zero, suc, ◌+◌, ◌-◌, ◌≤◌, ◌<◌, ◌≡◌, Bool, true, false, ◌&&◌, ◌==◌, ltb, to_ℕ, arith, refl, ap,
  ◌∙◌, if◌then◌else◌, Bool-cases, inl, inr,
}
use libsidplayfp.Cia.Timer.{
  Timer, clock, reload, sub_16, any_of, all_of, ciat_count3, underflow_state, next_state, ciat_load,
  without,
}
use libsidplayfp.Cia.Timer.Flags.{Flags, encode, shift}
use libsidplayfp.Cia.Timer.State.{
  next_state-encode, underflow_state-encode, count3-encode, load-encode, drop_count3-encode,
  passing, counting, passing-encode, counting-encode, underflowed,
}

-- `n` clocks, and how many of them underflowed.
unfoldable pub clocks : ℕ → Timer → Timer × ℕ
clocks zero s = (s, 0)
clocks (suc n) s = let (s', under) = clock s in let (s'', k) = clocks n s' in (s'', to_ℕ under + k)

-- The flags of a timer that counts down and has nothing else to do.
pub record Steady (f : Flags) : Type 0 where
  pub start : f.cr_start ≡ true
  pub input : f.phi2in ≡ true
  pub second : f.count2 ≡ true
  pub third : f.count3 ≡ true
  pub no_fload : f.cr_fload ≡ false
  pub no_load1 : f.load1 ≡ false
  pub no_load : f.load ≡ false
  pub no_out : f.out ≡ false
  pub once : f.oneshot0 ≡ f.cr_oneshot

Steady-shift : (f : Flags) → Steady f → Steady (shift f)
Steady-shift f h = ground arith

shift-shift : (f : Flags) → Steady f → shift (shift f) ≡ shift f
shift-shift f h = ground arith

-- One clock of a steady timer that is not about to run out.
clock-Steady :
    (s : Timer) (f : Flags)
    → s.m_state ≡ encode f
    → Steady f
    → 2 ≤ s.timer
    → s.timer < 65536
    → clock s ≡ (record s { timer = s.timer - 1; m_state = encode (shift f) }, false)
unfolding clock reload
clock-Steady s f e h low high = ground (
  arith,
  count3-encode f,
  ap (any_of ciat_count3) e,
  ap next_state e,
  next_state-encode f,
  count3-encode (shift f),
  load-encode (shift f),
)

-- While the timer does not run out, every clock takes one off.
clocks-Steady :
    (k : ℕ) (s : Timer) (f : Flags)
    → s.m_state ≡ encode f
    → Steady f
    → k + 2 ≤ s.timer
    → s.timer < 65536
    → clocks (suc k) s ≡ (record s { timer = s.timer - suc k; m_state = encode (shift f) }, 0)
unfolding clocks
clocks-Steady zero s f e h low high = ground (arith, clock-Steady s f e h)
clocks-Steady (suc k) s f e h low high = ground (
  arith,
  clock-Steady s f e h,
  shift-shift f h,
  clocks-Steady k (record s { timer = s.timer - 1; m_state = encode (shift f) }) (shift f) refl
      (Steady-shift f h),
)

-- `timer -= elapsed; clock();`
abbrev pub skipped : ℕ → Timer → Timer × Bool
skipped k s = clock (record s { timer = sub_16 s.timer k })

skipped-clocks :
    (k : ℕ) (s : Timer) (f : Flags)
    → s.m_state ≡ encode f
    → Steady f
    → k + 2 ≤ s.timer
    → s.timer < 65536
    → (clocks (suc k) s ≡ ((skipped k s).0, 0)) × ((skipped k s).1 ≡ false)
skipped-clocks k s f e h low high =
    let left : sub_16 s.timer k ≡ s.timer - k = omega arith in
    ground (
      arith,
      clocks-Steady k s f e h low high,
      clock-Steady (record s { timer = sub_16 s.timer k }) f e h,
    )

-- The bit pattern is that of a set of flags.
abbrev pub IsState : Timer → Type 0
IsState s = (f : Flags) × (s.m_state ≡ encode f)

-- The condition on which `reschedule` pauses the timer.
abbrev pub pauses : Timer → Bool
pauses s =
    if any_of passing s.m_state
    then false
    else if any_of ciat_count3 s.m_state
    then ltb 2 s.timer && all_of counting s.m_state
    else false

pub clock-timer-lt : (s : Timer) → s.timer < 65536 → s.latch < 65536 → (clock s).0.timer < 65536
unfolding clock reload
clock-timer-lt s h l = ground arith

-- The flags after a clock; the Boolean is whether it underflowed.
abbrev settle : Flags → Flags
settle f = if f.load then record f { count3 = false } else f

abbrev pub clocked : Bool → Flags → Flags
clocked under f = settle (if under then underflowed (shift f) else shift f)

reload-encode :
    (s : Timer) (f : Flags) → s.m_state ≡ encode f → (reload s).m_state ≡ encode (settle f)
unfolding reload
reload-encode s f e = ground (
  arith,
  ap (any_of ciat_load) e,
  load-encode f,
  ap (without ciat_count3) e,
  drop_count3-encode f,
)

-- After a clock the bit pattern is that of the flags after a clock, with or without an underflow.
pub clock-encode :
    (s : Timer) (f : Flags)
    → s.m_state ≡ encode f
    → (clock s).0.m_state ≡ encode (clocked (clock s).1 f)
unfolding clock
clock-encode s f e =
    let t = if any_of ciat_count3 s.m_state then sub_16 s.timer 1 else s.timer in
    let m = next_state s.m_state in
    let next : m ≡ encode (shift f) = ap next_state e ∙ next_state-encode f in
    elim (Bool-cases ((t == 0) && any_of ciat_count3 m)) [
      | inl ran_out ↦ rw ran_out (
          reload-encode _ (underflowed (shift f))
            (ap underflow_state next ∙ underflow_state-encode (shift f)))
      | inr goes_on ↦ rw goes_on (reload-encode _ (shift f) next)
    ]

-- A timer that pauses after a clock is steady.
pauses-Steady :
    (s : Timer) (f : Flags)
    → s.m_state ≡ encode f
    → pauses (clock s).0 ≡ true
    → Steady (clocked (clock s).1 f) × (2 < (clock s).0.timer)
pauses-Steady s f e p =
    let s' = (clock s).0 in
    let g = clocked (clock s).1 f in
    let same = clock-encode s f e in
    ground (
      arith,
      ap (any_of passing) same,
      passing-encode g,
      ap (any_of ciat_count3) same,
      count3-encode g,
      ap (all_of counting) same,
      counting-encode g,
    )

-- Cycle skipping is exact: when the timer pauses after a clock, taking off `k` cycles at once and
-- clocking once is the same as `k + 1` clocks, none of which underflows, for every number of cycles
-- up to the wake-up, at which 2 is left.
pub skipped-eq-clocks :
    (s : Timer) (k : ℕ)
    → IsState s
    → s.timer < 65536
    → s.latch < 65536
    → pauses (clock s).0 ≡ true
    → k + 2 ≤ (clock s).0.timer
    → (clocks (suc k) (clock s).0 ≡ ((skipped k (clock s).0).0, 0))
      × ((skipped k (clock s).0).1 ≡ false)
skipped-eq-clocks s k (f, e) small latched p left =
    let steady = pauses-Steady s f e p in
    skipped-clocks k (clock s).0 (clocked (clock s).1 f) (clock-encode s f e) steady.0 left
      (clock-timer-lt s small latched)
