-- ===== src/Cia/Tod/Counters.antt =====
-- `Tod::updateCounters` of src/c64/CIA/tod.cpp is a twelve-hour clock that counts tenths.
use mathlib.Core.Path.{subst}
use libsidplayfp.Base.{
  sym, ℕ, zero, suc, ◌-◌, ◌+◌, ◌*◌, ◌/◌, ◌%◌, ◌≤◌, ◌<◌, ◌≡◌, ◌⊎◌, inl, inr, refl, arith, bit_or,
  bit_xor, bit_and-0x0f, bit_and-0x07, bit_and-0x01, bit_and-0x80, bit_or_low, bit_or-zero,
}
use libsidplayfp.Cia.Tod.{
  Tod, Digits, unpack, pack, advance, advance_seconds, advance_minutes, advance_hours,
  update_counters,
}

-- The digits of a time that a clock can show. `half` is the am/pm flag.
pub record IsTime (d : Digits) : Type 0 where
  pub ts_lt : d.ts < 10
  pub sl_lt : d.sl < 10
  pub sh_lt : d.sh < 6
  pub ml_lt : d.ml < 10
  pub mh_lt : d.mh < 6
  pub hour_in : ((d.hh ≡ 0) × (1 ≤ d.hl) × (d.hl < 10)) ⊎ ((d.hh ≡ 1) × (d.hl < 3))
  pub half : (d.pm ≡ 0) ⊎ (d.pm ≡ 128)

-- The hour of the day, where 12 am is hour 0 and 12 pm hour 12.
abbrev pub hour_of_day : Digits → ℕ
hour_of_day d = (d.hh * 10 + d.hl) % 12 + d.pm / 128 * 12

-- The tenths of a second since midnight.
abbrev pub since_midnight : Digits → ℕ
since_midnight d = d.ts + 10 * (d.sl + 10 * d.sh) + 600 * (d.ml + 10 * d.mh) + 36000 * hour_of_day d

-- The hours go from one to the next, over noon and midnight too, and leave the rest alone.
record NextHour (d d' : Digits) : Type 0 where
  valid : IsTime d'
  next : hour_of_day d' ≡ (hour_of_day d + 1) % 24
  ts_same : d'.ts ≡ d.ts
  sl_same : d'.sl ≡ d.sl
  sh_same : d'.sh ≡ d.sh
  ml_same : d'.ml ≡ d.ml
  mh_same : d'.mh ≡ d.mh

flip_hour : (hh : ℕ) → hh < 2 → bit_xor hh 1 ≡ 1 - hh
flip_hour zero h = refl
flip_hour (suc zero) h = refl
flip_hour (suc (suc n)) h = absurd (omega arith)

flip_half : (pm : ℕ) → (pm ≡ 0) ⊎ (pm ≡ 128) → bit_xor pm 0x80 ≡ 128 - pm
flip_half pm (inl e) = rw e
flip_half pm (inr e) = rw e

advance_hours-NextHour : (d : Digits) → IsTime d → NextHour d (advance_hours d)
unfolding advance_hours
advance_hours-NextHour d h = ground (arith, bit_and-0x0f (d.hl + 1), flip_hour d.hh, flip_half d.pm)

-- The minutes of the day, which the hours and minutes make up; the seconds are left alone.
record NextMinute (d d' : Digits) : Type 0 where
  valid : IsTime d'
  next :
      d'.ml + 10 * d'.mh + 60 * hour_of_day d' ≡ (d.ml + 10 * d.mh + 60 * hour_of_day d + 1) % 1440
  ts_same : d'.ts ≡ d.ts
  sl_same : d'.sl ≡ d.sl
  sh_same : d'.sh ≡ d.sh

hour_of_day-lt : (d : Digits) → IsTime d → hour_of_day d < 24
hour_of_day-lt d h = ground arith

advance_minutes-NextMinute : (d : Digits) → IsTime d → NextMinute d (advance_minutes d)
unfolding advance_minutes
advance_minutes-NextMinute d h =
    let rolled : IsTime (record d { ml = 0; mh = 0 }) = ground arith in
    let hour = advance_hours-NextHour (record d { ml = 0; mh = 0 }) rolled in
    ground (arith, bit_and-0x0f (d.ml + 1), bit_and-0x07 (d.mh + 1), hour, hour_of_day-lt d h)

-- One tick of the tenths.
record NextTenth (d d' : Digits) : Type 0 where
  valid : IsTime d'
  next : since_midnight d' ≡ (since_midnight d + 1) % 864000

advance-NextTenth : (d : Digits) → IsTime d → NextTenth d (advance d)
unfolding advance advance_seconds
advance-NextTenth d h =
    let rolled : IsTime (record d { ts = 0; sl = 0; sh = 0 }) = ground arith in
    let minute = advance_minutes-NextMinute (record d { ts = 0; sl = 0; sh = 0 }) rolled in
    ground (
      arith,
      bit_and-0x0f (d.ts + 1),
      bit_and-0x0f (d.sl + 1),
      bit_and-0x07 (d.sh + 1),
      minute,
      hour_of_day-lt d h,
    )

or_half : (x pm : ℕ) → x < 128 → (pm ≡ 0) ⊎ (pm ≡ 128) → bit_or x pm ≡ x + pm
or_half x pm h (inl e) = rw e (omega (arith, bit_or-zero x))
or_half x pm h (inr e) = rw e (omega (arith, bit_or_low 7 1 x h))

-- The registers hold the digits without loss.
unpack-pack : (d : Digits) → IsTime d → unpack (pack d) ≡ d
unfolding unpack pack
unpack-pack d h =
    let sec = bit_or_low 4 d.sh d.sl (omega arith) in
    let min = bit_or_low 4 d.mh d.ml (omega arith) in
    let low = bit_or_low 4 d.hh d.hl (ground arith) in
    let hour = or_half (d.hh * 16 + d.hl) d.pm (ground arith) h.half in
    rw (sec, min, low, hour)
      (ground (
        arith,
        bit_and-0x0f d.ts,
        bit_and-0x0f (d.sh * 16 + d.sl),
        bit_and-0x07 ((d.sh * 16 + d.sl) / 16),
        bit_and-0x0f (d.mh * 16 + d.ml),
        bit_and-0x07 ((d.mh * 16 + d.ml) / 16),
        bit_and-0x0f (d.hh * 16 + d.hl + d.pm),
        bit_and-0x01 ((d.hh * 16 + d.hl + d.pm) / 16),
        bit_and-0x80 (d.hh * 16 + d.hl + d.pm),
      ))

-- On a clock that shows a time of the day, `updateCounters` moves it on by a tenth of a second, over
-- midnight to 0, and it again shows a time of the day.
pub update_counters_lem :
    (s : Tod)
    → IsTime (unpack s.m_clock)
    → let d = unpack s.m_clock in
      let d' = unpack (update_counters s).0.m_clock in
      IsTime d' × (since_midnight d' ≡ (since_midnight d + 1) % 864000)
unfolding update_counters
update_counters_lem s h =
    let d = unpack s.m_clock in
    let next = advance-NextTenth d h in
    subst (λ (d' : Digits). IsTime d' × (since_midnight d' ≡ (since_midnight d + 1) % 864000))
      (sym (unpack-pack (advance d) next.valid)) (next.valid, next.next)
