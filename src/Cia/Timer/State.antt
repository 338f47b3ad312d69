-- ===== src/Cia/Timer/State.antt =====
-- The bit operations of src/c64/CIA/timer.cpp act on the flags as the reference description says.
use libsidplayfp.Base.{
  ℕ, ◌≡◌, Bool, true, false, not, ◌&&◌, ◌||◌, ◌==◌, ==_iff, arith, refl, bit_or,
}
use libsidplayfp.Cia.Timer.{
  next_state, underflow_state, any_of, all_of, without, ciat_count3, ciat_load, ciat_out,
  ciat_cr_fload, ciat_load1, ciat_cr_start, ciat_phi2in, ciat_count2,
}
use libsidplayfp.Cia.Timer.Flags.{Flags, encode, shift, all_bools, all_flags, all_flags_sound}

-- Two functions of the flags that agree at all 4096 values.
numbers_agree : (f g : Flags → ℕ) → all_flags (λ x. f x == g x) ≡ true → (x : Flags) → f x ≡ g x
numbers_agree f g h x = (==_iff (f x) (g x)).0 (all_flags_sound (λ x. f x == g x) h x)

agree : Bool → Bool → Bool
agree true b = b
agree false b = not b

agree_eq : (a b : Bool) → agree a b ≡ true → a ≡ b
unfolding agree
agree_eq a b h = ground arith

bools_agree :
    (f g : Flags → Bool) → all_flags (λ x. agree (f x) (g x)) ≡ true → (x : Flags) → f x ≡ g x
bools_agree f g h x = agree_eq (f x) (g x) (all_flags_sound (λ x. agree (f x) (g x)) h x)

-- The code's transition on bit patterns is the shift of the flags.
pub next_state-encode : (f : Flags) → next_state (encode f) ≡ encode (shift f)
unfolding all_bools next_state encode
next_state-encode = numbers_agree (λ f. next_state (encode f)) (λ f. encode (shift f)) refl

-- What an underflow does to the flags.
abbrev pub underflowed : Flags → Flags
underflowed f =
    let once = f.oneshot || f.oneshot0 in
    record f {
      cr_start = f.cr_start && not once;
      count2 = f.count2 && not once;
      load = true;
      out = true;
    }

-- What the code does to the bit pattern on an underflow is what `underflowed` does to the flags.
pub underflow_state-encode : (f : Flags) → underflow_state (encode f) ≡ encode (underflowed f)
unfolding all_bools underflow_state encode
underflow_state-encode =
    numbers_agree (λ f. underflow_state (encode f)) (λ f. encode (underflowed f)) refl

pub count3-encode : (f : Flags) → any_of ciat_count3 (encode f) ≡ f.count3
unfolding all_bools agree encode
count3-encode = bools_agree (λ f. any_of ciat_count3 (encode f)) (λ f. f.count3) refl

pub load-encode : (f : Flags) → any_of ciat_load (encode f) ≡ f.load
unfolding all_bools agree encode
load-encode = bools_agree (λ f. any_of ciat_load (encode f)) (λ f. f.load) refl

pub out-encode : (f : Flags) → any_of ciat_out (encode f) ≡ f.out
unfolding all_bools agree encode
out-encode = bools_agree (λ f. any_of ciat_out (encode f)) (λ f. f.out) refl

pub drop_count3-encode :
    (f : Flags) → without ciat_count3 (encode f) ≡ encode (record f { count3 = false })
unfolding all_bools encode
drop_count3-encode =
    numbers_agree (λ f. without ciat_count3 (encode f)) (λ f. encode (record f { count3 = false }))
      refl

-- The tests of `reschedule`.
abbrev pub passing : ℕ
passing = bit_or (bit_or (bit_or ciat_out ciat_cr_fload) ciat_load1) ciat_load

abbrev pub counting : ℕ
counting = bit_or (bit_or (bit_or ciat_cr_start ciat_phi2in) ciat_count2) ciat_count3

pub passing-encode :
    (f : Flags) → any_of passing (encode f) ≡ (f.out || (f.cr_fload || (f.load1 || f.load)))
unfolding all_bools agree encode
passing-encode =
    bools_agree (λ f. any_of passing (encode f)) (λ f. f.out || (f.cr_fload || (f.load1 || f.load)))
      refl

pub counting-encode :
    (f : Flags) → all_of counting (encode f) ≡ (f.cr_start && (f.phi2in && (f.count2 && f.count3)))
unfolding all_bools agree encode
counting-encode =
    bools_agree (λ f. all_of counting (encode f))
      (λ f. f.cr_start && (f.phi2in && (f.count2 && f.count3))) refl
