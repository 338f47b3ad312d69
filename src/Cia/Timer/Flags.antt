-- ===== src/Cia/Timer/Flags.antt =====
-- The state bits of src/c64/CIA/timer.h one by one: the reference description of the state machine.
use libsidplayfp.Base.{ℕ, ◌+◌, ◌*◌, ◌≡◌, Bool, true, false, ◌&&◌, ◌||◌, to_ℕ, arith}

pub record Flags : Type 0 where
  pub cr_start : Bool
  pub step : Bool
  pub cr_oneshot : Bool
  pub cr_fload : Bool
  pub phi2in : Bool
  pub count2 : Bool
  pub count3 : Bool
  pub oneshot0 : Bool
  pub oneshot : Bool
  pub load1 : Bool
  pub load : Bool
  pub out : Bool

-- The bit pattern of a set of flags.
unfoldable pub encode : Flags → ℕ
encode f =
    to_ℕ f.cr_start
    + to_ℕ f.step * 0x04
    + to_ℕ f.cr_oneshot * 0x08
    + to_ℕ f.cr_fload * 0x10
    + to_ℕ f.phi2in * 0x20
    + to_ℕ f.count2 * 0x100
    + to_ℕ f.count3 * 0x200
    + to_ℕ f.oneshot0 * 0x800
    + to_ℕ f.oneshot * 0x80000
    + to_ℕ f.load1 * 0x1000
    + to_ℕ f.load * 0x100000
    + to_ℕ f.out * 0x80000000

-- One step of the shift registers: counting is taken over with one clock of delay, a forced load
-- and the one-shot bit with two.
abbrev pub shift : Flags → Flags
shift f = record {
  cr_start = f.cr_start;
  step = false;
  cr_oneshot = f.cr_oneshot;
  cr_fload = false;
  phi2in = f.phi2in;
  count2 = f.cr_start && f.phi2in;
  count3 = f.count2 || (f.step && f.cr_start);
  oneshot0 = f.cr_oneshot;
  oneshot = f.oneshot0;
  load1 = f.cr_fload;
  load = f.load1;
  out = false;
}

-- A Boolean property of all flags, checked by evaluation.
unfoldable pub all_bools : (Bool → Bool) → Bool
all_bools p = p true && p false

all_bools_sound : (p : Bool → Bool) → all_bools p ≡ true → (b : Bool) → p b ≡ true
unfolding all_bools
all_bools_sound p h true = ground arith
all_bools_sound p h false = ground arith

abbrev pub flags : (a b c d e f g h i j k l : Bool) → Flags
flags a b c d e f g h i j k l = record {
  cr_start = a;
  step = b;
  cr_oneshot = c;
  cr_fload = d;
  phi2in = e;
  count2 = f;
  count3 = g;
  oneshot0 = h;
  oneshot = i;
  load1 = j;
  load = k;
  out = l;
}

abbrev pub all_flags : (Flags → Bool) → Bool
all_flags p = all_bools λ a. all_bools λ b. all_bools λ c. all_bools λ d. all_bools λ e.
    all_bools λ f. all_bools λ g. all_bools λ h.
      all_bools λ i. all_bools λ j. all_bools λ k. all_bools λ l. p (flags a b c d e f g h i j k l)

pub all_flags_sound : (p : Flags → Bool) → all_flags p ≡ true → (f : Flags) → p f ≡ true
all_flags_sound p h r =
    let s = all_bools_sound in
    s _
      (s _
        (s _
          (s _
            (s _
              (s _
                (s _
                  (s _ (s _ (s _ (s _ (s _ h r.cr_start) r.step) r.cr_oneshot) r.cr_fload) r.phi2in)
                  r.count2)
                r.count3)
              r.oneshot0)
            r.oneshot)
          r.load1)
        r.load)
      r.out
