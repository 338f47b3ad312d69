-- ===== src/Mixer.antt =====
-- src/simpleMixer.h and simpleMixer.cpp. A buffer is a function on the number of the sample. The
-- halves and quotients that the stereo mixers compute with doubles are exact for such values, so the
-- model has them in integers. `none` is an overflow of a signed product or a failed assertion.
pub mod Exact
pub mod Levels
mod Tests
use libsidplayfp.Base.{
  ℕ, zero, suc, ◌+◌, ◌-◌, ◌*◌, ◌^◌, Bool, true, false, ◌&&◌, Option, none, some, List, [], ◌∷◌,
  ◌++◌, map, leb, if◌then◌else◌,
}
use libsidplayfp.Base.Int.{ℤ, pos, negsuc, pos_part, neg_part, ◌+ℤ◌, scale, quotient}

-- `SCALE` for 1, 2 and 3 chips: 2 ^ 16 over the square root of the number, rounded down
abbrev pub scale_1 : ℕ
scale_1 = 65536

abbrev pub scale_2 : ℕ
scale_2 = 46340

abbrev pub scale_3 : ℕ
scale_3 = 37837

-- The functions that `m_mix` points to
pub data MixerFunc : Type 0 where
  mono_one : MixerFunc
  mono_two : MixerFunc
  mono_three : MixerFunc
  stereo_one_chip : MixerFunc
  stereo_ch1_two_chips : MixerFunc
  stereo_ch2_two_chips : MixerFunc
  stereo_ch1_three_chips : MixerFunc
  stereo_ch2_three_chips : MixerFunc

-- A product of two `int_least32_t`, unless it overflows
unfoldable pub mul_32 : ℤ → ℕ → Option ℤ
mul_32 z k =
    let product = scale z k in
    if leb (pos_part product) (2 ^ 31 - 1) && leb (neg_part product) (2 ^ 31)
    then some product
    else none

-- The end of `mono`, for the sum of the samples
unfoldable pub mono_sum : ℤ → (factor : ℕ) → Option ℤ
unfolding mul_32
mono_sum sum factor = elim (mul_32 sum factor) [
  | none ↦ none
  | some product ↦ some (quotient product 65536)
]

abbrev twice : ℤ → ℤ
unfolding ◌+ℤ◌
twice a = a +ℤ a

-- A mixer function on the samples of the chips
unfoldable pub mix : MixerFunc → (s0 s1 s2 : ℤ) → Option ℤ
unfolding mono_sum twice ◌+ℤ◌
mix mono_one s0 s1 s2 = mono_sum s0 scale_1
mix mono_two s0 s1 s2 = mono_sum (s0 +ℤ s1) scale_2
mix mono_three s0 s1 s2 = mono_sum (s0 +ℤ s1 +ℤ s2) scale_3
mix stereo_one_chip s0 s1 s2 = some s0
mix stereo_ch1_two_chips s0 s1 s2 = some (quotient (scale (twice s0 +ℤ s1) scale_2) 131072)
mix stereo_ch2_two_chips s0 s1 s2 = some (quotient (scale (s0 +ℤ twice s1) scale_2) 131072)
mix stereo_ch1_three_chips s0 s1 s2 =
    some (quotient (scale (twice s0 +ℤ twice s1 +ℤ s2) scale_3) 131072)
mix stereo_ch2_three_chips s0 s1 s2 =
    some (quotient (scale (s0 +ℤ twice s1 +ℤ twice s2) scale_3) 131072)

-- The constructor's list of functions
unfoldable pub simple_mixer : (stereo : Bool) (chips : ℕ) → List MixerFunc
simple_mixer true (suc zero) = stereo_one_chip ∷ stereo_one_chip ∷ []
simple_mixer false (suc zero) = mono_one ∷ []
simple_mixer true (suc (suc zero)) = stereo_ch1_two_chips ∷ stereo_ch2_two_chips ∷ []
simple_mixer false (suc (suc zero)) = mono_two ∷ []
simple_mixer true (suc (suc (suc zero))) = stereo_ch1_three_chips ∷ stereo_ch2_three_chips ∷ []
simple_mixer false (suc (suc (suc zero))) = mono_three ∷ []
simple_mixer stereo other = []

-- The assertion that the result fits a `short`
unfoldable pub to_short : Option ℤ → Option ℤ
to_short none = none
to_short (some z) = if leb (neg_part z) 32768 && leb (pos_part z) 32767 then some z else none

abbrev append_sample : Option ℤ → Option (List ℤ) → Option (List ℤ)
append_sample none rest = none
append_sample (some z) none = none
append_sample (some z) (some rest) = some (z ∷ rest)

-- The inner loop of `doMix`, over `m_mix`
unfoldable pub mix_all : List MixerFunc → (s0 s1 s2 : ℤ) → Option (List ℤ) → Option (List ℤ)
unfolding mix to_short
mix_all [] s0 s1 s2 rest = rest
mix_all (f ∷ fs) s0 s1 s2 rest =
    append_sample (to_short (mix f s0 s1 s2)) (mix_all fs s0 s1 s2 rest)

-- `doMix`, for the samples from `i` on; the buffers of chips that are not there are not used.
unfoldable pub do_mix : List MixerFunc → (b0 b1 b2 : ℕ → ℤ) → (samples i : ℕ) → Option (List ℤ)
unfolding mix_all
do_mix fs b0 b1 b2 zero i = some []
do_mix fs b0 b1 b2 (suc samples) i =
    mix_all fs (b0 i) (b1 i) (b2 i) (do_mix fs b0 b1 b2 samples (i + 1))
