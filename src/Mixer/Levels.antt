-- ===== src/Mixer/Levels.antt =====
-- src/simpleMixer.h: which levels the mixer can take.
use libsidplayfp.Base.{
  ℕ, zero, suc, ◌+◌, ◌*◌, ◌<◌, ◌≤◌, ◌≡◌, refl, sym, subst, ap, ◌∙◌, Bool, true, false, Option, none,
  some, List, [], ◌∷◌, arith,
}
use libsidplayfp.Base.Int.{ℤ, pos, pos_part, neg_part, ◌+ℤ◌, scale, quotient, Between, +ℤ-Between}
use libsidplayfp.Mixer.Exact.{
  IsLevel, IsNear, doubled-IsNear, one_chip-IsNear, two_chips-IsNear, three_chips-IsNear,
  halves-IsLevel, wholes-IsLevel,
}
use libsidplayfp.Mixer.{
  MixerFunc, mono_one, mono_two, mono_three, stereo_one_chip, stereo_ch1_two_chips,
  stereo_ch2_two_chips, stereo_ch1_three_chips, stereo_ch2_three_chips, mix, mono_sum, mul_32,
  simple_mixer, to_short, mix_all, do_mix, twice,
}

-- The level up to which no number of chips is too loud
abbrev pub quiet : ℕ
quiet = 18918

abbrev pub IsQuiet : ℤ → Type 0
IsQuiet z = Between quiet quiet z

mono_one_fits :
    (z : ℤ)
    → Between 18918 18918 z
    → to_short (mono_sum z 65536) ≡ some (quotient (scale z 65536) 65536)
unfolding mono_sum mul_32 scale quotient to_short
mono_one_fits z h = ground arith

mono_two_fits :
    (z : ℤ)
    → Between 37836 37836 z
    → to_short (mono_sum z 46340) ≡ some (quotient (scale z 46340) 65536)
unfolding mono_sum mul_32 scale quotient to_short
mono_two_fits z h = ground arith

mono_three_fits :
    (z : ℤ)
    → Between 56754 56754 z
    → to_short (mono_sum z 37837) ≡ some (quotient (scale z 37837) 65536)
unfolding mono_sum mul_32 scale quotient to_short
mono_three_fits z h = ground arith

stereo_two_fits :
    (z : ℤ)
    → Between 56754 56754 z
    → to_short (some (quotient (scale z 46340) 131072)) ≡ some (quotient (scale z 46340) 131072)
unfolding scale quotient to_short
stereo_two_fits z h = ground arith

stereo_three_fits :
    (z : ℤ)
    → Between 94590 94590 z
    → to_short (some (quotient (scale z 37837) 131072)) ≡ some (quotient (scale z 37837) 131072)
unfolding scale quotient to_short
stereo_three_fits z h = ground arith

one_chip_fits : (z : ℤ) → Between quiet quiet z → to_short (some z) ≡ some z
unfolding to_short
one_chip_fits z h = ground arith

-- The number of chips that a function mixes, and the sum of the samples with its weights, in halves:
-- in mono each chip counts whole, in stereo the last counts half on the left, the first on the right.
abbrev pub chips_of : MixerFunc → ℕ
chips_of mono_one = 1
chips_of mono_two = 2
chips_of mono_three = 3
chips_of stereo_one_chip = 1
chips_of stereo_ch1_two_chips = 2
chips_of stereo_ch2_two_chips = 2
chips_of stereo_ch1_three_chips = 3
chips_of stereo_ch2_three_chips = 3

pub halves_of : MixerFunc → (s0 s1 s2 : ℤ) → ℤ
halves_of mono_one s0 s1 s2 = scale s0 2
halves_of mono_two s0 s1 s2 = scale s0 2 +ℤ scale s1 2
halves_of mono_three s0 s1 s2 = scale s0 2 +ℤ scale s1 2 +ℤ scale s2 2
halves_of stereo_one_chip s0 s1 s2 = scale s0 2
halves_of stereo_ch1_two_chips s0 s1 s2 = scale s0 2 +ℤ s1
halves_of stereo_ch2_two_chips s0 s1 s2 = s0 +ℤ scale s1 2
halves_of stereo_ch1_three_chips s0 s1 s2 = scale s0 2 +ℤ scale s1 2 +ℤ s2
halves_of stereo_ch2_three_chips s0 s1 s2 = s0 +ℤ scale s1 2 +ℤ scale s2 2

abbrev pub IsLevelOf : MixerFunc → (s0 s1 s2 level : ℤ) → Type 0
IsLevelOf f s0 s1 s2 level = IsLevel (chips_of f) (halves_of f s0 s1 s2) level

+ℤ-halves :
    (a b c : ℤ)
    → pos_part a ≡ pos_part b * 2
    → neg_part a ≡ neg_part b * 2
    → (pos_part (a +ℤ scale c 2) ≡ pos_part (b +ℤ c) * 2)
      × (neg_part (a +ℤ scale c 2) ≡ neg_part (b +ℤ c) * 2)
unfolding ◌+ℤ◌ scale
+ℤ-halves a b c p n = ground arith

scale-halves :
    (a : ℤ) → (pos_part (scale a 2) ≡ pos_part a * 2) × (neg_part (scale a 2) ≡ neg_part a * 2)
unfolding scale
scale-halves a = ground arith

twice-scale : (a : ℤ) → a +ℤ a ≡ scale a 2
unfolding ◌+ℤ◌ scale
twice-scale a = ground arith

scale-Between : (a : ℤ) → IsQuiet a → Between (quiet * 2) (quiet * 2) (scale a 2)
scale-Between a q = omega (arith, scale-halves a)

-- The levels of a sample, one for each function, and what is behind them
abbrev pub AreLevelsOf : List MixerFunc → (s0 s1 s2 : ℤ) → (List ℤ → Type 0) → List ℤ → Type 0
AreLevelsOf [] s0 s1 s2 P out = P out
AreLevelsOf (f ∷ fs) s0 s1 s2 P [] = ⊥
AreLevelsOf (f ∷ fs) s0 s1 s2 P (z ∷ out) = IsLevelOf f s0 s1 s2 z × AreLevelsOf fs s0 s1 s2 P out

module _ (s0 s1 s2 : ℤ) (q0 : IsQuiet s0) (q1 : IsQuiet s1) (q2 : IsQuiet s2) where
  abbrev Fits : MixerFunc → Type 0
  Fits f = (z : ℤ) × (to_short (mix f s0 s1 s2) ≡ some z) × IsLevelOf f s0 s1 s2 z

  mix-Fits : (f : MixerFunc) → Fits f
  unfolding mix halves_of twice
  mix-Fits mono_one =
      let one = scale-halves s0 in
      (
        _,
        mono_one_fits s0 q0,
        wholes-IsLevel 1 65536 one_chip-IsNear s0 _ one.0 one.1 (omega (arith, one, q0))
            (omega (arith, one, q0)),
      )
  mix-Fits mono_two =
      let two = +ℤ-Between s0 s1 q0 q1 in
      let both = +ℤ-halves (scale s0 2) s0 s1 (scale-halves s0).0 (scale-halves s0).1 in
      (
        _,
        mono_two_fits (s0 +ℤ s1) two,
        wholes-IsLevel 2 46340 two_chips-IsNear (s0 +ℤ s1) _ both.0 both.1
            (omega (arith, both, two)) (omega (arith, both, two)),
      )
  mix-Fits mono_three =
      let two = +ℤ-Between s0 s1 q0 q1 in
      let three = +ℤ-Between (s0 +ℤ s1) s2 two q2 in
      let both = +ℤ-halves (scale s0 2) s0 s1 (scale-halves s0).0 (scale-halves s0).1 in
      let all = +ℤ-halves (scale s0 2 +ℤ scale s1 2) (s0 +ℤ s1) s2 both.0 both.1 in
      (
        _,
        mono_three_fits (s0 +ℤ s1 +ℤ s2) three,
        wholes-IsLevel 3 37837 three_chips-IsNear (s0 +ℤ s1 +ℤ s2) _ all.0 all.1
            (omega (arith, all, three)) (omega (arith, all, three)),
      )
  mix-Fits stereo_one_chip =
      let one = scale-halves s0 in
      (
        s0,
        one_chip_fits s0 q0,
        (
          subst (λ (w : ℕ). IsNear 1 w (pos_part s0)) (sym one.0) (doubled-IsNear (pos_part s0)),
          subst (λ (w : ℕ). IsNear 1 w (neg_part s0)) (sym one.1) (doubled-IsNear (neg_part s0)),
        ),
      )
  mix-Fits stereo_ch1_two_chips =
      let w = +ℤ-Between (scale s0 2) s1 (scale-Between s0 q0) q1 in
      (
        _,
        rw (twice-scale s0) (stereo_two_fits _ w),
        halves-IsLevel 2 46340 two_chips-IsNear _ (omega (arith, w)) (omega (arith, w)),
      )
  mix-Fits stereo_ch2_two_chips =
      let w = +ℤ-Between s0 (scale s1 2) q0 (scale-Between s1 q1) in
      (
        _,
        rw (twice-scale s1) (stereo_two_fits _ w),
        halves-IsLevel 2 46340 two_chips-IsNear _ (omega (arith, w)) (omega (arith, w)),
      )
  mix-Fits stereo_ch1_three_chips =
      let both = +ℤ-Between (scale s0 2) (scale s1 2) (scale-Between s0 q0) (scale-Between s1 q1) in
      let w = +ℤ-Between (scale s0 2 +ℤ scale s1 2) s2 both q2 in
      (
        _,
        rw (twice-scale s0, twice-scale s1) (stereo_three_fits _ w),
        halves-IsLevel 3 37837 three_chips-IsNear _ (omega (arith, w)) (omega (arith, w)),
      )
  mix-Fits stereo_ch2_three_chips =
      let both = +ℤ-Between s0 (scale s1 2) q0 (scale-Between s1 q1) in
      let w = +ℤ-Between (s0 +ℤ scale s1 2) (scale s2 2) both (scale-Between s2 q2) in
      (
        _,
        rw (twice-scale s1, twice-scale s2) (stereo_three_fits _ w),
        halves-IsLevel 3 37837 three_chips-IsNear _ (omega (arith, w)) (omega (arith, w)),
      )

  mix_all_fits :
      (fs : List MixerFunc) (P : List ℤ → Type 0) (rest : List ℤ)
      → P rest
      → (out : List ℤ) × (mix_all fs s0 s1 s2 (some rest) ≡ some out)
        × AreLevelsOf fs s0 s1 s2 P out
  unfolding mix_all
  mix_all_fits [] P rest h = (rest, refl, h)
  mix_all_fits (f ∷ fs) P rest h =
      let (z, one, level) = mix-Fits f in
      let (out, more, levels) = mix_all_fits fs P rest h in
      (z ∷ out, rw (one, more) refl, (level, levels))

-- The levels of the samples from `i` on, those of each sample together
pub AreLevels : List MixerFunc → (b0 b1 b2 : ℕ → ℤ) → (samples i : ℕ) → List ℤ → Type 0
AreLevels fs b0 b1 b2 zero i out = out ≡ []
AreLevels fs b0 b1 b2 (suc samples) i out =
    AreLevelsOf fs (b0 i) (b1 i) (b2 i) (AreLevels fs b0 b1 b2 samples (i + 1)) out

-- While no sample of up to three chips is above 18918 or below -18918, `doMix` neither overflows nor
-- fails its assertion, and gives for each sample the level of each channel in turn. The level has the
-- sign of the weighted sum of the samples over the square root of the number of chips, is not larger
-- in size, and less than 2 smaller. Each chip has the weight 1, but in stereo with several chips the
-- last has one half on the left, and the first on the right.
pub do_mix_lem :
    (fs : List MixerFunc) (b0 b1 b2 : ℕ → ℤ) (samples i : ℕ)
    → ((j : ℕ) → IsQuiet (b0 j) × IsQuiet (b1 j) × IsQuiet (b2 j))
    → (out : List ℤ) × (do_mix fs b0 b1 b2 samples i ≡ some out)
      × AreLevels fs b0 b1 b2 samples i out
unfolding do_mix AreLevels
do_mix_lem fs b0 b1 b2 zero i q = ([], refl, refl)
do_mix_lem fs b0 b1 b2 (suc samples) i q =
    let (rest, e, levels) = do_mix_lem fs b0 b1 b2 samples (i + 1) q in
    let (out, now, all) =
      mix_all_fits (b0 i) (b1 i) (b2 i) (q i).0 (q i).1 (q i).2 fs
        (AreLevels fs b0 b1 b2 samples (i + 1)) rest levels in
    (out, rw e now, all)

loud_stereo :
    (m n : ℕ) (z : ℤ)
    → 30895 ≤ m
    → 30895 ≤ n
    → (level : ℤ) × (mix stereo_ch1_two_chips (pos m) (pos n) z ≡ some level)
      × (32767 < pos_part level)
unfolding mix scale quotient ◌+ℤ◌
loud_stereo m n z h k = (_, refl, ground arith)

loud_mono : (m n : ℕ) (z : ℤ) → 30895 ≤ m → 30895 ≤ n → mix mono_two (pos m) (pos n) z ≡ none
unfolding mix mono_sum mul_32 scale ◌+ℤ◌
loud_mono m n z h k = ground arith

not_short : (z : ℤ) → 32767 < pos_part z → to_short (some z) ≡ none
unfolding to_short
not_short z h = ground arith

too_loud :
    (stereo : Bool) (s0 s1 s2 : ℤ) (rest : Option (List ℤ))
    → mix mono_two s0 s1 s2 ≡ none
    → (level : ℤ) × (mix stereo_ch1_two_chips s0 s1 s2 ≡ some level) × (32767 < pos_part level)
    → mix_all (simple_mixer stereo 2) s0 s1 s2 rest ≡ none
unfolding mix_all simple_mixer to_short
too_loud true s0 s1 s2 rest mono (level, e, over) = rw (ap to_short e ∙ not_short level over) refl
too_loud false s0 s1 s2 rest mono loud = rw mono refl

-- With two chips that both play at 30895 or above, the product overflows in mono, in stereo the level
-- of the first channel is above the greatest `short`, and `doMix` ends with no samples either way.
pub do_mix-loud :
    (stereo : Bool) (b0 b1 b2 : ℕ → ℤ) (samples i m n : ℕ)
    → b0 i ≡ pos m
    → b1 i ≡ pos n
    → 30895 ≤ m
    → 30895 ≤ n
    → (mix mono_two (b0 i) (b1 i) (b2 i) ≡ none)
      × ((level : ℤ) × (mix stereo_ch1_two_chips (b0 i) (b1 i) (b2 i) ≡ some level)
          × (32767 < pos_part level))
      × (do_mix (simple_mixer stereo 2) b0 b1 b2 (suc samples) i ≡ none)
unfolding do_mix
do_mix-loud stereo b0 b1 b2 samples i m n e f h k =
    rw (e, f)
      (
        loud_mono m n (b2 i) h k,
        loud_stereo m n (b2 i) h k,
        too_loud stereo (pos m) (pos n) (b2 i) _ (loud_mono m n (b2 i) h k)
            (loud_stereo m n (b2 i) h k),
      )
