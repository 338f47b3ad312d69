-- ===== src/Mixer/Tests.antt =====
-- Samples for the mixer.
use libsidplayfp.Base.{ℕ, List, ◌<◌, ◌≡◌, refl, true, false, none, some, arith}
use libsidplayfp.Base.Int.{ℤ, pos, negsuc, pos_part, scale, quotient, ◌+ℤ◌}
use libsidplayfp.Mixer.{simple_mixer, do_mix, mix, mono_sum, mul_32, mono_two, stereo_ch1_two_chips}
use libsidplayfp.Mixer.Levels.{AreLevels, do_mix_lem, do_mix-loud}

abbrev loud : ℕ → ℤ
loud i = pos 32767

abbrev up : ℕ → ℤ
up i = pos 18000

abbrev down : ℕ → ℤ
down i = negsuc 17999

do_mix_lem_example :
    (out : List ℤ) × (do_mix (simple_mixer true 3) up up down 4 0 ≡ some out)
    × AreLevels (simple_mixer true 3) up up down 4 0 out
do_mix_lem_example =
    do_mix_lem (simple_mixer true 3) up up down 4 0 (λ j. (omega arith, omega arith, omega arith))

do_mix-loud_example :
    (mix mono_two (loud 0) (loud 0) (up 0) ≡ none)
    × ((level : ℤ) × (mix stereo_ch1_two_chips (loud 0) (loud 0) (up 0) ≡ some level)
        × (32767 < pos_part level))
    × (do_mix (simple_mixer false 2) loud loud up 1 0 ≡ none)
do_mix-loud_example =
    do_mix-loud false loud loud up 0 0 32767 32767 refl refl (omega arith) (omega arith)

-- Two chips at 18918 in mono
quiet_mono : mix mono_two (pos 18918) (pos 18918) (pos 0) ≡ some (pos 26753)
unfolding mix mono_sum mul_32 scale quotient ◌+ℤ◌
quiet_mono = refl
