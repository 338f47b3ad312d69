-- ===== src/Mixer/Exact.antt =====
-- The levels of src/simpleMixer.h in whole numbers: what it means that a level is the weighted sum of
-- the samples over the square root of the number of chips, rounded to zero with an error below 2.
use native.Mathlib.Nat.{mul-le-mul}
use libsidplayfp.Base.{ℕ, ◌+◌, ◌*◌, ◌/◌, ◌<◌, ◌≤◌, ◌≡◌, arith, subst, sym, ◌∙◌}
use libsidplayfp.Base.Int.{ℤ, pos_part, neg_part, scale, quotient}

-- `size` is at most `halves / (2 * √chips)`, and less than 2 below it.
abbrev pub IsNear : (chips halves size : ℕ) → Type 0
IsNear chips halves size =
    (4 * chips * (size * size) ≤ halves * halves)
    × (halves * halves < 4 * chips * ((size + 2) * (size + 2)))

-- A level for a sum in halves: it has the sign of the sum, and its size is near.
abbrev pub IsLevel : (chips : ℕ) → (halves level : ℤ) → Type 0
IsLevel chips halves level =
    IsNear chips (pos_part halves) (pos_part level)
    × IsNear chips (neg_part halves) (neg_part level)

pub one_chip-IsNear : (w : ℕ) → w < 131072 → IsNear 1 w (w * 65536 / 131072)
one_chip-IsNear w h =
    let z = w * 65536 / 131072 in
    let low : z * 131072 ≤ w * 65536 = omega arith in
    let high : w * 65537 + 1 ≤ (z + 2) * 131072 = omega arith in
    (omega (arith, mul-le-mul low low), omega (arith, mul-le-mul high high))

pub two_chips-IsNear : (w : ℕ) → w < 131072 → IsNear 2 w (w * 46340 / 131072)
two_chips-IsNear w h =
    let z = w * 46340 / 131072 in
    let low : z * 131072 ≤ w * 46340 = omega arith in
    let high : w * 46341 + 1 ≤ (z + 2) * 131072 = omega arith in
    (omega (arith, mul-le-mul low low), omega (arith, mul-le-mul high high))

pub three_chips-IsNear : (w : ℕ) → w < 131072 → IsNear 3 w (w * 37837 / 131072)
three_chips-IsNear w h =
    let z = w * 37837 / 131072 in
    let low : z * 131072 ≤ w * 37837 = omega arith in
    let high : w * 37838 + 1 ≤ (z + 2) * 131072 = omega arith in
    (omega (arith, mul-le-mul low low), omega (arith, mul-le-mul high high))

pub doubled-IsNear : (n : ℕ) → IsNear 1 (n * 2) n
doubled-IsNear n = (omega arith, omega arith)

-- The parts of a scaled sum, of halves and of wholes
quotient_parts :
    (s : ℤ) (k : ℕ)
    → (pos_part (quotient (scale s k) 131072) ≡ pos_part s * k / 131072)
      × (neg_part (quotient (scale s k) 131072) ≡ neg_part s * k / 131072)
      × (pos_part (quotient (scale s k) 65536) ≡ pos_part s * k / 65536)
      × (neg_part (quotient (scale s k) 65536) ≡ neg_part s * k / 65536)
unfolding quotient scale
quotient_parts s k = ground arith

module _ (chips k : ℕ) (near : (w : ℕ) → w < 131072 → IsNear chips w (w * k / 131072)) where
  -- A sum in halves, and the half of it, are scaled to the same level.
  pub halves-IsLevel :
      (w : ℤ)
      → pos_part w < 131072
      → neg_part w < 131072
      → IsLevel chips w (quotient (scale w k) 131072)
  halves-IsLevel w p n =
      let parts = quotient_parts w k in
      (
        subst (IsNear chips (pos_part w)) (sym parts.0) (near (pos_part w) p),
        subst (IsNear chips (neg_part w)) (sym parts.1) (near (neg_part w) n),
      )

  pub wholes-IsLevel :
      (s w : ℤ)
      → pos_part w ≡ pos_part s * 2
      → neg_part w ≡ neg_part s * 2
      → pos_part w < 131072
      → neg_part w < 131072
      → IsLevel chips w (quotient (scale s k) 65536)
  wholes-IsLevel s w twice_pos twice_neg p n =
      let parts = quotient_parts s k in
      (
        subst (IsNear chips (pos_part w)) (cut (pos_part w) (pos_part s) twice_pos ∙ sym parts.2)
            (near (pos_part w) p),
        subst (IsNear chips (neg_part w)) (cut (neg_part w) (neg_part s) twice_neg ∙ sym parts.3)
            (near (neg_part w) n),
      )
    where
      cut : (a b : ℕ) → a ≡ b * 2 → a * k / 131072 ≡ b * k / 65536
      cut a b e = rw e (omega arith)
