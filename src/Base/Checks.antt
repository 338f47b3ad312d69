-- ===== src/Base/Checks.antt =====
-- Statements over a small range, checked at every value by evaluation.
use Prim.Native.Nat.{ℕ, zero, suc, ◌<◌}
use mathlib.Core.Path.{◌≡◌, refl, sym}
use mathlib.Core.Bool.{Bool, true, false, true≢false, ◌&&◌}
use native.Mathlib.Omega.{arith}

unfoldable pub all_below : ℕ → (ℕ → Bool) → Bool
all_below zero holds = true
all_below (suc bound) holds = holds bound && all_below bound holds

pub all_below_sound :
    (bound : ℕ) (holds : ℕ → Bool) (k : ℕ)
    → all_below bound holds ≡ true
    → k < bound
    → holds k ≡ true
unfolding all_below
all_below_sound zero holds k swept below = absurd (omega arith)
all_below_sound (suc bound) holds k swept below = ground (arith, all_below_sound bound holds k)

-- A statement on three numbers, each below its own bound.
pub all_below_3 :
    (k m n : ℕ) (p : ℕ → ℕ → ℕ → Bool) (x y z : ℕ)
    → all_below k (λ a. all_below m (λ b. all_below n (p a b))) ≡ true
    → x < k
    → y < m
    → z < n
    → p x y z ≡ true
all_below_3 k m n p x y z h hx hy hz =
    all_below_sound n (p x y) z
      (all_below_sound m (λ b. all_below n (p x b)) y
        (all_below_sound k (λ a. all_below m (λ b. all_below n (p a b))) x h hx) hy)
      hz

pub and_both : (a b : Bool) → (a && b) ≡ true → (a ≡ true) × (b ≡ true)
and_both true true h = (refl, refl)
and_both true false h = absurd (true≢false (sym h))
and_both false b h = absurd (true≢false (sym h))
