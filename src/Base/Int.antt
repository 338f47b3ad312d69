-- ===== src/Base/Int.antt =====
-- Integers over the native numbers, for the signed samples of the mixer.
use Prim.Native.Nat.{ℕ, suc, ◌+◌, ◌-◌, ◌*◌, ◌/◌, ◌≤◌}
use native.Mathlib.Omega.{arith}
use libsidplayfp.Base.Tests.{leb, if◌then◌else◌}

-- `negsuc n` is -(n + 1).
pub data ℤ : Type 0 where
  pos : ℕ → ℤ
  negsuc : ℕ → ℤ

abbrev pub pos_part : ℤ → ℕ
pos_part (pos n) = n
pos_part (negsuc n) = 0

abbrev pub neg_part : ℤ → ℕ
neg_part (pos n) = 0
neg_part (negsuc n) = suc n

-- a - b, as an integer
abbrev pub sub_ℕ : ℕ → ℕ → ℤ
sub_ℕ a b = if leb b a then pos (a - b) else negsuc (b - a - 1)

infixl 65 ◌+ℤ◌
unfoldable pub ◌+ℤ◌ : ℤ → ℤ → ℤ
a +ℤ b = sub_ℕ (pos_part a + pos_part b) (neg_part a + neg_part b)

-- `z * k` and `z / k` of the C++ for a positive `k`: the quotient is rounded to zero.
unfoldable pub scale : ℤ → ℕ → ℤ
scale z k = sub_ℕ (pos_part z * k) (neg_part z * k)

unfoldable pub quotient : ℤ → ℕ → ℤ
quotient z k = sub_ℕ (pos_part z / k) (neg_part z / k)

-- Integers between `-low` and `high`
abbrev pub Between : (low high : ℕ) → ℤ → Type 0
Between low high z = (neg_part z ≤ low) × (pos_part z ≤ high)

pub +ℤ-Between :
    (a b : ℤ) {l h m k : ℕ} → Between l h a → Between m k b → Between (l + m) (h + k) (a +ℤ b)
unfolding ◌+ℤ◌
+ℤ-Between a b p q = ground arith
