-- ===== src/Base/Bytes.antt =====
-- Lists of bytes, for the data of tests.
use Prim.Native.Nat.{ℕ, zero, suc, ◌<◌}
use mathlib.Core.Path.{◌≡◌}
use mathlib.Core.Bool.{Bool, true, ◌&&◌}
use mathlib.Core.List.{List, [], ◌∷◌}
use native.Mathlib.Omega.{arith}
use libsidplayfp.Base.Tests.{ltb}
use libsidplayfp.Base.Lists.{get_or}
use libsidplayfp.Base.Checks.{and_both}

abbrev pub are_bytes : List ℕ → Bool
are_bytes [] = true
are_bytes (c ∷ s) = ltb c 256 && are_bytes s

-- What is read from a list of bytes, or behind it, is a byte.
pub get_or-lt : (s : List ℕ) → are_bytes s ≡ true → (i : ℕ) → get_or s i 0 < 256
get_or-lt [] h i = omega arith
get_or-lt (c ∷ s) h zero = ground arith
get_or-lt (c ∷ s) h (suc i) = get_or-lt s (and_both (ltb c 256) (are_bytes s) h).1 i
