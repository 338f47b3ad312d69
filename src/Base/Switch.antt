-- ===== src/Base/Switch.antt =====
-- The `switch` of the C++ as a list of cases, and the array write of a register file.
use Prim.Native.Nat.{ℕ}
use mathlib.Core.Path.{◌≡◌, refl, sym, subst}
use mathlib.Core.Logic.{◌≢◌}
use mathlib.Core.Bool.{true, false}
use mathlib.Core.List.{List, [], ◌∷◌}
use native.Mathlib.Omega.{arith}
use libsidplayfp.Base.Tests.{◌==◌, if◌then◌else◌, ==_iff}

unfoldable pub put_at : (ℕ → ℕ) → ℕ → ℕ → ℕ → ℕ
put_at xs i v j = if j == i then v else xs j

-- `switch` over the cases of a list, with the default last
abbrev pub switch {ℓ} : {A : Type ℓ} → ℕ → List (ℕ × A) → A → A
switch n [] otherwise = otherwise
switch n ((k, a) ∷ cases) otherwise = if n == k then a else switch n cases otherwise

-- What holds of the case that `switch` takes
abbrev pub Each : {A : Type 0} → (ℕ → A → Type 0) → List (ℕ × A) → Type 0
Each P [] = Unit
Each P ((k, a) ∷ cases) = P k a × Each P cases

abbrev pub NoCase : {A : Type 0} → ℕ → List (ℕ × A) → Type 0
NoCase n [] = Unit
NoCase n ((k, a) ∷ cases) = (n ≢ k) × NoCase n cases

pub switch_lem :
    {A : Type 0} (P : A → Type 0) (n : ℕ) (cases : List (ℕ × A)) (otherwise : A)
    → Each (λ k a. n ≡ k → P a) cases
    → (NoCase n cases → P otherwise)
    → P (switch n cases otherwise)
switch_lem P n [] otherwise each rest = rest tt
switch_lem P n ((k, a) ∷ cases) otherwise each rest =
    elim (n == k) as (λ b. (n == k) ≡ b → P (if b then a else switch n cases otherwise)) [
      | true ↦ λ e. each.0 ((==_iff n k).0 e)
      | false ↦ λ e. switch_lem P n cases otherwise each.1 (λ none. rest (ground arith, none))
    ]
      refl

pub Each-at :
    {A : Type 0} (P : ℕ → A → Type 0) (n : ℕ) (cases : List (ℕ × A))
    → Each P cases
    → Each (λ k a. n ≡ k → P n a) cases
Each-at P n [] each = tt
Each-at P n ((k, a) ∷ cases) each =
    (λ same. subst (λ (i : ℕ). P i a) (sym same) each.0, Each-at P n cases each.1)
