-- ===== src/Tune/Mus/Credits.antt =====
-- src/sidtune/MUS.cpp: the loops over the lines of text end.
use libsidplayfp.Base.{
  ℕ, zero, suc, ◌<◌, ◌≤◌, ◌≡◌, refl, ◌∙◌, eq→==, false, ◌||◌, some, List, [], ◌∷◌, ◌++◌, length,
  arith, ◌==◌, Bool-cases, inl, inr,
}
use libsidplayfp.Tune.Mus.{credits}
use libsidplayfp.Tune.Petscii.{petscii_to_ascii, petscii_loop, put_char, deref}

petscii_loop_shrinks : (p s : List ℕ) → length (petscii_loop p s).1 ≤ length p
unfolding petscii_loop
petscii_loop_shrinks [] s = omega arith
petscii_loop_shrinks (c ∷ rest) s = elim (Bool-cases (c == 0x00 || c == 0x0d)) [
  | inl ends ↦ rw ends (omega arith)
  | inr goes ↦ rw goes (omega (arith, petscii_loop_shrinks rest (put_char c s)))
]

petscii_to_ascii_shrinks :
    (c : ℕ) (rest : List ℕ) → length (petscii_to_ascii (c ∷ rest)).1 ≤ length rest
unfolding petscii_to_ascii petscii_loop
petscii_to_ascii_shrinks c rest = elim (Bool-cases (c == 0x00 || c == 0x0d)) [
  | inl ends ↦ rw ends (omega arith)
  | inr goes ↦ rw goes (petscii_loop_shrinks rest (put_char c []))
]

credits_end :
    (fuel : ℕ) (p : List ℕ) (lines : List (List ℕ))
    → deref p ≡ 0
    → credits (suc fuel) p lines ≡ some (lines, p)
unfolding credits
credits_end fuel p lines e = rw (eq→== (deref p) 0 e) refl

credits_step :
    (fuel c : ℕ) (rest : List ℕ) (lines : List (List ℕ))
    → (c == 0) ≡ false
    → credits (suc fuel) (c ∷ rest) lines
      ≡ credits fuel (petscii_to_ascii (c ∷ rest)).1 (lines ++ (petscii_to_ascii (c ∷ rest)).0 ∷ [])
unfolding credits deref
credits_step fuel c rest lines e = rw e refl

-- The loop over the credits ends for every text, with fuel for one line more than its bytes, and
-- leaves the pointer at a zero byte or at the end of the text.
pub credits_lem :
    (fuel : ℕ) (p : List ℕ) (lines : List (List ℕ))
    → length p < fuel
    → (r : List (List ℕ) × List ℕ) × (credits fuel p lines ≡ some r) × (deref r.1 ≡ 0)
unfolding deref
credits_lem zero p lines h = absurd (omega arith)
credits_lem (suc fuel) [] lines h = ((lines, []), credits_end fuel [] lines refl, refl)
credits_lem (suc fuel) (c ∷ rest) lines h = elim (Bool-cases (c == 0)) [
  | inl ends ↦ ((lines, c ∷ rest), credits_end fuel (c ∷ rest) lines (ground arith), ground arith)
  | inr goes ↦
      let next = petscii_to_ascii (c ∷ rest) in
      let (r, e, z) =
        credits_lem fuel next.1 (lines ++ next.0 ∷ [])
          (omega (arith, petscii_to_ascii_shrinks c rest)) in
      (r, credits_step fuel c rest lines goes ∙ e, z)
]
