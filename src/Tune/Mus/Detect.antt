-- ===== src/Tune/Mus/Detect.antt =====
-- src/sidtune/MUS.cpp: `detect` stays inside the file.
use libsidplayfp.Base.{
  ℕ, ◌+◌, ◌-◌, ◌<◌, ◌≤◌, ◌≡◌, ◌∙◌, refl, ap, true≢false, sym, Bool, true, false, Option, none, some,
  List, length, get_or, arith, if◌then◌else◌, ltb, ◌==◌, Bool-cases, ◌⊎◌, inl, inr,
}
use libsidplayfp.Endian.{read_big16, read_little16}
use libsidplayfp.Tune.Mus.{hlt_cmd, halts_at, length_at, all_halt, detect_voices, detect}
use libsidplayfp.Tune.Result.{loaded, read_at-lt}

-- The little-endian and the big-endian word at an index
abbrev little_at : List ℕ → ℕ → ℕ
little_at buf i = read_little16 (get_or buf i 0) (get_or buf (i + 1) 0)

abbrev ends_with_hlt : List ℕ → ℕ → Bool
ends_with_hlt buf i = read_big16 (get_or buf (i - 2) 0) (get_or buf (i - 1) 0) == hlt_cmd

length_at-lt :
    (buf : List ℕ) (i : ℕ) → i + 1 < length buf → length_at buf i ≡ loaded (little_at buf i)
unfolding length_at
length_at-lt buf i h = rw (read_at-lt buf i (omega arith)) (rw (read_at-lt buf (i + 1) h) refl)

halts_at-le :
    (buf : List ℕ) (i : ℕ) → 2 ≤ i → i ≤ length buf → halts_at buf i ≡ loaded (ends_with_hlt buf i)
unfolding halts_at
halts_at-le buf i h k =
    rw (read_at-lt buf (i - 2) (omega arith)) (rw (read_at-lt buf (i - 1) (omega arith)) refl)

all_halt-le :
    (buf : List ℕ) (a b c : ℕ)
    → 2 ≤ a
    → a ≤ b
    → b ≤ c
    → c ≤ length buf
    → all_halt buf a b c
      ≡ loaded (
          if ends_with_hlt buf a
          then if ends_with_hlt buf b then ends_with_hlt buf c else false
          else false)
unfolding all_halt
all_halt-le buf a b c h k l m =
    ground (arith, halts_at-le buf a, halts_at-le buf b, halts_at-le buf c)

-- Where the voices of a file end
abbrev pub voice1_end : List ℕ → ℕ
voice1_end buf = 8 + little_at buf 2

abbrev pub voice2_end : List ℕ → ℕ
voice2_end buf = voice1_end buf + little_at buf 4

abbrev pub voice3_end : List ℕ → ℕ
voice3_end buf = voice2_end buf + little_at buf 6

abbrev pub IsMus : List ℕ → Type 0
IsMus buf =
    (8 ≤ length buf)
    × (voice3_end buf ≤ length buf)
    × (ends_with_hlt buf (voice1_end buf) ≡ true)
    × (ends_with_hlt buf (voice2_end buf) ≡ true)
    × (ends_with_hlt buf (voice3_end buf) ≡ true)

detect_short : (buf : List ℕ) → length buf < 8 → detect buf ≡ loaded none
unfolding detect
detect_short buf h = ground arith

-- What `detect` gives for a file of at least 8 bytes
found : List ℕ → Option ℕ
found buf =
    if ltb (length buf) (voice3_end buf)
    then none
    else if (if ends_with_hlt buf (voice1_end buf)
        then if ends_with_hlt buf (voice2_end buf)
          then ends_with_hlt buf (voice3_end buf)
          else false
        else false)
    then some (voice3_end buf)
    else none

detect_long : (buf : List ℕ) → 8 ≤ length buf → detect buf ≡ loaded (found buf)
unfolding detect detect_voices found
detect_long buf h = ground (
  arith,
  length_at-lt buf 2,
  length_at-lt buf 4,
  length_at-lt buf 6,
  all_halt-le buf (voice1_end buf) (voice2_end buf) (voice3_end buf),
)

abbrev pick : (len e : ℕ) (a b c : Bool) → Option ℕ
pick len e a b c =
    if ltb len e
    then none
    else if (if a then if b then c else false else false)
    then some e
    else none

abbrev Picks : (len e : ℕ) (a b c : Bool) → Type 0
Picks len e a b c = (8 ≤ len) × (e ≤ len) × (a ≡ true) × (b ≡ true) × (c ≡ true)

not_picked :
    (len e : ℕ) (a b c : Bool)
    → (if a then if b then c else false else false) ≡ false
    → pick len e a b c ≡ none
not_picked len e a b c h = ground arith

pick_lem :
    (len e : ℕ) (a b c : Bool)
    → 8 ≤ len
    → ((pick len e a b c ≡ some e) × Picks len e a b c)
      ⊎ ((pick len e a b c ≡ none) × (Picks len e a b c → ⊥))
pick_lem len e true true true h = elim (Bool-cases (ltb len e)) [
  | inl out ↦ inr (ground arith, λ p. ground arith)
  | inr inside ↦ inl (ground arith, ground arith)
]
pick_lem len e true true false h =
    inr (not_picked len e true true false refl, λ p. true≢false (sym p.4))
pick_lem len e true false c h = inr (not_picked len e true false c refl, λ p. true≢false (sym p.3))
pick_lem len e false b c h = inr (not_picked len e false b c refl, λ p. true≢false (sym p.2))

found_lem :
    (buf : List ℕ)
    → 8 ≤ length buf
    → ((found buf ≡ some (voice3_end buf)) × IsMus buf) ⊎ ((found buf ≡ none) × (IsMus buf → ⊥))
unfolding found
found_lem buf h =
    pick_lem (length buf) (voice3_end buf) (ends_with_hlt buf (voice1_end buf))
      (ends_with_hlt buf (voice2_end buf)) (ends_with_hlt buf (voice3_end buf)) h

at_least : (buf : List ℕ) → ltb (length buf) 8 ≡ false → 8 ≤ length buf
at_least buf e = ground arith

below : (buf : List ℕ) → ltb (length buf) 8 ≡ true → length buf < 8
below buf e = ground arith

-- `detect` never reads outside the file: it finds the end of voice 3 exactly in the files whose three
-- voices fit into them and each end with HLT, and nothing in all others.
pub detect_lem :
    (buf : List ℕ)
    → ((detect buf ≡ loaded (some (voice3_end buf))) × IsMus buf)
      ⊎ ((detect buf ≡ loaded none) × (IsMus buf → ⊥))
detect_lem buf = elim (Bool-cases (ltb (length buf) 8)) [
  | inl short ↦ inr (detect_short buf (below buf short), λ m. omega (arith, below buf short))
  | inr long ↦
      let same = detect_long buf (at_least buf long) in
      elim (found_lem buf (at_least buf long)) [
        | inl (e, m) ↦ inl (same ∙ ap loaded e, m)
        | inr (e, m) ↦ inr (same ∙ ap loaded e, m)
      ]
]
