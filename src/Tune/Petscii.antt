-- ===== src/Tune/Petscii.antt =====
-- src/sidtune/SidTuneBase.cpp: `petsciiToAscii`, and src/sidtune/SmartPtr.h: the pointer that it reads
-- by is the list of the bytes from it to the end of its buffer.
use libsidplayfp.Base.{
  ℕ, zero, suc, ◌≤◌, ◌<◌, ◌≡◌, refl, Bool, true, false, ◌&&◌, ◌||◌, List, [], ◌∷◌, ◌++◌, length,
  length-append, get_or, if◌then◌else◌, ◌==◌, ltb, leb, arith, all_below, all_below_sound, and_both,
  leb→le, ◌⊎◌, sym, subst, Bool-cases, inl, inr,
}

-- `CHR_tab`
abbrev pub chr_tab : List ℕ
chr_tab =
    0x00 ∷ 0x01 ∷ 0x01 ∷ 0x01 ∷ 0x01 ∷ 0x01 ∷ 0x01 ∷ 0x01 ∷ 0x01 ∷ 0x01 ∷ 0x01 ∷ 0x01 ∷ 0x01 ∷ 0x0d
    ∷ 0x01 ∷ 0x01 ∷ 0x01 ∷ 0x01 ∷ 0x01 ∷ 0x01 ∷ 0x01 ∷ 0x01 ∷ 0x01 ∷ 0x01 ∷ 0x01 ∷ 0x01 ∷ 0x01
    ∷ 0x01 ∷ 0x01 ∷ 0x01 ∷ 0x01 ∷ 0x01 ∷ 0x20 ∷ 0x21 ∷ 0x01 ∷ 0x23 ∷ 0x24 ∷ 0x25 ∷ 0x26 ∷ 0x27
    ∷ 0x28 ∷ 0x29 ∷ 0x2a ∷ 0x2b ∷ 0x2c ∷ 0x2d ∷ 0x2e ∷ 0x2f ∷ 0x30 ∷ 0x31 ∷ 0x32 ∷ 0x33 ∷ 0x34
    ∷ 0x35 ∷ 0x36 ∷ 0x37 ∷ 0x38 ∷ 0x39 ∷ 0x3a ∷ 0x3b ∷ 0x3c ∷ 0x3d ∷ 0x3e ∷ 0x3f ∷ 0x40 ∷ 0x41
    ∷ 0x42 ∷ 0x43 ∷ 0x44 ∷ 0x45 ∷ 0x46 ∷ 0x47 ∷ 0x48 ∷ 0x49 ∷ 0x4a ∷ 0x4b ∷ 0x4c ∷ 0x4d ∷ 0x4e
    ∷ 0x4f ∷ 0x50 ∷ 0x51 ∷ 0x52 ∷ 0x53 ∷ 0x54 ∷ 0x55 ∷ 0x56 ∷ 0x57 ∷ 0x58 ∷ 0x59 ∷ 0x5a ∷ 0x5b
    ∷ 0x24 ∷ 0x5d ∷ 0x20 ∷ 0x20 ∷ 0x2d ∷ 0x23 ∷ 0x7c ∷ 0x2d ∷ 0x2d ∷ 0x2d ∷ 0x2d ∷ 0x7c ∷ 0x7c
    ∷ 0x5c ∷ 0x5c ∷ 0x2f ∷ 0x5c ∷ 0x5c ∷ 0x2f ∷ 0x2f ∷ 0x5c ∷ 0x23 ∷ 0x5f ∷ 0x23 ∷ 0x7c ∷ 0x2f
    ∷ 0x58 ∷ 0x4f ∷ 0x23 ∷ 0x7c ∷ 0x23 ∷ 0x2b ∷ 0x7c ∷ 0x7c ∷ 0x26 ∷ 0x5c ∷ 0x01 ∷ 0x01 ∷ 0x01
    ∷ 0x01 ∷ 0x01 ∷ 0x01 ∷ 0x01 ∷ 0x01 ∷ 0x01 ∷ 0x01 ∷ 0x01 ∷ 0x01 ∷ 0x01 ∷ 0x01 ∷ 0x01 ∷ 0x01
    ∷ 0x01 ∷ 0x01 ∷ 0x01 ∷ 0x01 ∷ 0x01 ∷ 0x01 ∷ 0x01 ∷ 0x01 ∷ 0x01 ∷ 0x01 ∷ 0x01 ∷ 0x01 ∷ 0x01
    ∷ 0x01 ∷ 0x01 ∷ 0x01 ∷ 0x20 ∷ 0x7c ∷ 0x23 ∷ 0x2d ∷ 0x2d ∷ 0x7c ∷ 0x23 ∷ 0x7c ∷ 0x23 ∷ 0x2f
    ∷ 0x7c ∷ 0x7c ∷ 0x2f ∷ 0x5c ∷ 0x5c ∷ 0x2d ∷ 0x2f ∷ 0x2d ∷ 0x2d ∷ 0x7c ∷ 0x7c ∷ 0x7c ∷ 0x7c
    ∷ 0x2d ∷ 0x2d ∷ 0x2d ∷ 0x2f ∷ 0x5c ∷ 0x5c ∷ 0x2f ∷ 0x2f ∷ 0x23 ∷ 0x2d ∷ 0x23 ∷ 0x7c ∷ 0x2d
    ∷ 0x2d ∷ 0x2d ∷ 0x2d ∷ 0x7c ∷ 0x7c ∷ 0x5c ∷ 0x5c ∷ 0x2f ∷ 0x5c ∷ 0x5c ∷ 0x2f ∷ 0x2f ∷ 0x5c
    ∷ 0x23 ∷ 0x5f ∷ 0x23 ∷ 0x7c ∷ 0x2f ∷ 0x58 ∷ 0x4f ∷ 0x23 ∷ 0x7c ∷ 0x23 ∷ 0x2b ∷ 0x7c ∷ 0x7c
    ∷ 0x26 ∷ 0x5c ∷ 0x20 ∷ 0x7c ∷ 0x23 ∷ 0x2d ∷ 0x2d ∷ 0x7c ∷ 0x23 ∷ 0x7c ∷ 0x23 ∷ 0x2f ∷ 0x7c
    ∷ 0x7c ∷ 0x2f ∷ 0x5c ∷ 0x5c ∷ 0x2d ∷ 0x2f ∷ 0x2d ∷ 0x2d ∷ 0x7c ∷ 0x7c ∷ 0x7c ∷ 0x7c ∷ 0x2d
    ∷ 0x2d ∷ 0x2d ∷ 0x2f ∷ 0x5c ∷ 0x5c ∷ 0x2f ∷ 0x2f ∷ 0x23 ∷ []

-- `*spPet`: 0 at the end of the buffer
unfoldable pub deref : List ℕ → ℕ
deref [] = 0
deref (c ∷ rest) = c

-- `spPet++`, which stays at the end
unfoldable pub increment : List ℕ → List ℕ
increment [] = []
increment (c ∷ rest) = rest

abbrev pub drop : ℕ → List ℕ → List ℕ
drop zero s = s
drop (suc n) [] = []
drop (suc n) (c ∷ s) = drop n s

-- `spPet += offset`, which stays where it is when it would leave the buffer
unfoldable pub advance : (offset : ℕ) → List ℕ → List ℕ
advance offset p = if ltb offset (length p) then drop offset p else p

-- `buffer.resize(buffer.size() - 1)`
abbrev pub drop_last : List ℕ → List ℕ
drop_last [] = []
drop_last (c ∷ []) = []
drop_last (c ∷ d ∷ s) = c ∷ drop_last (d ∷ s)

abbrev is_empty : List ℕ → Bool
is_empty [] = true
is_empty (c ∷ s) = false

-- A character that does not end the line: an arrow to the left takes the last one back.
unfoldable pub put_char : (petscii_char : ℕ) → List ℕ → List ℕ
put_char petscii_char buffer =
    if petscii_char == 0x9d && (if is_empty buffer then false else true)
    then drop_last buffer
    else let ascii_char = get_or chr_tab petscii_char 0 in
      if leb 0x20 ascii_char && leb (length buffer) 31 then buffer ++ ascii_char ∷ [] else buffer

-- The loop of `petsciiToAscii`: the line so far, and the pointer
unfoldable pub petscii_loop : List ℕ → (buffer : List ℕ) → List ℕ × List ℕ
unfolding put_char
petscii_loop [] buffer = (buffer, [])
petscii_loop (c ∷ rest) buffer =
    let line = petscii_loop rest (put_char c buffer) in
    if c == 0x00 || c == 0x0d then (buffer, rest) else line

-- `petsciiToAscii`
unfoldable pub petscii_to_ascii : List ℕ → List ℕ × List ℕ
unfolding petscii_loop
petscii_to_ascii p = petscii_loop p []

-- Characters that print
abbrev pub AllPrint : List ℕ → Type 0
AllPrint [] = Unit
AllPrint (c ∷ s) = (0x20 ≤ c) × (c < 0x7f) × AllPrint s

AllPrint-snoc : (s : List ℕ) (c : ℕ) → AllPrint s → 0x20 ≤ c → c < 0x7f → AllPrint (s ++ c ∷ [])
AllPrint-snoc [] c h least most = (least, most, tt)
AllPrint-snoc (d ∷ s) c h least most = (h.0, h.1, AllPrint-snoc s c h.2 least most)

AllPrint-drop_last : (s : List ℕ) → AllPrint s → AllPrint (drop_last s)
AllPrint-drop_last [] h = tt
AllPrint-drop_last (c ∷ []) h = tt
AllPrint-drop_last (c ∷ d ∷ s) h = (h.0, h.1, AllPrint-drop_last (d ∷ s) h.2)

length-drop_last : (s : List ℕ) → length (drop_last s) ≤ length s
length-drop_last [] = omega arith
length-drop_last (c ∷ []) = omega arith
length-drop_last (c ∷ d ∷ s) = omega (arith, length-drop_last (d ∷ s))

chr_tab_sweep : all_below 256 (λ c. ltb (get_or chr_tab c 0) 0x7f) ≡ true
unfolding all_below
chr_tab_sweep = refl

chr_tab-lt : (c : ℕ) → c < 256 → get_or chr_tab c 0 < 0x7f
chr_tab-lt c h =
    ground (arith, all_below_sound 256 (λ k. ltb (get_or chr_tab k 0) 0x7f) c chr_tab_sweep h)

-- A line of at most 32 characters that print
abbrev pub IsLine : List ℕ → Type 0
IsLine s = AllPrint s × (length s ≤ 32)

takes_back : ℕ → List ℕ → Bool
takes_back c s = c == 0x9d && (if is_empty s then false else true)

fits_line : ℕ → List ℕ → Bool
fits_line c s = leb 0x20 (get_or chr_tab c 0) && leb (length s) 31

put_char_view :
    (c : ℕ) (s : List ℕ)
    → put_char c s ≡ (
        if takes_back c s
        then drop_last s
        else if fits_line c s
        then s ++ get_or chr_tab c 0 ∷ []
        else s)
unfolding put_char takes_back fits_line
put_char_view c s = refl

fits_line-IsLine :
    (c : ℕ) (s : List ℕ)
    → c < 256
    → IsLine s
    → fits_line c s ≡ true
    → IsLine (s ++ get_or chr_tab c 0 ∷ [])
unfolding fits_line
fits_line-IsLine c s h line e =
    let (visible, short) = and_both (leb 0x20 (get_or chr_tab c 0)) (leb (length s) 31) e in
    (
      AllPrint-snoc s (get_or chr_tab c 0) line.0 (leb→le _ _ visible) (chr_tab-lt c h),
      omega (arith, length-append s (get_or chr_tab c 0 ∷ []), leb→le (length s) 31 short),
    )

put_char-IsLine : (c : ℕ) (s : List ℕ) → c < 256 → IsLine s → IsLine (put_char c s)
put_char-IsLine c s h line =
    subst IsLine (sym (put_char_view c s))
      (split (Bool-cases (takes_back c s)) (Bool-cases (fits_line c s)))
  where
    split :
        (takes_back c s ≡ true) ⊎ (takes_back c s ≡ false)
        → (fits_line c s ≡ true) ⊎ (fits_line c s ≡ false)
        → IsLine (
            if takes_back c s
            then drop_last s
            else if fits_line c s
            then s ++ get_or chr_tab c 0 ∷ []
            else s)
    split (inl back) f = rw back (AllPrint-drop_last s line.0, omega (arith, length-drop_last s))
    split (inr on) (inl room) = rw (on, room) (fits_line-IsLine c s h line room)
    split (inr on) (inr full) = rw (on, full) line

abbrev pub AreBytes : List ℕ → Type 0
AreBytes [] = Unit
AreBytes (c ∷ s) = (c < 256) × AreBytes s

petscii_loop-IsLine :
    (p s : List ℕ)
    → AreBytes p
    → IsLine s
    → IsLine (petscii_loop p s).0
      × AreBytes (petscii_loop p s).1
      × (length (petscii_loop p s).1 ≤ length p)
unfolding petscii_loop
petscii_loop-IsLine [] s bytes line = (line, tt, omega arith)
petscii_loop-IsLine (c ∷ rest) s bytes line = elim (Bool-cases (c == 0x00 || c == 0x0d)) [
  | inl ends ↦ rw ends (line, bytes.1, omega arith)
  | inr goes ↦
      let (l, b, n) =
        petscii_loop-IsLine rest (put_char c s) bytes.1 (put_char-IsLine c s bytes.0 line) in
      rw goes (l, b, omega arith)
]

-- A line of a text has at most 32 characters, all of which print, and the pointer moves on, unless
-- it was at the end already.
pub petscii_to_ascii-IsLine :
    (p : List ℕ)
    → AreBytes p
    → IsLine (petscii_to_ascii p).0 × ((p ≡ []) ⊎ (length (petscii_to_ascii p).1 < length p))
unfolding petscii_to_ascii petscii_loop
petscii_to_ascii-IsLine [] bytes = ((tt, omega arith), inl refl)
petscii_to_ascii-IsLine (c ∷ rest) bytes = elim (Bool-cases (c == 0x00 || c == 0x0d)) [
  | inl ends ↦ rw ends ((tt, omega arith), inr (omega arith))
  | inr goes ↦
      let (l, b, n) =
        petscii_loop-IsLine rest (put_char c []) bytes.1
          (put_char-IsLine c [] bytes.0 (tt, omega arith)) in
      rw goes (l, inr (omega arith))
]
