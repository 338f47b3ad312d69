-- ===== src/Driver/FreePage.antt =====
-- src/psiddrv.cpp: the page that `drvReloc` finds for the driver.
use libsidplayfp.Base.{
  ℕ, zero, suc, ◌+◌, ◌<◌, ◌≤◌, ◌≡◌, ◌⊎◌, inl, inr, refl, sym, subst, ◌∙◌, Bool, true, false, ◌&&◌,
  Option, none, some, if◌then◌else◌, ltb, leb, arith, Bool-cases,
}
use libsidplayfp.Driver.{find_page}

-- A page is free when neither the data nor the BASIC ROM have it.
abbrev pub IsFree : (from to page : ℕ) → Type 0
IsFree from to page = ((page < from) ⊎ (to < page)) × ((page < 0xa0) ⊎ (0xbf < page))

abbrev is_free : (from to page : ℕ) → Bool
is_free from to page =
    if leb from page && leb page to
    then false
    else if leb 0xa0 page && leb page 0xbf
    then false
    else true

is_free→IsFree : (from to page : ℕ) → is_free from to page ≡ true → IsFree from to page
is_free→IsFree from to page e = ground arith

IsFree→is_free : (from to page : ℕ) → is_free from to page ≡ false → IsFree from to page → ⊥
IsFree→is_free from to page e f = ground arith

-- What `find_page` gives for the pages below `bound`: the first free one, or that there is none
abbrev pub Found : (least bound from to : ℕ) → Option ℕ → Type 0
Found least bound from to none = (page : ℕ) → least ≤ page → page < bound → IsFree from to page → ⊥
Found least bound from to (some p) =
    (least ≤ p)
    × (p < bound)
    × IsFree from to p
    × ((page : ℕ) → least ≤ page → page < p → IsFree from to page → ⊥)

find_page_step :
    (rounds i from to : ℕ)
    → find_page (suc rounds) i from to
      ≡ (if is_free from to i then some i else find_page rounds (i + 1) from to)
unfolding find_page
find_page_step rounds i from to = ground arith

first_or_later : (i page : ℕ) → i ≤ page → (page ≡ i) ⊎ (i + 1 ≤ page)
first_or_later i page h = elim (Bool-cases (ltb i page)) [
  | inl e ↦ inr (ground arith)
  | inr e ↦ inl (ground arith)
]

none_from :
    (i from to bound : ℕ)
    → (IsFree from to i → ⊥)
    → ((page : ℕ) → i + 1 ≤ page → page < bound → IsFree from to page → ⊥)
    → (page : ℕ) → i ≤ page
    → page < bound
    → IsFree from to page
    → ⊥
none_from i from to bound taken later page least below free = elim (first_or_later i page least) [
  | inl same ↦ taken (subst (IsFree from to) same free)
  | inr next ↦ later page next below free
]

skip_taken :
    (i bound from to : ℕ) (found : Option ℕ)
    → (IsFree from to i → ⊥)
    → Found (i + 1) bound from to found
    → Found i bound from to found
skip_taken i bound from to none taken f = none_from i from to bound taken f
skip_taken i bound from to (some p) taken f =
    (omega arith, f.1, f.2, none_from i from to p taken f.3)

find_page-Found : (rounds i from to : ℕ) → Found i (i + rounds) from to (find_page rounds i from to)
unfolding find_page
find_page-Found zero i from to = λ page least below free. omega arith
find_page-Found (suc rounds) i from to = elim (Bool-cases (is_free from to i)) [
  | inl free ↦
      subst (Found i (i + suc rounds) from to) (sym (find_page_step rounds i from to ∙ chosen free))
        (omega arith, omega arith, is_free→IsFree from to i free, λ page least below f. omega arith)
  | inr taken ↦
      subst (Found i (i + suc rounds) from to)
        (sym (find_page_step rounds i from to ∙ passed taken))
        (skip_taken i (i + suc rounds) from to (find_page rounds (i + 1) from to)
          (IsFree→is_free from to i taken)
          (subst (λ (bound : ℕ). Found (i + 1) bound from to (find_page rounds (i + 1) from to))
            (omega arith) (find_page-Found rounds (i + 1) from to)))
]
  where
    chosen :
        is_free from to i ≡ true
        → (if is_free from to i then some i else find_page rounds (i + 1) from to) ≡ some i
    chosen e = rw e refl

    passed :
        is_free from to i ≡ false
        → (if is_free from to i then some i else find_page rounds (i + 1) from to)
          ≡ find_page rounds (i + 1) from to
    passed e = rw e refl

-- The search for a page of the driver gives the lowest page from 4 to $CF that neither the data nor
-- the BASIC ROM have, and fails only if there is none.
pub find_page_lem : (from to : ℕ) → Found 4 0xd0 from to (find_page 0xcc 4 from to)
find_page_lem from to = find_page-Found 0xcc 4 from to

pub find_page-lt : (from to : ℕ) {page : ℕ} → find_page 0xcc 4 from to ≡ some page → page < 0xd0
find_page-lt from to e = (subst (Found 4 0xd0 from to) e (find_page_lem from to)).1
