-- ===== src/Tune/Result.antt =====
-- What a loader of src/sidtune returns: a value, one of its errors (the `loadError` that it throws),
-- or a read outside its buffer.
use libsidplayfp.Base.{
  ℕ, zero, suc, ◌+◌, ◌<◌, ◌≤◌, ◌≡◌, refl, Bool-cases, inl, inr, Bool, true, false, List, [], ◌∷◌,
  length, get_or, arith, ltb,
}

pub data LoadError : Type 0 where
  empty : LoadError
  unrecognized_format : LoadError
  file_too_long : LoadError
  data_too_long : LoadError
  bad_addr : LoadError
  bad_reloc : LoadError
  corrupt : LoadError
  truncated : LoadError
  invalid : LoadError
  unknown_psid : LoadError
  unknown_rsid : LoadError
  mus_data : LoadError
  not_prg : LoadError
  second_invalid : LoadError
  size_exceeded : LoadError

pub data Load {ℓ} (A : Type ℓ) : Type ℓ where
  loaded : A → Load A
  failed : LoadError → Load A
  overrun : Load A

infixl 5 ◌>>=◌ ◌>>◌
abbrev pub ◌>>=◌ {ℓ κ} : {A : Type ℓ} {B : Type κ} → Load A → (A → Load B) → Load B
loaded a >>= f = f a
failed e >>= f = failed e
overrun >>= f = overrun

abbrev pub ◌>>◌ {ℓ} : {B : Type ℓ} → Load (Unit {0}) → Load B → Load B
m >> rest = m >>= λ _. rest

-- `if (!test) throw loadError(e)`
abbrev pub require : Bool → LoadError → Load (Unit {0})
require true e = loaded tt
require false e = failed e

-- `buf[i]` of a vector
unfoldable pub read_at : List ℕ → ℕ → Load ℕ
read_at [] i = overrun
read_at (x ∷ xs) zero = loaded x
read_at (x ∷ xs) (suc i) = read_at xs i

-- `memcpy` of `count` bytes from `&buf[i]`
unfoldable pub read_bytes : List ℕ → (i count : ℕ) → Load (List ℕ)
unfolding read_at
read_bytes buf i zero = loaded []
read_bytes buf i (suc count) = do
  x ← read_at buf i
  rest ← read_bytes buf (i + 1) count
  loaded (x ∷ rest)

-- The bytes that such reads give where they stay inside
abbrev pub slice : List ℕ → (i count : ℕ) → List ℕ
slice buf i zero = []
slice buf i (suc count) = get_or buf i 0 ∷ slice buf (i + 1) count

pub read_at-lt : (buf : List ℕ) (i : ℕ) → i < length buf → read_at buf i ≡ loaded (get_or buf i 0)
unfolding read_at
read_at-lt [] i h = absurd (omega arith)
read_at-lt (x ∷ xs) zero h = refl
read_at-lt (x ∷ xs) (suc i) h = read_at-lt xs i (omega arith)

pub read_at-ge : (buf : List ℕ) (i : ℕ) → length buf ≤ i → read_at buf i ≡ overrun
unfolding read_at
read_at-ge [] i h = refl
read_at-ge (x ∷ xs) zero h = absurd (omega arith)
read_at-ge (x ∷ xs) (suc i) h = read_at-ge xs i (omega arith)

pub read_bytes-le :
    (buf : List ℕ) (i count : ℕ)
    → i + count ≤ length buf
    → read_bytes buf i count ≡ loaded (slice buf i count)
unfolding read_bytes
read_bytes-le buf i zero h = refl
read_bytes-le buf i (suc count) h =
    rw (read_at-lt buf i (omega arith)) (rw (read_bytes-le buf (i + 1) count (omega arith)) refl)

pub read_bytes-gt :
    (buf : List ℕ) (i count : ℕ)
    → i ≤ length buf
    → length buf < i + count
    → read_bytes buf i count ≡ overrun
unfolding read_bytes
read_bytes-gt buf i zero h k = absurd (omega arith)
read_bytes-gt buf i (suc count) h k = elim (Bool-cases (ltb i (length buf))) [
  | inr ends ↦ rw (read_at-ge buf i (ground arith)) refl
  | inl goes ↦
      rw (read_at-lt buf i (ground arith))
        (rw (read_bytes-gt buf (i + 1) count (ground arith) (omega arith)) refl)
]
