-- ===== src/Tune/Psid/Taken.antt =====
-- src/sidtune/PSID.cpp: which headers `load` takes, by their fields.
use libsidplayfp.Base.{
  ℕ, ◌≡◌, ◌≢◌, inl, inr, refl, Bool, true, false, not, ◌&&◌, ◌||◌, Option, none, some, List, length,
  arith, if◌then◌else◌, leb, ltb, ◌==◌, ◌!=◌, Bool-cases,
}
use libsidplayfp.Tune.{SidTuneBase, new_tune}
use libsidplayfp.Tune.Psid.{
  PsidHeader, psid_id, rsid_id, check_version, try_load, load, load_magic, mus_player,
  reserved_clear,
}
use libsidplayfp.Tune.Psid.Header.{
  word_at, dword_at, with_v1, with_v2, header_of, read_header_lem, big32_at-lt,
}
use libsidplayfp.Tune.Result.{Load, loaded, failed, overrun, ◌>>=◌}

-- Whether a load gave a value
abbrev pub succeeds : {A : Type 0} → Load A → Bool
succeeds (loaded a) = true
succeeds (failed e) = false
succeeds overrun = false

abbrev overruns : {A : Type 0} → Load A → Bool
overruns (loaded a) = false
overruns (failed e) = false
overruns overrun = true

abbrev pub gives_tune : Load (Option SidTuneBase) → Bool
gives_tune (loaded none) = false
gives_tune (loaded (some t)) = true
gives_tune (failed e) = false
gives_tune overrun = false

abbrev pub valid_version : PsidHeader → Bool
valid_version h =
    if h.id == psid_id
    then leb 1 h.version && leb h.version 4
    else leb 2 h.version && leb h.version 4

unfoldable pub taken : PsidHeader → Bool
taken h = valid_version h && ((h.id == psid_id || reserved_clear h) && not (mus_player h))

try_load-succeeds : (h : PsidHeader) (t : SidTuneBase) → succeeds (try_load h t) ≡ taken h
unfolding try_load check_version taken
try_load-succeeds h t = ground arith

try_load-overruns : (h : PsidHeader) (t : SidTuneBase) → overruns (try_load h t) ≡ false
unfolding try_load check_version
try_load-overruns h t = ground arith

abbrev tune_of : Load SidTuneBase → Load (Option SidTuneBase)
tune_of m = m >>= λ (t : SidTuneBase). loaded (some t)

gives_tune-tune_of : (m : Load SidTuneBase) → gives_tune (tune_of m) ≡ succeeds m
gives_tune-tune_of (loaded t) = refl
gives_tune-tune_of (failed e) = refl
gives_tune-tune_of overrun = refl

tune_of-overruns : (m : Load SidTuneBase) → overruns (tune_of m) ≡ overruns m
tune_of-overruns (loaded t) = refl
tune_of-overruns (failed e) = refl
tune_of-overruns overrun = refl

-- `load` by the header that `readHeader` gives
load_view :
    (buf : List ℕ) (hdr : PsidHeader)
    → load buf hdr ≡ (
        if ltb (length buf) 4
        then loaded none
        else if (dword_at buf 0 != psid_id) && (dword_at buf 0 != rsid_id)
        then loaded none
        else header_of buf hdr >>= λ (h : PsidHeader). tune_of (try_load h new_tune))
unfolding load load_magic
load_view buf hdr = elim (Bool-cases (ltb (length buf) 4)) [
  | inl short ↦ rw short refl
  | inr long ↦ rw (long, big32_at-lt buf 0 (ground arith)) (rw (read_header_lem buf hdr) refl)
]

-- The header that a file of version 1, and one of a later version, gives
unfoldable pub header_taken : List ℕ → PsidHeader → Bool
header_taken buf hdr =
    if ltb (word_at buf 4) 2
    then taken (with_v1 buf hdr)
    else leb 126 (length buf) && taken (with_v2 buf (with_v1 buf hdr))

header_of-gives_tune :
    (buf : List ℕ) (hdr : PsidHeader)
    → gives_tune (header_of buf hdr >>= λ (h : PsidHeader). tune_of (try_load h new_tune))
      ≡ (leb 120 (length buf) && header_taken buf hdr)
unfolding header_of header_taken
header_of-gives_tune buf hdr = ground (
  arith,
  gives_tune-tune_of (try_load (with_v1 buf hdr) new_tune),
  gives_tune-tune_of (try_load (with_v2 buf (with_v1 buf hdr)) new_tune),
  try_load-succeeds (with_v1 buf hdr) new_tune,
  try_load-succeeds (with_v2 buf (with_v1 buf hdr)) new_tune,
)

pub load-gives_tune :
    (buf : List ℕ) (hdr : PsidHeader)
    → gives_tune (load buf hdr) ≡ (
        leb 120 (length buf)
        && ((dword_at buf 0 == psid_id || dword_at buf 0 == rsid_id) && header_taken buf hdr))
load-gives_tune buf hdr = ground (arith, load_view buf hdr, header_of-gives_tune buf hdr)

pub load-overruns : (buf : List ℕ) (hdr : PsidHeader) → load buf hdr ≢ overrun
unfolding header_of
load-overruns buf hdr e = ground (
  arith,
  load_view buf hdr,
  tune_of-overruns (try_load (with_v1 buf hdr) new_tune),
  tune_of-overruns (try_load (with_v2 buf (with_v1 buf hdr)) new_tune),
  try_load-overruns (with_v1 buf hdr) new_tune,
  try_load-overruns (with_v2 buf (with_v1 buf hdr)) new_tune,
)
