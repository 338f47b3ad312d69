-- ===== src/Tune/Accept/Accepts.antt =====
-- src/sidtune/SidTuneBase.cpp: which tunes `acceptSidTune` surely takes, and where it reads outside
-- the file.
use libsidplayfp.Base.{
  ℕ, ◌+◌, ◌^◌, ◌<◌, ◌≤◌, ◌≡◌, ◌≢◌, inl, inr, refl, sym, subst, Bool, true, false, true≢false, List,
  length, get_or, if◌then◌else◌, ◌==◌, leb, arith, Bool-cases,
}
use libsidplayfp.Endian.{read_little16}
use libsidplayfp.Tune.{
  Compatibility, Compatibility.c64, Compatibility.psid, r64, basic, SidTuneInfo, SidTuneBase,
}
use libsidplayfp.Tune.Result.{Load, loaded, overrun, ◌>>=◌, read_at-lt, read_at-ge}
use libsidplayfp.Tune.Accept.{
  fix_songs, reset_play, resolve_load, take_load_addr, resolve_init, resolve_addrs, check_info,
  check_size, check_reloc_info, check_compatibility, fix_load, read_fix_load, accept_sized,
  set_sizes,
}

abbrev is_plain : Compatibility → Bool
is_plain c64 = true
is_plain psid = true
is_plain other = false

-- What is kept on the way of such a tune through the checks
record IsPlain (size : ℕ) (t : SidTuneBase) : Type 0 where
  plain : is_plain t.info.compatibility ≡ true
  given : t.info.load_addr ≢ 0
  no_pages : t.info.reloc_pages ≡ 0
  least : 1 ≤ t.info.c64data_len
  most : t.info.c64data_len ≤ 65536
  inside : t.file_offset + 1 < size

-- A step that succeeds and keeps that
abbrev Passes : ℕ → Load SidTuneBase → Type 0
Passes size m = (u : SidTuneBase) × (m ≡ loaded u) × IsPlain size u

then-Passes :
    (size : ℕ) (m : Load SidTuneBase) (f : SidTuneBase → Load SidTuneBase)
    → Passes size m
    → ((u : SidTuneBase) → IsPlain size u → Passes size (f u))
    → Passes size (m >>= f)
then-Passes size m f (u, e, p) next =
    subst (λ (k : Load SidTuneBase). Passes size (k >>= f)) (sym e) (next u p)

resolve_load-Passes :
    (buf : List ℕ) (size : ℕ) (t : SidTuneBase)
    → IsPlain size t
    → Passes size (resolve_load buf (reset_play t))
unfolding resolve_load reset_play
resolve_load-Passes buf size t p = (reset_play t, ground arith, ground arith)

put_init : SidTuneBase → SidTuneBase
put_init t = record t {
  info = record t.info {
    init_addr = if t.info.init_addr == 0 then t.info.load_addr else t.info.init_addr;
  };
}

resolve_init-Passes :
    (c : Compatibility) (size : ℕ) (t : SidTuneBase)
    → is_plain c ≡ true
    → IsPlain size t
    → Passes size (resolve_init c t)
unfolding resolve_init put_init
resolve_init-Passes c64 size t e p = (put_init t, ground arith, ground arith)
resolve_init-Passes psid size t e p = (put_init t, ground arith, ground arith)
resolve_init-Passes r64 size t e p = absurd (true≢false (sym e))
resolve_init-Passes basic size t e p = absurd (true≢false (sym e))

compatible :
    (c : Compatibility) (i : SidTuneInfo) → is_plain c ≡ true → check_compatibility c i ≡ true
unfolding check_compatibility
compatible c64 i e = refl
compatible psid i e = refl
compatible r64 i e = absurd (true≢false (sym e))
compatible basic i e = refl

relocated : SidTuneBase → SidTuneBase
relocated t = record t { info = (check_reloc_info t.info).1 }

relocated-IsPlain :
    {size : ℕ} (t : SidTuneBase)
    → IsPlain size t
    → ((check_reloc_info t.info).0 ≡ true) × IsPlain size (relocated t)
unfolding relocated check_reloc_info
relocated-IsPlain t p = ground arith

check_info-Passes : (size : ℕ) (t : SidTuneBase) → IsPlain size t → Passes size (check_info t)
unfolding check_info relocated
check_info-Passes size t p =
    let (ok, q) = relocated-IsPlain t p in
    (
      relocated t,
      rw (ok, compatible (relocated t).info.compatibility (relocated t).info q.plain) refl,
      q,
    )

fix_load-Passes :
    (buf : List ℕ) (t : SidTuneBase) → IsPlain (length buf) t → Passes (length buf) (fix_load buf t)
unfolding fix_load read_fix_load
fix_load-Passes buf t p = elim (Bool-cases (leb 2 t.info.data_file_len)) [
  | inr short ↦ (t, rw short refl, p)
  | inl long ↦ (
    record t {
      info = record t.info {
        fix_load =
            read_little16 (get_or buf t.file_offset 0) (get_or buf (t.file_offset + 1) 0)
            == t.info.load_addr + 2;
      };
    },
    rw (long, read_at-lt buf t.file_offset (omega arith))
        (rw (read_at-lt buf (t.file_offset + 1) (omega arith)) refl),
    ground arith,
  )
]

check_size-Passes :
    (buf : List ℕ) (size : ℕ) (t : SidTuneBase) → IsPlain size t → Passes size (check_size buf t)
unfolding check_size
check_size-Passes buf size t p = (record t { cache = buf }, ground arith, ground arith)

set_sizes-IsPlain :
    (buf : List ℕ) (t : SidTuneBase)
    → is_plain t.info.compatibility ≡ true
    → t.info.load_addr ≢ 0
    → t.info.reloc_pages ≡ 0
    → t.file_offset + 2 ≤ length buf
    → length buf ≤ t.file_offset + 65536
    → length buf < 2 ^ 32
    → IsPlain (length buf) (set_sizes buf t)
unfolding set_sizes fix_songs
set_sizes-IsPlain buf t plain given no_pages least most small = ground arith

-- A tune that is not bound to a real Commodore 64, with its load address in the header and no relocation
-- pages, is taken when 2 to 65536 bytes of data follow its header.
pub accept_sized-plain :
    (buf : List ℕ) (t : SidTuneBase)
    → is_plain t.info.compatibility ≡ true
    → t.info.load_addr ≢ 0
    → t.info.reloc_pages ≡ 0
    → t.file_offset + 2 ≤ length buf
    → length buf ≤ t.file_offset + 65536
    → length buf < 2 ^ 32
    → (u : SidTuneBase) × (accept_sized buf (set_sizes buf t) ≡ loaded u)
unfolding accept_sized resolve_addrs
accept_sized-plain buf t plain given no_pages least most small =
    let size = length buf in
    let start = set_sizes buf t in
    let begin = set_sizes-IsPlain buf t plain given no_pages least most small in
    let passes =
      then-Passes size (resolve_addrs buf start) _
        (then-Passes size (resolve_load buf (reset_play start)) _
          (resolve_load-Passes buf size start begin)
          (λ u p. resolve_init-Passes u.info.compatibility size u p.plain p))
        (λ u p. then-Passes size (check_info u) _ (check_info-Passes size u p) (λ v q.
          then-Passes size (fix_load buf v) _ (fix_load-Passes buf v q)
            (λ w r. check_size-Passes buf size w r))) in
    (passes.0, passes.1)

-- A header may say that the data start behind the end of the file. Then the load address in front of
-- the data is read outside the file, before the size of the data is checked.
pub accept_sized-outside :
    (buf : List ℕ) (t : SidTuneBase)
    → t.info.load_addr ≡ 0
    → t.file_offset < 65536
    → length buf < t.file_offset
    → accept_sized buf (set_sizes buf t) ≡ overrun
unfolding accept_sized resolve_addrs resolve_load take_load_addr reset_play set_sizes fix_songs
accept_sized-outside buf t zero_load low short = ground (arith, read_at-ge buf (t.file_offset + 1))
