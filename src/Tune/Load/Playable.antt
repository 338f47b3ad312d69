-- ===== src/Tune/Load/Playable.antt =====
-- src/sidtune/SidTuneBase.cpp: every tune that `getFromBuffer` gives is playable.
use libsidplayfp.Base.{
  ℕ, ◌+◌, ◌^◌, ◌<◌, ◌≡◌, ◌∙◌, refl, ap, sym, subst, Bool, true, false, Option, none, some, List, [],
  length, get_or, arith, ltb, leb, ◌==◌, Bool-cases, inl, inr,
}
use libsidplayfp.Tune.{SidTuneInfo, SidTuneBase, new_tune}
use libsidplayfp.Tune.Accept.{sub_32, accept_sid_tune}
use libsidplayfp.Tune.Accept.Playable.{IsPlayable, IsLoaded, accept_sid_tune-IsPlayable}
use libsidplayfp.Tune.Accept.Steps.{>>=-eq-loaded, require-eq-loaded, loaded-inj}
use libsidplayfp.Tune.Load.{
  AnyTune, base, no_name, accept_psid, accept_mus, try_mus, try_formats, get_from_buffer,
  max_filelen,
}
use libsidplayfp.Tune.Mus as Mus
use libsidplayfp.Tune.Mus.{
  Mus, data_addr, set_player_address, put_second, finish_mus, try_second, from_credits, find_second,
  try_load, check_mus, init_mus, merge_parts, merge_loaded, load_found, detect, credits, is_some,
  first_len, second_credits,
}
use libsidplayfp.Tune.Petscii.{increment}
use libsidplayfp.Tune.Psid as Psid
use libsidplayfp.Tune.Psid.{PsidHeader}
use libsidplayfp.Tune.Psid.Words.{load-IsLoaded}
use libsidplayfp.Tune.Result.{Load, LoadError, loaded, failed, overrun, ◌>>◌}

some-inj : {A : Type 0} {a b : A} → some a ≡ some b → a ≡ b
some-inj h = cc

null : {A : Type 0} {a : A} → ◌≡◌ {A = Load (Option A)} (loaded none) (loaded (some a)) → ⊥
null h = cc

no_tune : {A : Type 0} {e : LoadError} {a : A} → failed e ≡ loaded a → ⊥
no_tune h = cc

-- The place of the data of a Sidplayer tune
record IsPlaced (t : SidTuneBase) : Type 0 where
  load : t.info.load_addr ≡ data_addr
  offset : t.file_offset ≡ 0

placed-IsLoaded : (t : SidTuneBase) → IsPlaced t → IsLoaded (set_player_address t)
unfolding set_player_address
placed-IsLoaded t p = ground arith

finish_mus-IsPlaced :
    (len : ℕ) (stereo : Bool) (lines : Option (List (List ℕ))) (t : SidTuneBase) {m : Mus}
    → IsPlaced t
    → finish_mus len stereo lines t ≡ loaded (some m)
    → IsPlaced m.tune
unfolding finish_mus set_player_address
finish_mus-IsPlaced len stereo none t p e = absurd (null e)
finish_mus-IsPlaced len true (some lines) t p e = ground arith
finish_mus-IsPlaced len false (some lines) t p e = ground arith

from_credits-IsPlaced :
    (fuel : ℕ) (str_buf : List ℕ) (len : ℕ) (c : Option (List (List ℕ) × List ℕ)) (t : SidTuneBase)
    {m : Mus}
    → IsPlaced t
    → from_credits fuel str_buf len c t ≡ loaded (some m)
    → IsPlaced m.tune
unfolding from_credits try_second
from_credits-IsPlaced fuel str_buf len none t p e = absurd (null e)
from_credits-IsPlaced fuel str_buf len (some (lines, q)) t p e =
    let (second, found, done) = >>=-eq-loaded (find_second str_buf (increment q)) _ e in
    finish_mus-IsPlaced _ (is_some second) _ t p done

mus_buf_kept :
    (player_addr : ℕ) (buf : List ℕ) (i : SidTuneInfo) {out : List ℕ}
    → merge_parts player_addr buf [] i ≡ loaded out
    → out ≡ buf
unfolding merge_parts
mus_buf_kept player_addr buf i e =
    let (fits, done) =
      require-eq-loaded (leb (sub_32 (length buf + 0) 4) (sub_32 player_addr data_addr))
        LoadError.size_exceeded _ e in
    loaded-inj done

init_mus-IsPlaced :
    (t : SidTuneBase)
    → t.file_offset ≡ 0
    → IsPlaced (record (init_mus t) { info = record (init_mus t).info { load_addr = data_addr } })
unfolding init_mus
init_mus-IsPlaced t h = record { load = refl; offset = h }

then-eq-loaded :
    {B : Type 0} (m : Load (Unit {0})) (rest : Load B) {b : B}
    → (m >> rest) ≡ loaded b
    → rest ≡ loaded b
then-eq-loaded (loaded a) rest h = h
then-eq-loaded (failed e) rest h = cc
then-eq-loaded overrun rest h = cc

try_load-IsPlaced :
    (fuel : ℕ) (mus_buf str_buf : List ℕ) (voice3 : ℕ) {m : Mus}
    → try_load fuel mus_buf str_buf voice3 new_tune ≡ loaded (some m)
    → IsPlaced m.tune
unfolding try_load
try_load-IsPlaced fuel mus_buf str_buf voice3 e =
    from_credits-IsPlaced fuel str_buf _ _ _ (init_mus-IsPlaced new_tune refl)
      (then-eq-loaded (check_mus (init_mus new_tune)) _ e)

merge_loaded-IsPlaced :
    (player_addr : ℕ) (buf : List ℕ) (o : Option Mus) {m : Mus} {out : List ℕ}
    → ((n : Mus) → o ≡ some n → IsPlaced n.tune)
    → merge_loaded player_addr buf [] o ≡ loaded (some (m, out))
    → IsPlaced m.tune × (out ≡ buf)
unfolding merge_loaded
merge_loaded-IsPlaced player_addr buf none p e = absurd (null e)
merge_loaded-IsPlaced player_addr buf (some n) p e =
    let (b, merged, done) = >>=-eq-loaded (merge_parts player_addr buf [] n.tune.info) _ e in
    let same = some-inj (loaded-inj done) in
    (
      subst (λ (r : Mus × List ℕ). IsPlaced r.0.tune) (sym same) (p n refl),
      ap (λ (r : Mus × List ℕ). r.1) same ∙ mus_buf_kept player_addr buf n.tune.info merged,
    )

load-IsPlaced :
    (player_addr : ℕ) (buf : List ℕ) {m : Mus} {out : List ℕ}
    → Mus.load player_addr buf [] ≡ loaded (some (m, out))
    → IsPlaced m.tune × (out ≡ buf)
unfolding Mus.load load_found
load-IsPlaced player_addr buf {m} {out} e =
    let (found, detected, rest) = >>=-eq-loaded (detect buf) _ e in load_found-IsPlaced found rest
  where
    load_found-IsPlaced :
        (found : Option ℕ)
        → load_found player_addr buf [] found ≡ loaded (some (m, out))
        → IsPlaced m.tune × (out ≡ buf)
    load_found-IsPlaced none q = absurd (null q)
    load_found-IsPlaced (some voice3) q =
        let (o, tried, merged) =
          >>=-eq-loaded (try_load (length buf + 0 + 1) buf [] voice3 new_tune) _ q in
        merge_loaded-IsPlaced player_addr buf o
          (λ n same. try_load-IsPlaced _ buf [] voice3 (tried ∙ ap loaded same)) merged

module _ (is_separator : ℕ → Bool) (buf : List ℕ) (bytes : (i : ℕ) → get_or buf i 0 < 256)
    (small : length buf < 2 ^ 32) where
  accept_psid-IsPlayable :
      (t : SidTuneBase) {u : AnyTune}
      → IsLoaded t
      → accept_psid is_separator buf t ≡ loaded u
      → IsPlayable (length buf) (base u)
  unfolding accept_psid
  accept_psid-IsPlayable t l e =
      let (v, accepted, done) =
        >>=-eq-loaded (accept_sid_tune is_separator no_name no_name buf false t) _ e in
      subst (λ (u : AnyTune). IsPlayable (length buf) (base u)) (sym (loaded-inj done))
        (accept_sid_tune-IsPlayable is_separator no_name no_name buf false t bytes small l
          accepted).0

  accept_mus-IsPlayable :
      (m : Mus) {u : AnyTune}
      → IsPlaced m.tune
      → accept_mus is_separator buf m ≡ loaded u
      → IsPlayable (length buf) (base u)
  unfolding accept_mus
  accept_mus-IsPlayable m l e =
      let t = set_player_address m.tune in
      let (v, accepted, done) =
        >>=-eq-loaded (accept_sid_tune is_separator no_name no_name buf false t) _ e in
      subst (λ (u : AnyTune). IsPlayable (length buf) (base u)) (sym (loaded-inj done))
        (accept_sid_tune-IsPlayable is_separator no_name no_name buf false t bytes small
          (placed-IsLoaded m.tune l) accepted).0

  try_formats-IsPlayable :
      (player_addr : ℕ) (o : Option SidTuneBase) {u : AnyTune}
      → ((t : SidTuneBase) → o ≡ some t → IsLoaded t)
      → try_formats player_addr is_separator buf o ≡ loaded u
      → IsPlayable (length buf) (base u)
  unfolding try_formats try_mus
  try_formats-IsPlayable player_addr (some t) p e = accept_psid-IsPlayable t (p t refl) e
  try_formats-IsPlayable player_addr none {u} p e =
      let (found, read, rest) = >>=-eq-loaded (Mus.load player_addr buf []) _ e in
      accepted found read rest
    where
      accepted :
          (found : Option (Mus × List ℕ))
          → Mus.load player_addr buf [] ≡ loaded found
          → try_mus is_separator found ≡ loaded u
          → IsPlayable (length buf) (base u)
      accepted none read q = absurd (no_tune q)
      accepted (some (m, out)) read q =
          let (placed, same) = load-IsPlaced player_addr buf read in
          accept_mus-IsPlayable m placed
            (subst (λ (b : List ℕ). accept_mus is_separator b m ≡ loaded u) same q)

-- Every tune that `getFromBuffer` gives for a buffer of bytes, in whatever format, is playable: its
-- songs, its data and its addresses are as the checks of `acceptSidTune` promise.
pub get_from_buffer-IsPlayable :
    (player_addr : ℕ) (is_separator : ℕ → Bool) (hdr : PsidHeader) (buf : List ℕ) {u : AnyTune}
    → ((i : ℕ) → get_or buf i 0 < 256)
    → get_from_buffer player_addr is_separator hdr (some buf) ≡ loaded u
    → IsPlayable (length buf) (base u)
unfolding get_from_buffer
get_from_buffer-IsPlayable player_addr is_separator hdr buf {u} bytes e =
    elim (Bool-cases (length buf == 0)) [
      | inl nothing ↦ absurd (no_tune (rw nothing at e))
      | inr some_bytes ↦ elim (Bool-cases (ltb max_filelen (length buf))) [
        | inl long ↦ absurd (no_tune (rw (some_bytes, long) at e))
        | inr fits ↦
            let (o, read, rest) =
              >>=-eq-loaded (Psid.load buf hdr) _ (rw (some_bytes, fits) at e) in
            try_formats-IsPlayable is_separator buf bytes (ground arith) player_addr o
              (λ t same. load-IsLoaded buf bytes hdr (read ∙ ap loaded same)) rest
      ]
    ]
