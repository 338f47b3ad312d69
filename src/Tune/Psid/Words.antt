-- ===== src/Tune/Psid/Words.antt =====
-- src/sidtune/PSID.cpp: the addresses and the offset that a loaded tune has are words.
use libsidplayfp.Base.{
  ℕ, zero, suc, ◌+◌, ◌<◌, ◌≡◌, ◌∙◌, refl, sym, subst, none, some, List, [], ◌∷◌, ◌++◌, length,
  get_or, arith, if◌then◌else◌, ltb, leb, ◌!=◌, ◌&&◌, Bool-cases, inl, inr,
}
use libsidplayfp.Endian.{read_big16}
use libsidplayfp.Endian.Laws.{endian_16_lem}
use libsidplayfp.Tune.{
  Clock, SidTuneInfo, SidTuneBase, new_tune, speed_loop, convert_old_style_speed_to_tables,
  Compatibility, Format,
}
use libsidplayfp.Tune.Accept.Playable.{IsLoaded}
use libsidplayfp.Tune.Accept.Steps.{>>=-eq-loaded, require-eq-loaded, loaded-inj}
use libsidplayfp.Tune.Psid as Psid
use libsidplayfp.Tune.Psid.{
  PsidHeader, base_info, extend, second_sid, third_sid, try_load, check_version, load_magic,
  read_header, big32_at, psid_id, rsid_id,
}
use libsidplayfp.Tune.Psid.Header.{word_at, with_v1, with_v2, header_of, read_header_lem}
use libsidplayfp.Tune.Result.{LoadError, loaded, failed, LoadError.invalid, LoadError.mus_data}

-- The fields of a header that are words
record HasWords (h : PsidHeader) : Type 0 where
  load : h.load < 65536
  init : h.init < 65536
  offset : h.offset < 65536

base_info-words :
    (f : Format) (c : Compatibility) (h : PsidHeader) (i : SidTuneInfo)
    → ((base_info f c h i).load_addr ≡ h.load) × ((base_info f c h i).init_addr ≡ h.init)
unfolding base_info
base_info-words f c h i = (refl, refl)

second_sid-words :
    (h : PsidHeader) (i : SidTuneInfo)
    → ((second_sid h i).load_addr ≡ i.load_addr) × ((second_sid h i).init_addr ≡ i.init_addr)
unfolding second_sid
second_sid-words h i = ground arith

third_sid-words :
    (h : PsidHeader) (i : SidTuneInfo)
    → ((third_sid h i).load_addr ≡ i.load_addr) × ((third_sid h i).init_addr ≡ i.init_addr)
unfolding third_sid
third_sid-words h i = ground arith

extend-words :
    (h : PsidHeader) (i : SidTuneInfo)
    → ((extend h i).load_addr ≡ i.load_addr) × ((extend h i).init_addr ≡ i.init_addr)
unfolding extend
extend-words h i = ground (arith, second_sid-words h _, third_sid-words h _)

speed_loop_keeps :
    (rounds s speed : ℕ) (clock : Clock) (t : SidTuneBase)
    → ((speed_loop rounds s speed clock t).info ≡ t.info)
      × ((speed_loop rounds s speed clock t).file_offset ≡ t.file_offset)
unfolding speed_loop
speed_loop_keeps zero s speed clock t = (refl, refl)
speed_loop_keeps (suc rounds) s speed clock t = speed_loop_keeps rounds (s + 1) _ clock _

with_strings : List (List ℕ) → SidTuneBase → SidTuneBase
with_strings strings t = record t {
  info = record t.info { info_string = t.info.info_string ++ strings };
}

converted-IsLoaded :
    (speed : ℕ) (clock : Clock) (t : SidTuneBase) (strings : List (List ℕ))
    → IsLoaded t
    → IsLoaded (with_strings strings (convert_old_style_speed_to_tables speed clock t))
unfolding convert_old_style_speed_to_tables with_strings
converted-IsLoaded speed clock t strings l =
    let (info, offset) =
      speed_loop_keeps (if ltb t.info.songs 256 then t.info.songs else 256) 0 speed clock t in
    record {
      load_word = subst (λ (i : SidTuneInfo). i.load_addr < 65536) (sym info) l.load_word;
      init_word = subst (λ (i : SidTuneInfo). i.init_addr < 65536) (sym info) l.init_word;
      offset_word = subst (λ (n : ℕ). n < 65536) (sym offset) l.offset_word;
    }

extended-words :
    (f : Format) (c : Compatibility) (h : PsidHeader) (i : SidTuneInfo)
    → HasWords h
    → let base = base_info f c h i in
      let info = if leb 2 h.version then extend h base else base in
      (info.load_addr < 65536) × (info.init_addr < 65536)
extended-words f c h i w =
    ground (arith, base_info-words f c h i, extend-words h (base_info f c h i), w.load, w.init)

try_load-IsLoaded :
    (h : PsidHeader) {t : SidTuneBase} → HasWords h → try_load h new_tune ≡ loaded t → IsLoaded t
unfolding try_load with_strings
try_load-IsLoaded h w e =
    let ((f, c), valid, rest) = >>=-eq-loaded (check_version h.id h.version) _ e in
    let (reserved, rest1) = require-eq-loaded _ invalid _ rest in
    let (no_mus, done) = require-eq-loaded _ mus_data _ rest1 in
    let words = extended-words f c h new_tune.info w in
    subst IsLoaded (sym (loaded-inj done)) (
      converted-IsLoaded _ _ _ (h.name ∷ h.author ∷ h.released ∷ [])
        (record { load_word = words.0; init_word = words.1; offset_word = w.offset }))

module _ (buf : List ℕ) (bytes : (i : ℕ) → get_or buf i 0 < 256) where
  word_at-lt : (i : ℕ) → word_at buf i < 65536
  unfolding read_big16
  word_at-lt i = omega (
    arith,
    endian_16_lem (get_or buf i 0) (get_or buf (i + 1) 0) (bytes (i + 1)),
    bytes i,
    bytes (i + 1),
  )

  with_v1-HasWords : (hdr : PsidHeader) → HasWords (with_v1 buf hdr)
  unfolding with_v1
  with_v1-HasWords hdr = record { load = word_at-lt 8; init = word_at-lt 10; offset = word_at-lt 6 }

  with_v2-HasWords : (hdr : PsidHeader) → HasWords hdr → HasWords (with_v2 buf hdr)
  unfolding with_v2
  with_v2-HasWords hdr w = record { load = w.load; init = w.init; offset = w.offset }

  header_of-HasWords :
      (hdr : PsidHeader) {h : PsidHeader} → header_of buf hdr ≡ loaded h → HasWords h
  unfolding header_of
  header_of-HasWords hdr {h} e = elim (Bool-cases (ltb (length buf) 120)) [
    | inl short ↦ absurd (not_loaded (rw short at e))
    | inr long ↦ elim (Bool-cases (ltb (word_at buf 4) 2)) [
      | inl old ↦ subst HasWords (sym (loaded-inj (rw (long, old) at e))) (with_v1-HasWords hdr)
      | inr new ↦ elim (Bool-cases (ltb (length buf) 126)) [
        | inl short ↦ absurd (not_loaded (rw (long, new, short) at e))
        | inr enough ↦
            subst HasWords (sym (loaded-inj (rw (long, new, enough) at e)))
              (with_v2-HasWords (with_v1 buf hdr) (with_v1-HasWords hdr))
      ]
    ]
  ]
    where
      not_loaded : failed LoadError.truncated ≡ loaded h → ⊥
      not_loaded p = cc

  load_magic-IsLoaded :
      (hdr : PsidHeader) (magic : ℕ) {t : SidTuneBase}
      → load_magic buf hdr magic ≡ loaded (some t)
      → IsLoaded t
  unfolding load_magic
  load_magic-IsLoaded hdr magic {t} e =
      elim (Bool-cases ((magic != psid_id) && (magic != rsid_id))) [
        | inl other ↦ absurd (null (rw other at e))
        | inr same ↦
            let (h, header, rest) = >>=-eq-loaded (read_header buf hdr) _ (rw same at e) in
            let (u, tune, done) = >>=-eq-loaded (try_load h new_tune) _ rest in
            subst IsLoaded (sym (some_inj (loaded-inj done))) (
              try_load-IsLoaded h (header_of-HasWords hdr (sym (read_header_lem buf hdr) ∙ header))
                tune)
      ]
    where
      null : loaded none ≡ loaded (some t) → ⊥
      null p = cc

      some_inj : {u : SidTuneBase} → some t ≡ some u → t ≡ u
      some_inj p = cc

  pub load-IsLoaded :
      (hdr : PsidHeader) {t : SidTuneBase} → Psid.load buf hdr ≡ loaded (some t) → IsLoaded t
  unfolding Psid.load
  load-IsLoaded hdr {t} e = elim (Bool-cases (ltb (length buf) 4)) [
    | inl short ↦ absurd (null (rw short at e))
    | inr long ↦
        let (magic, read, rest) = >>=-eq-loaded (big32_at buf 0) _ (rw long at e) in
        load_magic-IsLoaded hdr magic rest
  ]
    where
      null : loaded none ≡ loaded (some t) → ⊥
      null p = cc
