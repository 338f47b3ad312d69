-- ===== src/Tune/Accept/Playable.antt =====
-- src/sidtune/SidTuneBase.cpp: what holds of a tune that `acceptSidTune` lets through.
use libsidplayfp.Base.{
  ℕ, ◌+◌, ◌^◌, ◌<◌, ◌≤◌, ◌≡◌, ◌⊎◌, refl, sym, subst, ◌∙◌, Option, none, some, Bool, Option, List,
  length, get_or, ◌!=◌, leb, arith,
}
use libsidplayfp.Tune.{r64, basic, max_songs, SidTuneBase}
use libsidplayfp.Tune.Result.{loaded, LoadError, data_too_long}
use libsidplayfp.Tune.Accept.{
  fix_songs, reset_play, resolve_load, check_info, check_size, resolve_addrs, fix_load,
  accept_sized, accept_sid_tune, set_sizes, put_data_name, put_info_name,
}
use libsidplayfp.Tune.Accept.Steps.{
  IsSized, IsResolved, IsChecked, >>=-eq-loaded, require-eq-loaded, loaded-inj,
  resolve_load-IsResolved, resolve_init-IsResolved, check_info-IsChecked, fix_load-IsChecked,
  r64_of,
}

-- An accepted tune of `size` bytes
pub record IsPlayable (size : ℕ) (u : SidTuneBase) : Type 0 where
  pub starts : 1 ≤ u.info.start_song
  pub start_in : u.info.start_song ≤ u.info.songs
  pub songs_in : u.info.songs ≤ max_songs
  pub some_data : 1 ≤ u.info.c64data_len
  pub data_in : u.info.c64data_len ≤ 65536
  pub ends : u.file_offset + u.info.c64data_len ≡ size
  pub basic_init : u.info.compatibility ≡ basic → u.info.init_addr ≡ 0
  pub r64_load : u.info.compatibility ≡ r64 → 0x07e8 ≤ u.info.load_addr
  pub r64_above : u.info.compatibility ≡ r64 → u.info.load_addr ≤ u.info.init_addr
  pub r64_below :
      u.info.compatibility ≡ r64 → u.info.init_addr < u.info.load_addr + u.info.c64data_len
  pub r64_init :
      u.info.compatibility ≡ r64
      → (u.info.init_addr < 0xa000) ⊎ ((0xc000 ≤ u.info.init_addr) × (u.info.init_addr < 0xd000))

check_size-IsPlayable :
    {size : ℕ} (buf : List ℕ) (t : SidTuneBase) {u : SidTuneBase}
    → size < 2 ^ 32
    → IsChecked size t
    → check_size buf t ≡ loaded u
    → IsPlayable size u × (u.cache ≡ buf)
unfolding check_size
check_size-IsPlayable {size} buf t small c e =
    let (most, rest) = require-eq-loaded (leb t.info.c64data_len 65536) data_too_long _ e in
    let (least, done) = require-eq-loaded (t.info.c64data_len != 0) LoadError.empty _ rest in
    let r = c.resolved in
    let low : 1 ≤ t.info.c64data_len = ground arith in
    let high : t.info.c64data_len ≤ 65536 = ground arith in
    let rsid = r64_of t c high low in
    subst (λ (v : SidTuneBase). IsPlayable size v × (v.cache ≡ buf)) (sym (loaded-inj done))
      (
        record {
          starts = r.starts;
          start_in = r.start_in;
          songs_in = r.songs_in;
          some_data = low;
          data_in = high;
          ends = omega arith;
          basic_init = c.basic_init;
          r64_load = λ same. (rsid same).0;
          r64_above = λ same. (rsid same).1;
          r64_below = λ same. (rsid same).2;
          r64_init = λ same. (rsid same).3;
        },
        refl,
      )

reset_play-IsSized : {size : ℕ} {t : SidTuneBase} → IsSized size t → IsSized size (reset_play t)
unfolding reset_play
reset_play-IsSized s = omega arith

resolve_addrs-IsResolved :
    {size : ℕ} (buf : List ℕ) (t : SidTuneBase) {u : SidTuneBase}
    → ((i : ℕ) → get_or buf i 0 < 256)
    → IsSized size t
    → resolve_addrs buf t ≡ loaded u
    → IsResolved size u × (u.info.compatibility ≡ basic → u.info.init_addr ≡ 0)
unfolding resolve_addrs
resolve_addrs-IsResolved {size} buf t bytes s e =
    let (u, loads, inits) = >>=-eq-loaded (resolve_load buf (reset_play t)) _ e in
    let r = resolve_load-IsResolved buf bytes size (reset_play t) (reset_play-IsSized s) loads in
    let (kept, same, init) =
      resolve_init-IsResolved buf bytes size u.info.compatibility u refl r inits in
    (kept, λ is_basic. init (sym same ∙ is_basic))

accept_sized-IsPlayable :
    {size : ℕ} (buf : List ℕ) (t : SidTuneBase) {u : SidTuneBase}
    → ((i : ℕ) → get_or buf i 0 < 256)
    → size < 2 ^ 32
    → IsSized size t
    → accept_sized buf t ≡ loaded u
    → IsPlayable size u × (u.cache ≡ buf)
unfolding accept_sized
accept_sized-IsPlayable {size} buf t bytes small s e =
    let (u, resolve, checks) = >>=-eq-loaded (resolve_addrs buf t) _ e in
    let (v, check, fixes) = >>=-eq-loaded (check_info u) _ checks in
    let (w, fix, last) = >>=-eq-loaded (fix_load buf v) _ fixes in
    let (r, basic_init) = resolve_addrs-IsResolved buf t bytes s resolve in
    check_size-IsPlayable buf w small
      (fix_load-IsChecked buf v (check_info-IsChecked u r basic_init check) fix) last

-- The fields that a loader sets fit their types.
pub record IsLoaded (t : SidTuneBase) : Type 0 where
  pub load_word : t.info.load_addr < 65536
  pub init_word : t.info.init_addr < 65536
  pub offset_word : t.file_offset < 65536

set_sizes-IsSized :
    (buf : List ℕ) (t : SidTuneBase)
    → IsLoaded t
    → length buf < 2 ^ 32
    → IsSized (length buf) (set_sizes buf t)
unfolding set_sizes fix_songs
set_sizes-IsSized buf t l small = ground arith

-- The tune with the names of its files
abbrev pub named :
    (ℕ → Bool) → (data_name info_name : Option (List ℕ)) → Bool → SidTuneBase → SidTuneBase
named is_separator data_name info_name slashed t = record t {
  info =
      put_info_name is_separator info_name slashed
        (put_data_name is_separator data_name slashed t.info);
}

named-IsLoaded :
    (is_separator : ℕ → Bool) (data_name info_name : Option (List ℕ)) (slashed : Bool)
    (t : SidTuneBase)
    → IsLoaded t
    → IsLoaded (named is_separator data_name info_name slashed t)
unfolding put_info_name put_data_name
named-IsLoaded is_separator none none slashed t l = l
named-IsLoaded is_separator (some d) none slashed t l = omega arith
named-IsLoaded is_separator none (some i) slashed t l = omega arith
named-IsLoaded is_separator (some d) (some i) slashed t l = omega arith

-- A tune that `acceptSidTune` lets through is playable: it has 1 to 256 songs and a start song among
-- them, and 1 to 65536 bytes of data, which end with the file, wherever the header says that they
-- start. A BASIC tune has no init address; an RSID tune is loaded at $07E8 or above, and its init
-- address is inside its data, in RAM that no ROM or IO covers. The loader's fields are words.
pub accept_sid_tune-IsPlayable :
    (is_separator : ℕ → Bool) (data_name info_name : Option (List ℕ)) (buf : List ℕ)
    (slashed : Bool) (t : SidTuneBase) {u : SidTuneBase}
    → ((i : ℕ) → get_or buf i 0 < 256)
    → length buf < 2 ^ 32
    → IsLoaded t
    → accept_sid_tune is_separator data_name info_name buf slashed t ≡ loaded u
    → IsPlayable (length buf) u × (u.cache ≡ buf)
unfolding accept_sid_tune
accept_sid_tune-IsPlayable is_separator data_name info_name buf slashed t bytes small l e =
    let n = named-IsLoaded is_separator data_name info_name slashed t l in
    accept_sized-IsPlayable buf (set_sizes buf (named is_separator data_name info_name slashed t))
      bytes small (set_sizes-IsSized buf (named is_separator data_name info_name slashed t) n small)
      e
