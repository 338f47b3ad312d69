-- ===== src/Tune/Accept/Steps.antt =====
-- src/sidtune/SidTuneBase.cpp: what the steps of `acceptSidTune` keep.
use libsidplayfp.Base.{
  ℕ, ◌+◌, ◌%◌, ◌^◌, ◌<◌, ◌≤◌, ◌≡◌, ◌⊎◌, inl, inr, refl, sym, subst, ◌∙◌, Bool, true, false, List,
  length, get_or, ◌==◌, ltb, leb, arith, Bool-cases,
}
use libsidplayfp.Endian.Laws.{endian_16_lem}
use libsidplayfp.Tune.{Compatibility, r64, basic, max_songs, SidTuneBase}
use libsidplayfp.Tune.Result.{
  Load, loaded, failed, overrun, LoadError, corrupt, bad_reloc, bad_addr, ◌>>=◌, ◌>>◌, require,
  read_at, read_at-lt, read_at-ge,
}
use libsidplayfp.Tune.Accept.{
  resolve_load, take_load_addr, put_load_addr, check_info, read_fix_load, resolve_init,
  check_reloc_info, check_compatibility, fix_load,
}

pub >>=-eq-loaded :
    {A B : Type 0} (m : Load A) (f : A → Load B) {b : B}
    → (m >>= f) ≡ loaded b
    → (a : A) × (m ≡ loaded a) × (f a ≡ loaded b)
>>=-eq-loaded (loaded a) f h = (a, refl, h)
>>=-eq-loaded (failed e) f h = cc
>>=-eq-loaded overrun f h = cc

pub require-eq-loaded :
    {B : Type 0} (test : Bool) (e : LoadError) (m : Load B) {b : B}
    → (require test e >> m) ≡ loaded b
    → (test ≡ true) × (m ≡ loaded b)
require-eq-loaded true e m h = (refl, h)
require-eq-loaded false e m h = cc

pub read_at-bound :
    (buf : List ℕ) (i : ℕ) {x : ℕ} → get_or buf i 0 < 256 → read_at buf i ≡ loaded x → x < 256
read_at-bound buf i small h = elim (Bool-cases (ltb i (length buf))) [
  | inl inside ↦ ground (arith, read_at-lt buf i)
  | inr outside ↦ ground (arith, read_at-ge buf i)
]

-- What the steps behind the sizes keep and what they need
pub record IsSized (size : ℕ) (t : SidTuneBase) : Type 0 where
  pub starts : 1 ≤ t.info.start_song
  pub start_in : t.info.start_song ≤ t.info.songs
  pub songs_in : t.info.songs ≤ max_songs
  pub len_word : t.info.c64data_len < 2 ^ 32
  pub load_word : t.info.load_addr < 65536
  pub init_word : t.info.init_addr < 65536
  pub offset_low : t.file_offset < 65536
  pub ends : (t.file_offset + t.info.c64data_len) % 2 ^ 32 ≡ size

pub record IsResolved (size : ℕ) (t : SidTuneBase) : Type 0 where
  pub starts : 1 ≤ t.info.start_song
  pub start_in : t.info.start_song ≤ t.info.songs
  pub songs_in : t.info.songs ≤ max_songs
  pub len_word : t.info.c64data_len < 2 ^ 32
  pub load_word : t.info.load_addr < 65536
  pub init_word : t.info.init_addr < 65536
  pub offset_low : t.file_offset < 65538
  pub ends : (t.file_offset + t.info.c64data_len) % 2 ^ 32 ≡ size

pub loaded-inj : {A : Type 0} {a b : A} → loaded a ≡ loaded b → b ≡ a
loaded-inj h = cc

module _ (buf : List ℕ) (bytes : (i : ℕ) → get_or buf i 0 < 256) (size : ℕ) where
  put_load_addr-IsResolved :
      {t : SidTuneBase} (hi lo : ℕ)
      → IsSized size t
      → 2 ≤ t.info.c64data_len
      → hi < 256
      → lo < 256
      → IsResolved size (put_load_addr t hi lo)
  unfolding put_load_addr
  put_load_addr-IsResolved hi lo s h k l = omega (arith, endian_16_lem hi lo l)

  take_load_addr-IsResolved :
      (t : SidTuneBase) {u : SidTuneBase}
      → IsSized size t
      → 2 ≤ t.info.c64data_len
      → take_load_addr buf t ≡ loaded u
      → IsResolved size u
  unfolding take_load_addr
  take_load_addr-IsResolved t s h e =
      let (hi, read_hi, rest) = >>=-eq-loaded (read_at buf (t.file_offset + 1)) _ e in
      let (lo, read_lo, done) = >>=-eq-loaded (read_at buf t.file_offset) _ rest in
      subst (IsResolved size) (sym (loaded-inj done)) (
        put_load_addr-IsResolved hi lo s h
          (read_at-bound buf (t.file_offset + 1) (bytes (t.file_offset + 1)) read_hi)
          (read_at-bound buf t.file_offset (bytes t.file_offset) read_lo))

  IsSized-IsResolved : {t : SidTuneBase} → IsSized size t → IsResolved size t
  IsSized-IsResolved s = omega arith

  pub resolve_load-IsResolved :
      (t : SidTuneBase) {u : SidTuneBase}
      → IsSized size t
      → resolve_load buf t ≡ loaded u
      → IsResolved size u
  unfolding resolve_load
  resolve_load-IsResolved t s e = elim (Bool-cases (t.info.load_addr == 0)) [
    | inl none_given ↦
        let (enough, rest) =
          require-eq-loaded (leb 2 t.info.c64data_len) corrupt (take_load_addr buf t)
            (rw none_given at e) in
        take_load_addr-IsResolved t s (ground arith) rest
    | inr given ↦ subst (IsResolved size) (sym (loaded-inj (rw given at e))) (IsSized-IsResolved s)
  ]

  pub resolve_init-IsResolved :
      (c : Compatibility) (t : SidTuneBase) {u : SidTuneBase}
      → t.info.compatibility ≡ c
      → IsResolved size t
      → resolve_init c t ≡ loaded u
      → IsResolved size u × (u.info.compatibility ≡ c) × (c ≡ basic → u.info.init_addr ≡ 0)
  unfolding resolve_init
  resolve_init-IsResolved basic t same r e = ground arith
  resolve_init-IsResolved other t same r e = ground arith

-- What the checks of the addresses leave
pub record IsChecked (size : ℕ) (t : SidTuneBase) : Type 0 where
  pub resolved : IsResolved size t
  pub basic_init : t.info.compatibility ≡ basic → t.info.init_addr ≡ 0
  pub compatible : check_compatibility t.info.compatibility t.info ≡ true

relocated : SidTuneBase → SidTuneBase
relocated t = record t { info = (check_reloc_info t.info).1 }

relocated-IsResolved :
    {size : ℕ} (t : SidTuneBase)
    → IsResolved size t
    → IsResolved size (relocated t)
      × ((relocated t).info.compatibility ≡ t.info.compatibility)
      × ((relocated t).info.init_addr ≡ t.info.init_addr)
unfolding relocated check_reloc_info
relocated-IsResolved t r = ground arith

pub check_info-IsChecked :
    {size : ℕ} (t : SidTuneBase) {u : SidTuneBase}
    → IsResolved size t
    → (t.info.compatibility ≡ basic → t.info.init_addr ≡ 0)
    → check_info t ≡ loaded u
    → IsChecked size u
unfolding check_info relocated
check_info-IsChecked {size} t r b e =
    let (reloc_ok, rest) = require-eq-loaded _ bad_reloc _ e in
    let (compatible, done) = require-eq-loaded _ bad_addr _ rest in
    let (kept, same, init) = relocated-IsResolved t r in
    subst (IsChecked size) (sym (loaded-inj done)) (record {
      resolved = kept;
      basic_init = λ is_basic. init ∙ b (sym same ∙ is_basic);
      compatible = compatible;
    })

put_fix_load : Bool → SidTuneBase → SidTuneBase
put_fix_load b t = record t { info = record t.info { fix_load = b } }

check_compatibility-put_fix_load :
    (c : Compatibility) (b : Bool) (t : SidTuneBase)
    → check_compatibility c (put_fix_load b t).info ≡ check_compatibility c t.info
unfolding check_compatibility put_fix_load
check_compatibility-put_fix_load r64 b t = refl
check_compatibility-put_fix_load other b t = refl

put_fix_load-IsChecked :
    {size : ℕ} (b : Bool) {t : SidTuneBase} → IsChecked size t → IsChecked size (put_fix_load b t)
unfolding put_fix_load
put_fix_load-IsChecked b {t} c = record {
  resolved = omega arith;
  basic_init = c.basic_init;
  compatible = check_compatibility-put_fix_load t.info.compatibility b t ∙ c.compatible;
}

pub fix_load-IsChecked :
    {size : ℕ} (buf : List ℕ) (t : SidTuneBase) {u : SidTuneBase}
    → IsChecked size t
    → fix_load buf t ≡ loaded u
    → IsChecked size u
unfolding fix_load read_fix_load put_fix_load
fix_load-IsChecked {size} buf t c e = elim (Bool-cases (leb 2 t.info.data_file_len)) [
  | inr short ↦ subst (IsChecked size) (sym (loaded-inj (rw short at e))) c
  | inl long ↦
      let (lo, read_lo, rest) = >>=-eq-loaded (read_at buf t.file_offset) _ (rw long at e) in
      let (hi, read_hi, done) = >>=-eq-loaded (read_at buf (t.file_offset + 1)) _ rest in
      subst (IsChecked size) (sym (loaded-inj done)) (put_fix_load-IsChecked _ c)
]

r64_lem :
    {size : ℕ} (u : SidTuneBase)
    → IsResolved size u
    → u.info.c64data_len ≤ 65536
    → 1 ≤ u.info.c64data_len
    → check_compatibility r64 u.info ≡ true
    → (0x07e8 ≤ u.info.load_addr)
      × (u.info.load_addr ≤ u.info.init_addr)
      × (u.info.init_addr < u.info.load_addr + u.info.c64data_len)
      × ((u.info.init_addr < 0xa000) ⊎ ((0xc000 ≤ u.info.init_addr) × (u.info.init_addr < 0xd000)))
unfolding check_compatibility
r64_lem u r most least h = ground arith

pub r64_of :
    {size : ℕ} (u : SidTuneBase)
    → IsChecked size u
    → u.info.c64data_len ≤ 65536
    → 1 ≤ u.info.c64data_len
    → u.info.compatibility ≡ r64
    → (0x07e8 ≤ u.info.load_addr)
      × (u.info.load_addr ≤ u.info.init_addr)
      × (u.info.init_addr < u.info.load_addr + u.info.c64data_len)
      × ((u.info.init_addr < 0xa000) ⊎ ((0xc000 ≤ u.info.init_addr) × (u.info.init_addr < 0xd000)))
r64_of u c most least same =
    r64_lem u c.resolved most least
      (subst (λ (k : Compatibility). check_compatibility k u.info ≡ true) same c.compatible)
