-- ===== src/Reloc.antt =====
-- src/reloc65.h and reloc65.cpp: the relocator of o65 files. The buffer is a function on indices,
-- and a pointer is an index. The loops that end at a zero byte run on fuel, none when it is spent.
pub mod Tables
mod Tests
use libsidplayfp.Base.{
  put_at, ℕ, zero, suc, ◌+◌, ◌-◌, ◌*◌, ◌/◌, ◌%◌, ◌^◌, bit_and, bit_or, Bool, true, false, not, ◌&&◌,
  ◌||◌, ◌==◌, ◌!=◌, if◌then◌else◌, Option, none, some,
}

-- A step that gives a result goes on to the next.
infixl 5 ◌>>=◌
abbrev ◌>>=◌ : {A B : Type 0} → Option A → (A → Option B) → Option B
none >>= f = none
some a >>= f = f a

abbrev pub header_size : ℕ
header_size = 8 + 9 * 2

abbrev pub Buffer : Type 0
Buffer = ℕ → ℕ

-- `getWord` and `setWord`
unfoldable pub get_word : Buffer → ℕ → ℕ
get_word buffer idx = bit_or (buffer idx) (buffer (idx + 1) * 2 ^ 8)

unfoldable pub set_word : Buffer → ℕ → ℕ → Buffer
set_word buffer idx value =
    put_at (put_at buffer idx (bit_and value 0xff)) (idx + 1) (bit_and (value / 2 ^ 8) 0xff)

-- `memcmp(buf, o65hdr, 5) == 0`
unfoldable pub is_o65 : Buffer → Bool
is_o65 buf =
    (buf 0 == 1) && ((buf 1 == 0) && ((buf 2 == 0x6f) && ((buf 3 == 0x36) && (buf 4 == 0x35))))

-- `read_options`: the loop has added `l` so far.
unfoldable pub read_options : (fuel : ℕ) → Buffer → (base l : ℕ) → Option ℕ
read_options zero buf base l = none
read_options (suc fuel) buf base l =
    let c = buf (base + l) in
    let rest = read_options fuel buf base (l + c) in if c == 0 then some (l + 1) else rest

-- The inner loop of `read_undef`, from `l` on
unfoldable pub skip_zeros : (fuel : ℕ) → Buffer → (base l : ℕ) → Option ℕ
skip_zeros zero buf base l = none
skip_zeros (suc fuel) buf base l =
    let rest = skip_zeros fuel buf base (l + 1) in
    if buf (base + l) == 0 then rest else some (l + 1)

unfoldable pub read_names : (fuel : ℕ) → Buffer → (base n l : ℕ) → Option ℕ
read_names fuel buf base zero l = some l
read_names fuel buf base (suc n) l = elim (skip_zeros fuel buf base l) [
  | none ↦ none
  | some l' ↦ read_names fuel buf base n l'
]

-- `read_undef`
unfoldable pub read_undef : (fuel : ℕ) → Buffer → (base : ℕ) → Option ℕ
read_undef fuel buf base = read_names fuel buf base (get_word buf base) 2

-- `reldiff`; `m_tdiff` is modulo 2 ^ 16, as every sum with it is stored in at most 16 bits.
unfoldable pub reldiff : (m_tdiff s : ℕ) → ℕ
reldiff m_tdiff s = if s == 2 then m_tdiff else 0

-- The `else` branch of the loop of `reloc_seg`: `place` is `buf + adr`, and `rtab` is at the type.
unfoldable pub reloc_entry : (m_tdiff place rtab : ℕ) → Buffer → ℕ × Buffer
reloc_entry m_tdiff place rtab mem =
    let kind = bit_and (mem rtab) 0xe0 in
    let seg = bit_and (mem rtab) 0x07 in
    let diff = reldiff m_tdiff seg in
    let word = get_word mem place + diff in
    let high = mem place * 256 + mem (rtab + 1) + diff in
    let low = mem place + diff in
    let after = if kind == 0x40 then rtab + 2 else rtab + 1 in
    let mem' : Buffer =
      if kind == 0x80
      then set_word mem place word
      else if kind == 0x40
      then put_at (put_at mem place (bit_and (high / 2 ^ 8) 255)) (rtab + 1) (bit_and high 255)
      else if kind == 0x20
      then put_at mem place (bit_and low 255)
      else mem in
    (if seg == 0 then after + 2 else after, mem')

-- `reloc_seg`: `next` is `buf + adr + 1`, as `adr` starts at -1.
unfoldable pub reloc_seg : (fuel m_tdiff next rtab : ℕ) → Buffer → Option (ℕ × Buffer)
reloc_seg zero m_tdiff next rtab mem = none
reloc_seg (suc fuel) m_tdiff next rtab mem =
    let code = mem rtab in
    let (after, mem') = reloc_entry m_tdiff (next + code - 1) (rtab + 1) mem in
    let far = code == 255 in
    let rest =
      reloc_seg fuel m_tdiff (if far then next + 254 else next + code)
        (if far then rtab + 1 else after) (if far then mem else mem') in
    if code == 0 then some (rtab + 1, mem) else rest

-- `while (*(buf++)) {}`
unfoldable pub skip_name : (fuel : ℕ) → Buffer → ℕ → Option ℕ
skip_name zero mem buf = none
skip_name (suc fuel) mem buf =
    let rest = skip_name fuel mem (buf + 1) in if mem buf == 0 then some (buf + 1) else rest

unfoldable pub global_entry : (m_tdiff buf : ℕ) → Buffer → Buffer
global_entry m_tdiff buf mem =
    set_word mem (buf + 1) (get_word mem (buf + 1) + reldiff m_tdiff (mem buf))

unfoldable pub globals : (fuel m_tdiff n buf : ℕ) → Buffer → Option (ℕ × Buffer)
globals fuel m_tdiff zero buf mem = some (buf, mem)
globals fuel m_tdiff (suc n) buf mem = elim (skip_name fuel mem buf) [
  | none ↦ none
  | some name_end ↦ globals fuel m_tdiff n (name_end + 3) (global_entry m_tdiff name_end mem)
]

-- `reloc_globals`
unfoldable pub reloc_globals : (fuel m_tdiff buf : ℕ) → Buffer → Option (ℕ × Buffer)
reloc_globals fuel m_tdiff buf mem = globals fuel m_tdiff (get_word mem buf) (buf + 2) mem

-- What `reloc` gives: false, or true with the text segment's index and size
pub data Relocated : Type 0 where
  refused : Relocated
  relocated : (segt tlen : ℕ) → Buffer → Relocated

-- `reloc` after its checks
unfoldable pub reloc_file : (fuel m_tbase : ℕ) → Buffer → Option Relocated
reloc_file fuel m_tbase buf = do
  options ← read_options fuel buf header_size 0
  let tbase = get_word buf 8
  let tlen = get_word buf 10
  let m_tdiff = (m_tbase + 2 ^ 16 - tbase) % 2 ^ 16
  let dlen = get_word buf 14
  let segt = header_size + options
  let segd = segt + tlen
  let utab = segd + dlen
  undef ← read_undef fuel buf utab
  (rdtab, mem1) ← reloc_seg fuel m_tdiff segt (utab + undef) buf
  (extab, mem2) ← reloc_seg fuel m_tdiff segd rdtab mem1
  (end, mem3) ← reloc_globals fuel m_tdiff extab mem2
  some (relocated segt tlen (set_word mem3 8 m_tbase))

-- `reloc`
unfoldable pub reloc : (fuel m_tbase : ℕ) → Buffer → Option Relocated
reloc fuel m_tbase buf =
    let mode = get_word buf 6 in
    if not (is_o65 buf)
    then some refused
    else if (bit_and mode 0x2000 != 0) || (bit_and mode 0x4000 != 0)
    then some refused
    else reloc_file fuel m_tbase buf
