-- ===== src/Endian/Laws.antt =====
-- src/sidendian.h: what the setters, getters and swaps compute, and the round trips.
use libsidplayfp.Base.{
  ℕ, ◌+◌, ◌*◌, ◌/◌, ◌%◌, ◌^◌, ◌<◌, ◌≡◌, bit_and, arith, bit_and-0xff, bit_and-0xff00,
  bit_and-0xffff, bit_or_fields, bit_or_low, bit_and_shifted, bit_and_split, zero-bit_or,
}
use libsidplayfp.Endian.{
  set_16lo8, get_16lo8, set_16hi8, get_16hi8, swap_16, endian_16, read_little16, write_little16,
  read_big16, write_big16, set_32lo16, get_32lo16, set_32hi16, get_32hi16, set_32lo8, get_32lo8,
  set_32hi8, get_32hi8, swap16_32, swap8_32, endian_32, read_little32, write_little32, read_big32,
  write_big32,
}

-- Every setter keeps the other half and puts the new one in place.
pub set_16lo8_lem : (w b : ℕ) → w < 65536 → b < 256 → set_16lo8 w b ≡ w / 256 * 256 + b
unfolding set_16lo8
set_16lo8_lem w b hw hb =
    rw (bit_and-0xff00 w) (omega (arith, bit_or_fields 8 (w / 256 % 256) b hb))

pub set_16hi8_lem : (w b : ℕ) → set_16hi8 w b ≡ b * 256 + w % 256
unfolding set_16hi8
set_16hi8_lem w b = rw (bit_and-0xff w) (omega (arith, bit_or_low 8 b (w % 256) (omega arith)))

pub endian_16_lem : (hi lo : ℕ) → lo < 256 → endian_16 hi lo ≡ hi * 256 + lo
unfolding endian_16
endian_16_lem hi lo h =
    omega (arith, set_16hi8_lem (set_16lo8 0 lo) hi, set_16lo8_lem 0 lo (omega arith) h)

-- The word with its bytes exchanged.
pub swap_16_lem : (w : ℕ) → w < 65536 → swap_16 w ≡ w % 256 * 256 + w / 256
unfolding swap_16 get_16lo8 get_16hi8
swap_16_lem w h = omega (
  arith,
  set_16hi8_lem (set_16lo8 w (w / 256 % 256)) (w % 256),
  set_16lo8_lem w (w / 256 % 256) h (omega arith),
)

-- Exchanging the bytes of a word twice gives it back.
pub swap_16-swap_16 : (w : ℕ) → w < 65536 → swap_16 (swap_16 w) ≡ w
swap_16-swap_16 w h =
    omega (arith, swap_16_lem w h, swap_16_lem (swap_16 w) (omega (arith, swap_16_lem w h)))

set_32lo16_lem : (d w : ℕ) → d < 2 ^ 32 → w < 65536 → set_32lo16 d w ≡ d / 65536 * 65536 + w
unfolding set_32lo16
set_32lo16_lem d w hd hw =
    rw (high d) (
      omega (arith, bit_or_fields 16 (bit_and (d / 65536) 0xffff) w hw, bit_and-0xffff (d / 65536)))
  where
    high : (d : ℕ) → bit_and d 0xffff0000 ≡ bit_and (d / 65536) 0xffff * 65536
    high d = bit_and_shifted 16 d 0xffff

set_32hi16_lem : (d w : ℕ) → set_32hi16 d w ≡ w * 65536 + d % 65536
unfolding set_32hi16
set_32hi16_lem d w =
    rw (bit_and-0xffff d) (omega (arith, bit_or_low 16 w (d % 65536) (omega arith)))

get_32lo16_lem : (d : ℕ) → get_32lo16 d ≡ d % 65536
unfolding get_32lo16
get_32lo16_lem d = omega (arith, bit_and-0xffff (d % 65536))

set_32lo8_lem : (b : ℕ) → b < 256 → set_32lo8 0 b ≡ b
unfolding set_32lo8
set_32lo8_lem b h = zero-bit_or b

set_32hi8_lem : (d b : ℕ) → d < 256 → set_32hi8 d b ≡ b * 256 + d
unfolding set_32hi8
set_32hi8_lem d b h = rw (low d h) (omega (arith, bit_or_low 8 b d h))
  where
    low : (d : ℕ) → d < 256 → bit_and d 0xffff00ff ≡ d
    low d h = ground (arith, bit_and_split 8 0 d 0xffff00 0xff h, bit_and-0xff d)

-- Four bytes as a double word, the first the most significant.
pub endian_32_lem :
    (hihi hilo hi lo : ℕ)
    → hilo < 256
    → hi < 256
    → lo < 256
    → endian_32 hihi hilo hi lo ≡ hihi * 2 ^ 24 + hilo * 2 ^ 16 + hi * 2 ^ 8 + lo
unfolding endian_32
endian_32_lem hihi hilo hi lo h1 h2 h3 = omega (
  arith,
  set_32lo8_lem lo h3,
  set_32hi8_lem (set_32lo8 0 lo) hi (omega (arith, set_32lo8_lem lo h3)),
  set_16lo8_lem 0 hilo (omega arith) h1,
  set_16hi8_lem (set_16lo8 0 hilo) hihi,
  set_32hi16_lem (set_32hi8 (set_32lo8 0 lo) hi) (set_16hi8 (set_16lo8 0 hilo) hihi),
)

swap16_32_lem : (d : ℕ) → d < 2 ^ 32 → swap16_32 d ≡ d % 65536 * 65536 + d / 65536
unfolding swap16_32 get_32hi16
swap16_32_lem d h = omega (
  arith,
  get_32lo16_lem d,
  set_32lo16_lem d (d / 65536 % 65536) h (omega arith),
  set_32hi16_lem (set_32lo16 d (d / 65536 % 65536)) (get_32lo16 d),
)

swap8_32_lem :
    (d : ℕ)
    → d < 2 ^ 32
    → swap8_32 d
      ≡ d % 256 * 2 ^ 24 + d / 2 ^ 8 % 256 * 2 ^ 16 + d / 2 ^ 16 % 256 * 2 ^ 8 + d / 2 ^ 24
unfolding swap8_32 get_32hi16
swap8_32_lem d h =
    let low : swap_16 (get_32lo16 d) ≡ d % 256 * 256 + d / 256 % 256 =
      omega
        (arith, get_32lo16_lem d, swap_16_lem (get_32lo16 d) (omega (arith, get_32lo16_lem d))) in
    let high : swap_16 (d / 65536 % 65536) ≡ d / 2 ^ 16 % 256 * 256 + d / 2 ^ 24 =
      omega (arith, swap_16_lem (d / 65536 % 65536) (omega arith)) in
    omega (
      arith,
      set_32lo16_lem d (swap_16 (d / 65536 % 65536)) h (omega arith),
      set_32hi16_lem (set_32lo16 d (swap_16 (d / 65536 % 65536))) (swap_16 (get_32lo16 d)),
    )

-- Exchanging the two words of a double word twice, or all of its bytes twice, gives it back.
pub swap_32-swap_32 :
    (d : ℕ) → d < 2 ^ 32 → (swap16_32 (swap16_32 d) ≡ d) × (swap8_32 (swap8_32 d) ≡ d)
swap_32-swap_32 d h =
    let once = swap16_32_lem d h in
    let twice = swap16_32_lem (swap16_32 d) (omega arith) in
    let all_once = swap8_32_lem d h in
    let all_twice = swap8_32_lem (swap8_32 d) (omega arith) in omega arith

-- A word that the writers store is read back, in both byte orders, and the byte orders are as
-- named: the first byte is the least significant in little-endian, the most significant in big-endian.
pub read-write_16 :
    (w : ℕ)
    → w < 2 ^ 16
    → (let (b0, b1) = write_little16 w in (read_little16 b0 b1 ≡ w) × (b0 ≡ w % 256))
      × (let (b0, b1) = write_big16 w in (read_big16 b0 b1 ≡ w) × (b0 ≡ w / 256))
unfolding read_little16 write_little16 read_big16 write_big16 get_16lo8 get_16hi8
read-write_16 w h = omega (arith, endian_16_lem (w / 256 % 256) (w % 256))

-- A double word that the writers store is read back, in both byte orders; the first byte is the
-- least significant in little-endian, the most significant in big-endian.
pub read-write_32 :
    (d : ℕ)
    → d < 2 ^ 32
    → (let (b0, b1, b2, b3) = write_little32 d in (read_little32 b0 b1 b2 b3 ≡ d) × (b0 ≡ d % 256))
      × (let (b0, b1, b2, b3) = write_big32 d in (read_big32 b0 b1 b2 b3 ≡ d) × (b0 ≡ d / 2 ^ 24))
unfolding read_little32 write_little32 read_big32 write_big32 get_16lo8 get_16hi8 get_32lo8
    get_32hi8 get_32hi16
read-write_32 d h = omega (
  arith,
  endian_32_lem (d / 65536 % 65536 / 256 % 256) (d / 65536 % 65536 % 256) (d / 256 % 256) (d % 256)
      (omega arith) (omega arith) (omega arith),
)
