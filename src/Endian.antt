-- ===== src/Endian.antt =====
-- src/sidendian.h: bytes and words, for the `uint_least16_t` and `uint_least32_t` of exactly 16
-- and 32 bits. A setter returns the new word; a pointer that is written is the list of the bytes.
pub mod Laws
use libsidplayfp.Base.{ℕ, ◌*◌, ◌/◌, ◌%◌, ◌^◌, bit_and, bit_or, List, [], ◌∷◌}

-- INT16: bytes of a word
unfoldable pub set_16lo8 : ℕ → ℕ → ℕ
set_16lo8 word byte = bit_or (bit_and word 0xff00) byte

unfoldable pub get_16lo8 : ℕ → ℕ
get_16lo8 word = word % 256

unfoldable pub set_16hi8 : ℕ → ℕ → ℕ
set_16hi8 word byte = bit_or (bit_and word 0x00ff) (byte * 2 ^ 8)

unfoldable pub get_16hi8 : ℕ → ℕ
get_16hi8 word = word / 2 ^ 8 % 256

unfoldable pub swap_16 : ℕ → ℕ
swap_16 word =
    let lo = get_16lo8 word in let hi = get_16hi8 word in set_16hi8 (set_16lo8 word hi) lo

unfoldable pub endian_16 : ℕ → ℕ → ℕ
endian_16 hi lo = set_16hi8 (set_16lo8 0 lo) hi

unfoldable pub read_little16 : (b0 b1 : ℕ) → ℕ
read_little16 b0 b1 = endian_16 b1 b0

unfoldable pub write_little16 : ℕ → ℕ × ℕ
write_little16 word = (get_16lo8 word, get_16hi8 word)

unfoldable pub read_big16 : (b0 b1 : ℕ) → ℕ
read_big16 b0 b1 = endian_16 b0 b1

unfoldable pub write_big16 : ℕ → ℕ × ℕ
write_big16 word = (get_16hi8 word, get_16lo8 word)

-- INT32: words and bytes of a double word
unfoldable pub set_32lo16 : ℕ → ℕ → ℕ
set_32lo16 dword word = bit_or (bit_and dword 0xffff0000) word

unfoldable pub get_32lo16 : ℕ → ℕ
get_32lo16 dword = bit_and (dword % 2 ^ 16) 0xffff

unfoldable pub set_32hi16 : ℕ → ℕ → ℕ
set_32hi16 dword word = bit_or (bit_and dword 0x0000ffff) (word * 2 ^ 16)

unfoldable pub get_32hi16 : ℕ → ℕ
get_32hi16 dword = dword / 2 ^ 16 % 2 ^ 16

unfoldable pub set_32lo8 : ℕ → ℕ → ℕ
set_32lo8 dword byte = bit_or (bit_and dword 0xffffff00) byte

unfoldable pub get_32lo8 : ℕ → ℕ
get_32lo8 dword = dword % 256

unfoldable pub set_32hi8 : ℕ → ℕ → ℕ
set_32hi8 dword byte = bit_or (bit_and dword 0xffff00ff) (byte * 2 ^ 8)

unfoldable pub get_32hi8 : ℕ → ℕ
get_32hi8 dword = dword / 2 ^ 8 % 256

unfoldable pub swap16_32 : ℕ → ℕ
swap16_32 dword =
    let lo = get_32lo16 dword in let hi = get_32hi16 dword in set_32hi16 (set_32lo16 dword hi) lo

unfoldable pub swap8_32 : ℕ → ℕ
swap8_32 dword =
    let lo = swap_16 (get_32lo16 dword) in
    let hi = swap_16 (get_32hi16 dword) in set_32hi16 (set_32lo16 dword hi) lo

unfoldable pub endian_32 : (hihi hilo hi lo : ℕ) → ℕ
endian_32 hihi hilo hi lo =
    set_32hi16 (set_32hi8 (set_32lo8 0 lo) hi) (set_16hi8 (set_16lo8 0 hilo) hihi)

unfoldable pub read_little32 : (b0 b1 b2 b3 : ℕ) → ℕ
read_little32 b0 b1 b2 b3 = endian_32 b3 b2 b1 b0

unfoldable pub write_little32 : ℕ → ℕ × ℕ × ℕ × ℕ
write_little32 dword =
    let word = get_32hi16 dword in
    (get_32lo8 dword, get_32hi8 dword, get_16lo8 word, get_16hi8 word)

unfoldable pub read_big32 : (b0 b1 b2 b3 : ℕ) → ℕ
read_big32 b0 b1 b2 b3 = endian_32 b0 b1 b2 b3

unfoldable pub write_big32 : ℕ → ℕ × ℕ × ℕ × ℕ
write_big32 dword =
    let word = get_32hi16 dword in
    (get_16hi8 word, get_16lo8 word, get_32hi8 dword, get_32lo8 dword)
