-- ===== src/Tune/Speeds.antt =====
-- src/sidtune/SidTuneBase.cpp: the speed table of a tune, and the song that is selected from it.
use libsidplayfp.Base.{
  ℕ, zero, suc, ◌+◌, ◌-◌, ◌/◌, ◌%◌, ◌^◌, ◌<◌, ◌≤◌, ◌≡◌, ◌∙◌, refl, sym, ap, bit_and, bit_and_mask,
  ◌==◌, Bool-cases, inl, inr, Bool, true, false, ◌&&◌, if◌then◌else◌, ltb, leb, bit_and-0x01, arith,
}
use libsidplayfp.Tune.{
  speed_entry, selected_song, SidTuneInfo, Compatibility, Compatibility.c64, Compatibility.psid,
  r64, basic, select_song, song_index, Clock, SidTuneBase, put_entry, speed_of, speed_cia_1a,
  speed_vbi, max_songs, speed_loop, convert_old_style_speed_to_tables,
}
use native.Mathlib.Nat.{pow-suc, div-div-eq-div-mul}

-- The place of the bit of song `j`: all songs above 32 have the bit of song 32.
abbrev pub speed_bit : ℕ → ℕ
speed_bit j = if ltb j 31 then j else 31

abbrev pub speed_by_bit : ℕ → ℕ
speed_by_bit b = if b == 1 then speed_cia_1a else speed_vbi

speed_bit_next : (s : ℕ) → ltb s 31 ≡ true → suc s ≡ speed_bit (s + 1)
speed_bit_next s small = ground arith

speed_bit_end : (s : ℕ) → ltb s 31 ≡ false → 31 ≡ speed_bit (s + 1)
speed_bit_end s large = ground arith

next_speed :
    (v s : ℕ)
    → (if ltb s 31 then v / 2 ^ speed_bit s / 2 ^ 1 else v / 2 ^ speed_bit s)
      ≡ v / 2 ^ speed_bit (s + 1)
next_speed v s = elim (Bool-cases (ltb s 31)) [
  | inl small ↦ rw small (
      div-div-eq-div-mul v (2 ^ s) 2
      ∙ ap (λ (t : ℕ). v / t) (sym (pow-suc 2 s))
      ∙ ap (λ (k : ℕ). v / 2 ^ k) (speed_bit_next s small))
  | inr large ↦ rw large (ap (λ (k : ℕ). v / 2 ^ k) (speed_bit_end s large))
]

module _ (v : ℕ) (clock : Clock) where
  abbrev done : (rounds s j : ℕ) → Bool
  done rounds s j = leb s j && ltb j (s + rounds)

  speed_loop_lem :
      (rounds s speed j : ℕ) (t : SidTuneBase)
      → speed ≡ v / 2 ^ speed_bit s
      → ((speed_loop rounds s speed clock t).song_speeds j
          ≡ (if done rounds s j then speed_by_bit (v / 2 ^ speed_bit j % 2) else t.song_speeds j))
        × ((speed_loop rounds s speed clock t).clock_speeds j
            ≡ (if done rounds s j then clock else t.clock_speeds j))
  unfolding speed_loop
  speed_loop_lem zero s speed j t e = ground arith
  speed_loop_lem (suc rounds) s speed j t e = ground (
    arith,
    bit_and-0x01 speed,
    eq_bit,
    speed_loop_lem rounds (s + 1) (if ltb s 31 then speed / 2 ^ 1 else speed) j
        (record t {
          clock_speeds = put_entry t.clock_speeds s clock;
          song_speeds = put_entry t.song_speeds s (speed_of speed);
        })
        (rw e (next_speed v s)),
  )
    where
      eq_bit : j ≡ s → v / 2 ^ speed_bit j ≡ speed
      eq_bit same = rw same (sym e)

-- The songs that have an entry in the tables
abbrev pub song_count : SidTuneBase → ℕ
song_count t = if ltb t.info.songs max_songs then t.info.songs else max_songs

tables_lem :
    (rounds speed : ℕ) (clock : Clock) (t : SidTuneBase) (j : ℕ)
    → ((speed_loop rounds 0 speed clock t).song_speeds j
        ≡ (if ltb j rounds then speed_by_bit (speed / 2 ^ speed_bit j % 2) else t.song_speeds j))
      × ((speed_loop rounds 0 speed clock t).clock_speeds j
          ≡ (if ltb j rounds then clock else t.clock_speeds j))
tables_lem rounds speed clock t j =
    let e = speed_loop_lem speed clock rounds 0 speed j t (omega arith) in ground arith

-- The tables have the bit of each song, and the clock, up to the last song, and what they had behind.
pub convert_old_style_speed_lem :
    (speed : ℕ) (clock : Clock) (t : SidTuneBase) (j : ℕ)
    → let u = convert_old_style_speed_to_tables speed clock t in
      (u.song_speeds j ≡ (
        if ltb j (song_count t)
        then speed_by_bit (speed / 2 ^ speed_bit j % 2)
        else t.song_speeds j))
      × (u.clock_speeds j ≡ (if ltb j (song_count t) then clock else t.clock_speeds j))
unfolding convert_old_style_speed_to_tables
convert_old_style_speed_lem speed clock t j = tables_lem (song_count t) speed clock t j

convert-info :
    (rounds s speed : ℕ) (clock : Clock) (t : SidTuneBase)
    → (speed_loop rounds s speed clock t).info ≡ t.info
unfolding speed_loop
convert-info zero s speed clock t = refl
convert-info (suc rounds) s speed clock t = convert-info rounds (s + 1) _ clock _

-- The bit of the speed field that song `n` has
abbrev pub song_bit : Compatibility → ℕ → ℕ
song_bit psid n = (n - 1) % 32
song_bit other n = speed_bit (n - 1)

abbrev pub speed_in : Compatibility → (speed n : ℕ) → ℕ
speed_in r64 speed n = speed_cia_1a
speed_in other speed n = speed_by_bit (speed / 2 ^ song_bit other n % 2)

song_index_lem : (n : ℕ) → 1 ≤ n → n ≤ 256 → song_index n ≡ n - 1
song_index_lem n h k = omega arith

bit_32 : (n : ℕ) → n % 32 ≡ speed_bit (n % 32)
bit_32 n = ground arith

index_31 : (n : ℕ) → bit_and n 31 ≡ n % 32
index_31 n = bit_and_mask 5 n

tables_in :
    (rounds speed : ℕ) (clock : Clock) (t : SidTuneBase) (j : ℕ)
    → j < rounds
    → ((speed_loop rounds 0 speed clock t).song_speeds j
        ≡ speed_by_bit (speed / 2 ^ speed_bit j % 2))
      × ((speed_loop rounds 0 speed clock t).clock_speeds j ≡ clock)
tables_in rounds speed clock t j h = let e = tables_lem rounds speed clock t j in ground arith

module _ (speed : ℕ) (clock : Clock) (t : SidTuneBase) (n : ℕ) (first : 1 ≤ n)
    (last : n ≤ t.info.songs) (few : t.info.songs ≤ max_songs) where
  abbrev converted : SidTuneBase
  converted = convert_old_style_speed_to_tables speed clock t

  converted_info : converted.info ≡ t.info
  unfolding convert_old_style_speed_to_tables
  converted_info = convert-info (song_count t) 0 speed clock t

  entry :
      (j : ℕ)
      → j < t.info.songs
      → (converted.song_speeds j ≡ speed_by_bit (speed / 2 ^ speed_bit j % 2))
        × (converted.clock_speeds j ≡ clock)
  unfolding convert_old_style_speed_to_tables
  entry j h = tables_in (song_count t) speed clock t j (ground arith)

  low : n - 1 < t.info.songs
  low = omega arith

  wrapped : (n - 1) % 32 < t.info.songs
  wrapped = omega arith

  low_entry :
      converted.song_speeds (song_index n) ≡ speed_by_bit (speed / 2 ^ speed_bit (n - 1) % 2)
  low_entry =
      ap converted.song_speeds (song_index_lem n first (omega arith)) ∙ (entry (n - 1) low).0

  entry_lem : (c : Compatibility) → speed_entry converted c n ≡ speed_in c speed n
  entry_lem r64 = refl
  entry_lem psid =
      ap (λ (k : ℕ). converted.song_speeds (bit_and k 31)) (song_index_lem n first (omega arith))
      ∙ ap converted.song_speeds (index_31 (n - 1))
      ∙ (entry ((n - 1) % 32) wrapped).0
      ∙ ap (λ (k : ℕ). speed_by_bit (speed / 2 ^ k % 2)) (sym (bit_32 (n - 1)))
  entry_lem c64 = low_entry
  entry_lem basic = low_entry

  -- After the speed field of a header is converted, selecting one of at most 256 songs makes it the
  -- current song, with the clock of the tune. Its speed is that of its bit: the last bit for all
  -- songs above 32, but the bits over again for a PSID specific tune, and CIA for an RSID tune.
  pub select_song-convert :
      let u = select_song n converted in
      (u.info.current_song ≡ n)
      × (u.info.song_speed ≡ speed_in t.info.compatibility speed n)
      × (u.info.clock_speed ≡ clock)
  unfolding select_song
  select_song-convert =
      rw (selects, song_index_lem n first (omega arith))
        (
          refl,
          ap (λ (i : SidTuneInfo). speed_entry converted i.compatibility n) converted_info
              ∙ entry_lem t.info.compatibility,
          (entry (n - 1) low).1,
        )
    where
      selects : selected_song converted.info n ≡ n
      selects = rw converted_info (ground arith)
