-- ===== src/Vic/SpriteDma.antt =====
-- What the loops of src/c64/VIC_II/sprites.h do to each sprite, and where src/c64/VIC_II/lightpen.h
-- sees the pen.
use mathlib.Core.Path.{subst}
use libsidplayfp.Base.{
  put_at, all_below, all_below_sound, bit_and_shifted, bit_and-0x01, bit_and-0xff, bit_and_mask,
  bit, bit_and-bit, bit_or-bit, ℕ, zero, suc, ◌+◌, ◌-◌, ◌*◌, ◌/◌, ◌%◌, ◌^◌, ◌<◌, ◌≤◌, ◌≡◌, refl, ap,
  arith, bit_and, Bool, true, ◌&&◌, ◌==◌, ◌!=◌, ltb, leb, if◌then◌else◌, Bool-cases, inl, inr,
}
use libsidplayfp.Vic.Sprites.{
  Sprites, each_sprite, step_mc, update_mc, step_dma, check_dma, step_mc_base, update_mc_base,
}
use libsidplayfp.Vic.Lightpen.{Lightpen, get_xpos}

each_sprite-keeps :
    (P : Sprites → Type 0) (n : ℕ) (body : ℕ → ℕ → Sprites → Sprites) (s : Sprites)
    → ((i : ℕ) (t : Sprites) → P t → P (body i (2 ^ i) t))
    → P s
    → P (each_sprite n body s)
unfolding each_sprite
each_sprite-keeps P zero body s step p = p
each_sprite-keeps P (suc n) body s step p = step n _ (each_sprite-keeps P n body s step p)

-- The counter of each sprite in a pass of `updateMc`
mc_after :
    (s : Sprites) (n k : ℕ)
    → ((each_sprite n step_mc s).dma ≡ s.dma)
      × ((each_sprite n step_mc s).mc k
          ≡ (if ltb k n && (bit_and s.dma (2 ^ k) != 0) then bit_and (s.mc k + 3) 0x3f else s.mc k))
unfolding each_sprite step_mc put_at
mc_after s zero k = (refl, ground arith)
mc_after s (suc n) k = ground (arith, mc_after s n k, mc_after s n n)

mc_keeps :
    (s : Sprites) (n : ℕ)
    → ((each_sprite n step_mc s).exp_flop ≡ s.exp_flop)
      × ((each_sprite n step_mc s).mc_base ≡ s.mc_base)
unfolding each_sprite step_mc
mc_keeps s zero = (refl, refl)
mc_keeps s (suc n) = ground (arith, mc_keeps s n)

-- A bit set in a mask
mask_bit : (k a : ℕ) → bit_and a (2 ^ k) ≡ bit k a * 2 ^ k
mask_bit k a = ground (arith, bit_and_shifted k a 1, bit_and-0x01 (a / 2 ^ k))

one_bit : ℕ → ℕ → Bool
one_bit k n = bit k (2 ^ n) == (if k == n then 1 else 0)

one_bit_all : all_below 8 (λ k. all_below 8 (one_bit k)) ≡ true
unfolding all_below one_bit
one_bit_all = refl

one_bit_lem : (k n : ℕ) → k < 8 → n < 8 → bit k (2 ^ n) ≡ (if k == n then 1 else 0)
unfolding one_bit
one_bit_lem k n hk hn = ground (
  arith,
  all_below_sound 8 (one_bit k) n
      (all_below_sound 8 (λ j. all_below 8 (one_bit j)) k one_bit_all hk) hn,
)

-- The DMA bit of each sprite in a pass of `checkDma`
dma_after :
    (enable y : ℕ) (regs : ℕ → ℕ) (s : Sprites) (n k : ℕ)
    → n ≤ 8
    → k < 8
    → bit k (each_sprite n (step_dma enable y regs) s).dma ≡ (
        if ltb k n && ((bit_and enable (2 ^ k) != 0) && (y == regs (k * 2 + 1)))
        then 1
        else bit k s.dma)
unfolding each_sprite step_dma
dma_after enable y regs s zero k hn hk = ground arith
dma_after enable y regs s (suc n) k hn hk =
    let t = each_sprite n (step_dma enable y regs) s in
    ground (
      arith,
      dma_after enable y regs s n k (omega arith) hk,
      one_bit_lem k n hk (omega arith),
      bit_or-bit k t.dma (2 ^ n),
      mask_bit n t.dma,
    )

but_one : ℕ → ℕ → Bool
but_one k n = bit k (255 - 2 ^ n) == (if k == n then 0 else 1)

but_one_all : all_below 8 (λ k. all_below 8 (but_one k)) ≡ true
unfolding all_below but_one
but_one_all = refl

but_one_lem : (k n : ℕ) → k < 8 → n < 8 → bit k (255 - 2 ^ n) ≡ (if k == n then 0 else 1)
unfolding but_one
but_one_lem k n hk hn = ground (
  arith,
  all_below_sound 8 (but_one k) n
      (all_below_sound 8 (λ j. all_below 8 (but_one j)) k but_one_all hk) hn,
)

-- What a pass of `updateMcBase` leaves alone
base_keeps :
    (s : Sprites) (n : ℕ)
    → ((each_sprite n step_mc_base s).exp_flop ≡ s.exp_flop)
      × ((each_sprite n step_mc_base s).mc ≡ s.mc)
unfolding each_sprite step_mc_base
base_keeps s zero = (refl, refl)
base_keeps s (suc n) = ground (arith, base_keeps s n)

base_after :
    (s : Sprites) (n k : ℕ)
    → n ≤ 8
    → k < 8
    → (bit k (each_sprite n step_mc_base s).dma ≡ (
        if ltb k n && ((bit_and s.exp_flop (2 ^ k) != 0) && (s.mc k == 0x3f))
        then 0
        else bit k s.dma))
      × ((each_sprite n step_mc_base s).mc_base k
          ≡ (if ltb k n && (bit_and s.exp_flop (2 ^ k) != 0) then s.mc k else s.mc_base k))
unfolding each_sprite step_mc_base put_at
base_after s zero k hn hk = ground arith
base_after s (suc n) k hn hk =
    let t = each_sprite n step_mc_base s in
    let keeps = base_keeps s n in
    let mc_k : t.mc k ≡ s.mc k = ap (λ (f : ℕ → ℕ). f k) keeps.1 in
    let mc_n : t.mc n ≡ s.mc n = ap (λ (f : ℕ → ℕ). f n) keeps.1 in
    ground (
      arith,
      base_after s n k (omega arith) hk,
      keeps.0,
      mc_k,
      mc_n,
      but_one_lem k n hk (omega arith),
      bit_and-bit k t.dma (255 - 2 ^ n),
    )

-- A pass of `checkDma` starts the DMA of exactly the enabled sprites whose Y register is the low
-- byte of the raster line, and leaves that of the others.
pub check_dma_lem :
    (raster_y : ℕ) (regs : ℕ → ℕ) (s : Sprites) (k : ℕ)
    → k < 8
    → bit k (check_dma raster_y regs s).dma ≡ (
        if (bit_and (regs 0x15) (2 ^ k) != 0) && (raster_y % 256 == regs (k * 2 + 1))
        then 1
        else bit k s.dma)
unfolding check_dma
check_dma_lem raster_y regs s k h = ground (
  arith,
  dma_after (regs 0x15) (bit_and raster_y 0xff) regs s 8 k (omega arith) h,
  bit_and-0xff raster_y,
)

-- `updateMc` and then `updateMcBase`: the counter of each sprite with DMA advances by 3 modulo 64, a
-- sprite whose flip-flop is set keeps it as its base, and one that arrives at 63 ends its DMA.
pub update_mc_base-update_mc :
    (s : Sprites) (k : ℕ)
    → k < 8
    → (let mc = if bit_and s.dma (2 ^ k) != 0 then (s.mc k + 3) % 64 else s.mc k in
        let flop = bit_and s.exp_flop (2 ^ k) != 0 in
        let s' = update_mc_base (update_mc s) in
        (s'.mc k ≡ mc)
        × (s'.mc_base k ≡ (if flop then mc else s.mc_base k))
        × (bit k s'.dma ≡ (if flop && (mc == 63) then 0 else bit k s.dma)))
unfolding update_mc_base update_mc
update_mc_base-update_mc s k h =
    let t = each_sprite 8 step_mc s in
    let keeps = mc_keeps s 8 in
    let moved = mc_after s 8 k in
    let again = base_keeps t 8 in
    let low : bit_and (s.mc k + 3) 0x3f ≡ (s.mc k + 3) % 64 = bit_and_mask 6 (s.mc k + 3) in
    let mc_base_k : t.mc_base k ≡ s.mc_base k = ap (λ (f : ℕ → ℕ). f k) keeps.1 in
    let mc_k : (each_sprite 8 step_mc_base t).mc k ≡ t.mc k = ap (λ (f : ℕ → ℕ). f k) again.1 in
    ground (arith, moved, low, keeps.0, mc_base_k, mc_k, base_after t 8 k (omega arith) h)

-- The cycles from cycle 13 on, around a line of `w` cycles
abbrev Wraps : ℕ → ℕ → Type 0
Wraps w c = c < w → (c + w - 13) % w ≡ (if ltb c 13 then c + w - 13 else c - 13)

around_63 : (c : ℕ) → Wraps 63 c
around_63 c h = ground arith

around_64 : (c : ℕ) → Wraps 64 c
around_64 c h = ground arith

around_65 : (c : ℕ) → Wraps 65 c
around_65 c h = ground arith

wraps : (c w : ℕ) → 63 ≤ w → w ≤ 65 → Wraps w c
wraps c w low high = elim (Bool-cases (w == 63)) [
  | inl e ↦ subst (λ (n : ℕ). Wraps n c) {x = 63} (ground (arith, e)) (around_63 c)
  | inr n63 ↦ elim (Bool-cases (w == 64)) [
    | inl e ↦ subst (λ (n : ℕ). Wraps n c) {x = 64} (ground (arith, e)) (around_64 c)
    | inr n64 ↦ subst (λ (n : ℕ). Wraps n c) {x = 65} (ground (arith, n63, n64)) (around_65 c)
  ]
]

-- On a line of 63 or 64 cycles the pen's X position counts 4 for each cycle from cycle 13 on, around
-- the line; a line of 65 cycles counts cycle 62 like cycle 61.
pub get_xpos_lem :
    (line_cycle : ℕ) (p : Lightpen)
    → line_cycle < p.cycles_per_line
    → 63 ≤ p.cycles_per_line
    → p.cycles_per_line ≤ 65
    → get_xpos line_cycle p ≡ (
        let from_13 = (line_cycle + p.cycles_per_line - 13) % p.cycles_per_line in
        let steps = if (p.cycles_per_line == 65) && leb 49 from_13 then from_13 - 1 else from_13 in
        4 * steps % 256)
unfolding get_xpos
get_xpos_lem line_cycle p h low high = ground (arith, wraps line_cycle p.cycles_per_line low high h)
