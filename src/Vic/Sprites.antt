-- ===== src/Vic/Sprites.antt =====
-- src/c64/VIC_II/sprites.h: the DMA counters of the eight sprites. A loop over the sprites updates
-- what belongs to each sprite, a bit of a mask and an entry of an array, so it is a function on the
-- sprites from the first on.
use libsidplayfp.Base.{
  put_at, ℕ, zero, suc, ◌+◌, ◌-◌, ◌*◌, ◌^◌, bit_and, bit_or, bit_xor, Bool, ◌&&◌, ◌==◌, ◌!=◌,
  if◌then◌else◌,
}

-- The arrays are functions on the indices below 8. `enable` and `y_expansion` are references to
-- the registers 0x15 and 0x17, and are arguments here.
pub record Sprites : Type 0 where
  pub exp_flop : ℕ
  pub dma : ℕ
  pub mc_base : ℕ → ℕ
  pub mc : ℕ → ℕ

-- `for (i = 0, mask = 1; i < SPRITES; i++, mask <<= 1)`
unfoldable pub each_sprite : ℕ → (ℕ → ℕ → Sprites → Sprites) → Sprites → Sprites
each_sprite zero body s = s
each_sprite (suc i) body s = body i (2 ^ i) (each_sprite i body s)

unfoldable pub reset : Sprites
reset = record { exp_flop = 0xff; dma = 0; mc_base = λ i. 0; mc = λ i. 0 }

unfoldable pub step_mc : ℕ → ℕ → Sprites → Sprites
step_mc i mask s =
    if bit_and s.dma mask != 0
    then record s { mc = put_at s.mc i (bit_and (s.mc i + 3) 0x3f) }
    else s

-- `updateMc`
unfoldable pub update_mc : Sprites → Sprites
update_mc s = each_sprite 8 step_mc s

unfoldable pub step_mc_base : ℕ → ℕ → Sprites → Sprites
step_mc_base i mask s =
    if bit_and s.exp_flop mask != 0
    then record s {
      mc_base = put_at s.mc_base i (s.mc i);
      dma = if s.mc i == 0x3f then bit_and s.dma (255 - mask) else s.dma;
    }
    else s

-- `updateMcBase`
unfoldable pub update_mc_base : Sprites → Sprites
update_mc_base s = each_sprite 8 step_mc_base s

-- `checkExp`
unfoldable pub check_exp : (y_expansion : ℕ) → Sprites → Sprites
check_exp y_expansion s = record s { exp_flop = bit_xor s.exp_flop (bit_and s.dma y_expansion) }

-- `checkDisplay`
unfoldable pub check_display : Sprites → Sprites
check_display s = each_sprite 8 (λ i mask t. record t { mc = put_at t.mc i (t.mc_base i) }) s

unfoldable pub step_dma : (enable y : ℕ) → (ℕ → ℕ) → ℕ → ℕ → Sprites → Sprites
step_dma enable y regs i mask s =
    if (bit_and enable mask != 0) && ((y == regs (i * 2 + 1)) && (bit_and s.dma mask == 0))
    then record s {
      dma = bit_or s.dma mask;
      mc_base = put_at s.mc_base i 0;
      exp_flop = bit_or s.exp_flop mask;
    }
    else s

-- `checkDma`
unfoldable pub check_dma : (raster_y : ℕ) → (ℕ → ℕ) → Sprites → Sprites
check_dma raster_y regs s = each_sprite 8 (step_dma (regs 0x15) (bit_and raster_y 0xff) regs) s

-- What a sprite crunch makes of the counter.
unfoldable pub crunched : (mc_base mc : ℕ) → ℕ
crunched mc_base mc = bit_or (bit_and 0x2a (bit_and mc_base mc)) (bit_and 0x15 (bit_or mc_base mc))

unfoldable pub step_crunch : (data_byte line_cycle : ℕ) → ℕ → ℕ → Sprites → Sprites
step_crunch data_byte line_cycle i mask s =
    let set_flop : Sprites = record s { exp_flop = bit_or s.exp_flop mask } in
    if (bit_and data_byte mask == 0) && (bit_and s.exp_flop mask == 0)
    then if line_cycle == 14
      then record set_flop { mc = put_at s.mc i (crunched (s.mc_base i) (s.mc i)) }
      else set_flop
    else s

-- `lineCrunch`
unfoldable pub line_crunch : (data_byte line_cycle : ℕ) → Sprites → Sprites
line_crunch data_byte line_cycle s = each_sprite 8 (step_crunch data_byte line_cycle) s

-- `isDma`
unfoldable pub is_dma : (val : ℕ) → Sprites → Bool
is_dma val s = bit_and s.dma val != 0
