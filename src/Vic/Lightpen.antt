-- ===== src/Vic/Lightpen.antt =====
-- src/c64/VIC_II/lightpen.h: where the light pen was seen.
use libsidplayfp.Base.{
  ℕ, ◌+◌, ◌-◌, ◌*◌, ◌%◌, ◌^◌, Bool, true, false, ◌&&◌, ◌==◌, ltb, if◌then◌else◌,
}

-- The numbers have 32 bits.
pub record Lightpen : Type 0 where
  pub last_line : ℕ
  pub cycles_per_line : ℕ
  pub lpx : ℕ
  pub lpy : ℕ
  pub is_triggered : Bool

-- `getXpos`
unfoldable pub get_xpos : ℕ → Lightpen → ℕ
get_xpos line_cycle p =
    let cycle = if ltb line_cycle 13 then line_cycle + p.cycles_per_line else line_cycle in
    let from_left = cycle - 13 in
    let held = (p.cycles_per_line == 65) && ltb (61 - 13) from_left in
    (if held then from_left - 1 else from_left) * 2 ^ 2 % 2 ^ 8

unfoldable pub set_screen_size : (height width : ℕ) → Lightpen → Lightpen
set_screen_size height width p = record p { last_line = height - 1; cycles_per_line = width }

unfoldable pub reset : Lightpen → Lightpen
reset p = record p { lpx = 0; lpy = 0; is_triggered = false }

unfoldable pub get_x : Lightpen → ℕ
get_x p = p.lpx % 2 ^ 8

unfoldable pub get_y : Lightpen → ℕ
get_y p = p.lpy % 2 ^ 8

-- The Boolean says whether an IRQ should be triggered.
unfoldable pub retrigger : Lightpen → Bool × Lightpen
retrigger p =
    let left = if p.cycles_per_line == 65 then 0xd5 else 0xd1 in
    if p.is_triggered
    then (false, p)
    else (true, record p { is_triggered = true; lpx = left; lpy = 0 })

unfoldable pub trigger : (line_cycle raster_y : ℕ) → Lightpen → Bool × Lightpen
trigger line_cycle raster_y p =
    let seen : Lightpen = record p { is_triggered = true } in
    if p.is_triggered
    then (false, p)
    else if (raster_y == p.last_line) && ltb 0 line_cycle
    then (false, seen)
    else (true, record seen { lpx = get_xpos line_cycle p + 2; lpy = raster_y })

unfoldable pub untrigger : Lightpen → Lightpen
untrigger p = record p { is_triggered = false }
