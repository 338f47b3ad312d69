-- ===== src/IoArea/Tests.antt =====
-- The IO region with a second SID.
use libsidplayfp.Base.{◌≡◌, arith, true, none, some, []}
use libsidplayfp.IoArea.{IoArea, to_vic, clear_sids, add_extra_sid, device_at, sid_device}
use libsidplayfp.IoArea.Wiring.{clear_sids-IsWired}
use libsidplayfp.IoArea.Routes.{add_extra_sid_lem}

abbrev one_sid : IoArea
one_sid = clear_sids (record { map = λ i. to_vic; sid = none; extra_sid_banks = [] })

add_extra_sid_lem_example :
    ((add_extra_sid 2 0xd420 one_sid).0 ≡ true)
    × (device_at (add_extra_sid 2 0xd420 one_sid).1 0xd425 ≡ some (sid_device (some 2)))
add_extra_sid_lem_example =
    add_extra_sid_lem 2 0xd420 0xd425 one_sid
      (clear_sids-IsWired (record { map = λ i. to_vic; sid = none; extra_sid_banks = [] }))
      (omega arith) (omega arith) (omega arith)
