-- ===== src/IoArea/Routes.antt =====
-- The chips that the addresses of the IO region reach after SIDs are added by src/c64/c64.cpp.
use mathlib.Core.Path.{subst}
use libsidplayfp.Base.{
  ℕ, ◌*◌, ◌/◌, ◌^◌, ◌<◌, ◌≤◌, ◌≡◌, ◌≢◌, refl, sym, ap, ap₂, ◌∙◌, arith, bit_and, ◌&&◌, ◌||◌, ◌==◌,
  leb, Bool-cases, if◌then◌else◌, Option, none, some, inl, inr, bit_and-0x0f, bit_and-0x07,
  bit_and_shifted, Option-cases,
}
use libsidplayfp.IoArea.{
  Sid, Bank, to_vic, to_sid, to_color_ram, to_cia_1, to_cia_2, to_disconnected, to_extra,
  ExtraSidBank, IoArea, mapper_index, reset_sid_mapper, put_slot, add_sid, find, set_bank, put_bank,
  put_extra_sid, add_extra_sid, sid_device, chip_of, slot_device, extra_device, bank_device,
  device_at,
}
use libsidplayfp.IoArea.Wiring.{
  IsWired, none≢some, find-update_self, find-update_ne, find_head, find_tail,
}

-- A bank leads to the same chip while its extra bank stays the same.
bank_device_same :
    (io io' : IoArea) (address : ℕ) (bank : Bank)
    → io'.sid ≡ io.sid
    → ((j : ℕ) → bank ≡ to_extra j → find j io'.extra_sid_banks ≡ find j io.extra_sid_banks)
    → bank_device io' address bank ≡ bank_device io address bank
unfolding bank_device chip_of
bank_device_same io io' address to_vic sid same = refl
bank_device_same io io' address to_sid sid same = ap (λ (s : Option Sid). some (sid_device s)) sid
bank_device_same io io' address to_color_ram sid same = refl
bank_device_same io io' address to_cia_1 sid same = refl
bank_device_same io io' address to_cia_2 sid same = refl
bank_device_same io io' address to_disconnected sid same = refl
bank_device_same io io' address (to_extra j) sid same =
    ap₂ (λ (s : Option Sid) (b : Option ExtraSidBank). extra_device s address b) sid (same j refl)

chip_lem :
    (io : IoArea) (address : ℕ) (bank : Bank)
    → ((j : ℕ) → bank ≢ to_extra j)
    → bank_device io address bank ≡ chip_of io.sid bank
unfolding bank_device
chip_lem io address to_vic plain = refl
chip_lem io address to_sid plain = refl
chip_lem io address to_color_ram plain = refl
chip_lem io address to_cia_1 plain = refl
chip_lem io address to_cia_2 plain = refl
chip_lem io address to_disconnected plain = refl
chip_lem io address (to_extra j) plain = absurd (plain j refl)

extra_at :
    (io : IoArea) (address idx : ℕ) (b : ExtraSidBank)
    → find idx io.extra_sid_banks ≡ some b
    → bank_device io address (to_extra idx) ≡ extra_device io.sid address (some b)
unfolding bank_device
extra_at io address idx b h = ap (extra_device io.sid address) h

plain_mapper :
    (sid : Option Sid) (address : ℕ) (bank : Bank)
    → extra_device sid address (some (reset_sid_mapper bank)) ≡ chip_of sid bank
unfolding extra_device reset_sid_mapper slot_device
plain_mapper sid address bank = refl

-- A new SID in its slot of an extra bank
slot_lem :
    (sid : Option Sid) (s : Sid) (address address' : ℕ) (b : ExtraSidBank)
    → extra_device sid address' (some (add_sid s address b)) ≡ (
        if mapper_index address' == mapper_index address
        then some (sid_device (some s))
        else extra_device sid address' (some b))
unfolding extra_device add_sid put_slot slot_device
slot_lem sid s address address' b = ground arith

-- The chip behind a page after a SID is added to a page
abbrev Routed : (s : Sid) (address address' idx page : ℕ) (io io' : IoArea) → Type 0
Routed s address address' idx page io io' = bank_device io' address' (io'.map page) ≡ (
    if (page == idx) && (mapper_index address' == mapper_index address)
    then some (sid_device (some s))
    else bank_device io address' (io.map page))

new_bank-Routed :
    (s : Sid) (address address' idx page : ℕ) (io : IoArea)
    → IsWired io
    → find idx io.extra_sid_banks ≡ none
    → Routed s address address' idx page io (put_bank s address idx io none)
unfolding put_bank set_bank
new_bank-Routed s address address' idx page io wired new =
    let io1 = put_bank s address idx io none in
    let b = reset_sid_mapper (io.map idx) in
    let there : bank_device io1 address' (to_extra idx)
        ≡ extra_device io.sid address' (some (add_sid s address b)) =
      extra_at io1 address' idx (add_sid s address b)
        (find_head idx (add_sid s address b) io.extra_sid_banks) in
    let before =
      chip_lem io address' (io.map idx) (λ j e. none≢some (sym new ∙ (wired.known idx j e).1.1)) in
    elim (Bool-cases (page == idx)) [
      | inl same ↦
          let at : page ≡ idx = ground (arith, same) in
          ground (
            arith,
            same,
            at,
            there,
            before,
            slot_lem io.sid s address address' b,
            plain_mapper io.sid address' (io.map idx),
          )
      | inr other ↦ ground (
        arith,
        other,
        bank_device_same io io1 address' (io.map page) refl (λ j e.
            find_tail idx j (add_sid s address b) io.extra_sid_banks
              (ground (arith, other, (wired.known page j e).0))),
      )
    ]

old_bank-Routed :
    (s : Sid) (address address' idx page : ℕ) (io : IoArea) (b : ExtraSidBank)
    → IsWired io
    → find idx io.extra_sid_banks ≡ some b
    → Routed s address address' idx page io (put_bank s address idx io (some b))
unfolding put_bank
old_bank-Routed s address address' idx page io b wired old =
    let io1 = put_bank s address idx io (some b) in
    let at_idx : io.map idx ≡ to_extra idx = wired.present idx b old in
    let there =
      extra_at io1 address' idx (add_sid s address b)
        (find-update_self idx (add_sid s address) io.extra_sid_banks b old) in
    let before = extra_at io address' idx b old in
    elim (Bool-cases (page == idx)) [
      | inl same ↦
          let at : page ≡ idx = ground (arith, same) in
          ground (arith, same, at, at_idx, there, before, slot_lem io.sid s address address' b)
      | inr other ↦ ground (
        arith,
        other,
        bank_device_same io io1 address' (io.map page) refl (λ j e.
            find-update_ne idx j (add_sid s address) io.extra_sid_banks
              (ground (arith, other, (wired.known page j e).0))),
      )
    ]

put_extra_sid-Routed :
    (s : Sid) (address address' idx page : ℕ) (io : IoArea)
    → IsWired io
    → Routed s address address' idx page io (put_extra_sid s address idx io)
unfolding put_extra_sid
put_extra_sid-Routed s address address' idx page io wired =
    elim (Option-cases (find idx io.extra_sid_banks)) [
      | inl new ↦
          subst
            (λ (o : Option ExtraSidBank).
              Routed s address address' idx page io (put_bank s address idx io o))
            (sym new) (new_bank-Routed s address address' idx page io wired new)
      | inr old ↦
          subst
            (λ (o : Option ExtraSidBank).
              Routed s address address' idx page io (put_bank s address idx io o))
            (sym old.1) (old_bank-Routed s address address' idx page io old.0 wired old.1)
    ]

-- The fields of an address of 16 bits
region_lem : (a : ℕ) → a < 0x10000 → bit_and a 0xf000 ≡ a / 4096 * 4096
region_lem a h = ground (arith, bit_and_shifted 12 a 0xf, bit_and-0x0f (a / 2 ^ 12))

same_slot :
    (a a' : ℕ)
    → a / 4096 ≡ 13
    → a' / 4096 ≡ 13
    → ((bit_and (a' / 2 ^ 8) 0xf == bit_and (a / 2 ^ 8) 0xf) && (mapper_index a' == mapper_index a))
      ≡ (a' / 32 == a / 32)
unfolding mapper_index
same_slot a a' h h' = ground (
  arith,
  bit_and-0x0f (a / 2 ^ 8),
  bit_and-0x0f (a' / 2 ^ 8),
  bit_and-0x07 (a / 2 ^ 5),
  bit_and-0x07 (a' / 2 ^ 5),
)

-- `addExtraSid` succeeds exactly for the addresses of the SID area and of the IO areas 1 and 2, and
-- then each address of the IO region in the same 32 bytes reaches the new SID; every other address,
-- and all of them on a failure, reach the chip that they reached before.
pub add_extra_sid_lem :
    (s : Sid) (address address' : ℕ) (io : IoArea)
    → IsWired io
    → address < 0x10000
    → 0xd000 ≤ address'
    → address' < 0xe000
    → (let page = address / 256 in
        let allowed = (leb 0xd4 page && leb page 0xd7) || ((page == 0xde) || (page == 0xdf)) in
        ((add_extra_sid s address io).0 ≡ allowed)
        × (device_at (add_extra_sid s address io).1 address' ≡ (
            if allowed && (address' / 32 == address / 32)
            then some (sid_device (some s))
            else device_at io address')))
unfolding add_extra_sid device_at
add_extra_sid_lem s address address' io wired h low high =
    let idx = bit_and (address / 2 ^ 8) 0xf in
    let page = bit_and (address' / 2 ^ 8) 0xf in
    let routed = put_extra_sid-Routed s address address' idx page io wired in
    let region = region_lem address h in
    let number = bit_and-0x0f (address / 2 ^ 8) in
    elim (Bool-cases (address / 4096 == 13)) [
      | inl inside ↦
          let slots = same_slot address address' (ground (arith, inside)) (omega arith) in
          (
            ground (arith, inside, region, number),
            ground (arith, inside, region, number, routed, slots),
          )
      | inr outside ↦ (ground (arith, outside, region), ground (arith, outside, region))
    ]
