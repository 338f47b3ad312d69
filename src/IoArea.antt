-- ===== src/IoArea.antt =====
-- src/c64/Banks/IOBank.h, SidBank.h and ExtraSidBank.h, and the part of src/c64/c64.cpp that sets
-- them up: which chip an address of the IO region reaches. A chip is a value of Device, a pointer to
-- a bank a value of Bank, and a SID emulation a number.
pub mod Wiring
pub mod Routes
mod Tests
use libsidplayfp.Base.{
  put_at, ℕ, zero, suc, ◌+◌, ◌-◌, ◌*◌, ◌/◌, ◌%◌, ◌^◌, bit_and, Bool, true, false, not, ◌&&◌, ◌||◌,
  ◌==◌, ◌!=◌, ltb, if◌then◌else◌, Option, none, some, List, [], ◌∷◌,
}

abbrev pub Sid : Type 0
Sid = ℕ

-- What `Bank*` points to: a chip, or the extra SID bank of a page
pub data Bank : Type 0 where
  to_vic to_sid to_color_ram to_cia_1 to_cia_2 to_disconnected : Bank
  to_extra : ℕ → Bank

-- An entry of `mapper`
pub data Slot : Type 0 where
  sid_chip : Sid → Slot
  underlying : Bank → Slot

pub record ExtraSidBank : Type 0 where
  pub mapper : ℕ → Slot
  pub sids : List Sid

-- `extraSidBanks` is a list of pages and banks. `sid` is none for the NullSid.
pub record IoArea : Type 0 where
  pub map : ℕ → Bank
  pub sid : Option Sid
  pub extra_sid_banks : List (ℕ × ExtraSidBank)

-- `mapperIndex`
unfoldable pub mapper_index : ℕ → ℕ
mapper_index address = bit_and (address / 2 ^ 5) (8 - 1)

-- `resetSIDMapper` of a new bank, and `addSID`
unfoldable pub reset_sid_mapper : Bank → ExtraSidBank
reset_sid_mapper bank = record { mapper = λ i. underlying bank; sids = [] }

unfoldable pub put_slot : (ℕ → Slot) → ℕ → Slot → ℕ → Slot
put_slot mapper i slot j = if j == i then slot else mapper j

unfoldable pub add_sid : Sid → ℕ → ExtraSidBank → ExtraSidBank
add_sid s address b = record {
  mapper = put_slot b.mapper (mapper_index address) (sid_chip s);
  sids = s ∷ b.sids;
}

-- `find`, and the write through the iterator that it gives
unfoldable pub find : ℕ → List (ℕ × ExtraSidBank) → Option ExtraSidBank
find idx [] = none
find idx ((i, b) ∷ banks) = if idx == i then some b else find idx banks

unfoldable pub update :
    ℕ → (ExtraSidBank → ExtraSidBank) → List (ℕ × ExtraSidBank) → List (ℕ × ExtraSidBank)
update idx f [] = []
update idx f ((i, b) ∷ banks) = if idx == i then (i, f b) ∷ banks else (i, b) ∷ update idx f banks

-- `setBank`
unfoldable pub set_bank : ℕ → Bank → (ℕ → Bank) → ℕ → Bank
set_bank num bank map i = if i == num then bank else map i

-- `resetIoBank`
unfoldable pub reset_io_bank : ℕ → Bank
reset_io_bank i =
    if ltb i 4
    then to_vic
    else if ltb i 8
    then to_sid
    else if ltb i 0xc
    then to_color_ram
    else if i == 0xc
    then to_cia_1
    else if i == 0xd
    then to_cia_2
    else to_disconnected

-- `clearSids`
unfoldable pub clear_sids : IoArea → IoArea
clear_sids io = record { map = reset_io_bank; sid = none; extra_sid_banks = [] }

-- `setBaseSid`
unfoldable pub set_base_sid : Option Sid → IoArea → IoArea
set_base_sid s io = record io { sid = s }

-- `addExtraSid` after its checks, with what `find` gave
unfoldable pub put_bank : Sid → ℕ → ℕ → IoArea → Option ExtraSidBank → IoArea
put_bank s address idx io (some b) = record io {
  extra_sid_banks = update idx (add_sid s address) io.extra_sid_banks;
}
put_bank s address idx io none = record io {
  map = set_bank idx (to_extra idx) io.map;
  extra_sid_banks = (idx, add_sid s address (reset_sid_mapper (io.map idx))) ∷ io.extra_sid_banks;
}

unfoldable pub put_extra_sid : Sid → ℕ → ℕ → IoArea → IoArea
put_extra_sid s address idx io = put_bank s address idx io (find idx io.extra_sid_banks)

unfoldable pub add_extra_sid : Sid → ℕ → IoArea → Bool × IoArea
add_extra_sid s address io =
    let idx = bit_and (address / 2 ^ 8) 0xf in
    if bit_and address 0xf000 != 0xd000
    then (false, io)
    else if ltb idx 4 || (ltb 7 idx && ltb idx 0xe)
    then (false, io)
    else (true, put_extra_sid s address idx io)

-- The chip that `peek` and `poke` of a bank end at
pub data Device : Type 0 where
  vic color_ram cia_1 cia_2 disconnected : Device
  sid_device : Option Sid → Device

unfoldable pub chip_of : Option Sid → Bank → Option Device
chip_of sid to_vic = some vic
chip_of sid to_sid = some (sid_device sid)
chip_of sid to_color_ram = some color_ram
chip_of sid to_cia_1 = some cia_1
chip_of sid to_cia_2 = some cia_2
chip_of sid to_disconnected = some disconnected
chip_of sid (to_extra idx) = none

-- `ExtraSidBank::peek` and `poke`
unfoldable pub slot_device : Option Sid → Slot → Option Device
slot_device sid (sid_chip s) = some (sid_device (some s))
slot_device sid (underlying bank) = chip_of sid bank

unfoldable pub extra_device : Option Sid → ℕ → Option ExtraSidBank → Option Device
extra_device sid address none = none
extra_device sid address (some b) = slot_device sid (b.mapper (mapper_index address))

unfoldable pub bank_device : IoArea → ℕ → Bank → Option Device
bank_device io address (to_extra idx) = extra_device io.sid address (find idx io.extra_sid_banks)
bank_device io address bank = chip_of io.sid bank

-- `IOBank::peek` and `poke`: none where a pointer would lead nowhere.
unfoldable pub device_at : IoArea → ℕ → Option Device
device_at io address = bank_device io address (io.map (bit_and (address / 2 ^ 8) 0xf))
