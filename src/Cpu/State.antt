-- ===== src/Cpu/State.antt =====
-- src/c64/CPU/mos6510.h: the state of the CPU and its bus. `interruptCycle` and `cycleCount + 2` are
-- signed: both stand here `cycle_bias` higher, so that -MAX is 0. The registers of 16 bits are
-- `uint_least16_t` of exactly 16 bits.
use libsidplayfp.Base.{ℕ, ◌+◌, ◌%◌, ◌^◌, Bool, not, ◌&&◌, ◌||◌, ◌==◌, if◌then◌else◌}
use libsidplayfp.EventQueue.{EventId, Context}
use libsidplayfp.Cpu.Flags
use libsidplayfp.Cpu.Flags.{Flags}

abbrev pub cycle_bias : ℕ
cycle_bias = 65536

-- `MAX` and `-MAX`, with the bias
abbrev pub never : ℕ
never = 65536 + cycle_bias

abbrev pub earlier : ℕ
earlier = 0

abbrev pub interrupt_delay : ℕ
interrupt_delay = 2

abbrev pub u8 : ℕ → ℕ
u8 n = n % 2 ^ 8

abbrev pub u16 : ℕ → ℕ
u16 n = n % 2 ^ 16

abbrev pub u32 : ℕ → ℕ
u32 n = n % 2 ^ 32

-- The events `m_nosteal`, `m_steal` and `clearInt`
abbrev pub nosteal_event : EventId
nosteal_event = 1

abbrev pub steal_event : EventId
steal_event = 2

abbrev pub clear_int_event : EventId
clear_int_event = 3

-- `rest` is the state of everything else on the bus.
pub record Cpu (S : Type 0) : Type 0 where
  pub event_scheduler : Context
  pub rest : S
  pub cycle_count : ℕ
  pub interrupt_cycle : ℕ
  pub irq_asserted_on_pin : Bool
  pub nmi_flag : Bool
  pub rst_flag : Bool
  pub rdy : Bool
  pub adl_carry : Bool
  pub d1x1 : Bool
  pub rdy_on_throw_away_read : Bool
  pub flags : Flags
  pub program_counter : ℕ
  pub effective_address : ℕ
  pub pointer : ℕ
  pub data_byte : ℕ
  pub stack_pointer : ℕ
  pub accumulator : ℕ
  pub x : ℕ
  pub y : ℕ

-- `CPUDataBus`: a read or a write may reach the pins of the CPU and the scheduler.
pub record Bus (S : Type 0) : Type 0 where
  pub cpu_read : ℕ → Cpu S → ℕ × Cpu S
  pub cpu_write : ℕ → ℕ → Cpu S → Cpu S

module _ {S : Type 0} where
  -- `checkInterrupts`
  unfoldable pub check_interrupts : Cpu S → Bool
  check_interrupts s = s.rst_flag || (s.nmi_flag || (s.irq_asserted_on_pin && not s.flags.i))

  -- `calculateInterruptTriggerCycle`
  unfoldable pub calculate_interrupt_trigger_cycle : Cpu S → Cpu S
  calculate_interrupt_trigger_cycle s =
      if s.interrupt_cycle == never && check_interrupts s
      then record s { interrupt_cycle = s.cycle_count + cycle_bias }
      else s

  -- `flags.setC(b)` and the other setters
  abbrev pub set_c : Bool → Cpu S → Cpu S
  set_c b s = record s { flags = record s.flags { c = b } }

  abbrev pub set_z : Bool → Cpu S → Cpu S
  set_z b s = record s { flags = record s.flags { z = b } }

  abbrev pub set_i : Bool → Cpu S → Cpu S
  set_i b s = record s { flags = record s.flags { i = b } }

  abbrev pub set_d : Bool → Cpu S → Cpu S
  set_d b s = record s { flags = record s.flags { d = b } }

  abbrev pub set_v : Bool → Cpu S → Cpu S
  set_v b s = record s { flags = record s.flags { v = b } }

  abbrev pub set_n : Bool → Cpu S → Cpu S
  set_n b s = record s { flags = record s.flags { n = b } }

  abbrev pub set_nz : ℕ → Cpu S → Cpu S
  set_nz value s = record s { flags = Flags.set_nz value s.flags }

module _ {S : Type 0} (bus : Bus S) where
  -- Reads, then goes on with the byte.
  abbrev pub reading : ℕ → (ℕ → Cpu S → Cpu S) → Cpu S → Cpu S
  reading address next s = let got : ℕ × Cpu S = bus.cpu_read address s in next (u8 got.0) got.1
