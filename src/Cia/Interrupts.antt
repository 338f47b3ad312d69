-- ===== src/Cia/Interrupts.antt =====
-- src/c64/CIA/interrupt.h, interrupt.cpp and the interrupt sources of mos652x.h and mos652x.cpp. The
-- parent's `interrupt(bool)` is a parameter that acts on the rest of the machine.
pub mod Line
mod Tests
use libsidplayfp.Base.{
  ℕ, ◌+◌, ◌-◌, ◌*◌, ◌%◌, ◌^◌, bit_and, bit_or, Bool, true, false, not, ◌&&◌, ◌||◌, ◌==◌, ◌!=◌,
  if◌then◌else◌,
}
use libsidplayfp.World.{World}
use libsidplayfp.EventQueue
use libsidplayfp.EventQueue.{EventId, Context, phi1, phi2, get_time, is_pending}

abbrev pub interrupt_none : ℕ
interrupt_none = 0

abbrev pub interrupt_underflow_a : ℕ
interrupt_underflow_a = 1

abbrev pub interrupt_underflow_b : ℕ
interrupt_underflow_b = 2

abbrev pub interrupt_alarm : ℕ
interrupt_alarm = 4

abbrev pub interrupt_sp : ℕ
interrupt_sp = 8

abbrev pub interrupt_request : ℕ
interrupt_request = 0x80

-- `n & ~mask` in 8 bits
abbrev pub clear_bits : ℕ → ℕ → ℕ
clear_bits mask n = bit_and n (255 - mask)

-- `InterruptSource6526` and `InterruptSource8521`
pub data SourceModel : Type 0 where
  source_6526 source_8521 : SourceModel

pub record InterruptSource : Type 0 where
  pub model : SourceModel
  pub last_clear : ℕ
  pub last_set : ℕ
  pub icr : ℕ
  pub idr : ℕ
  pub idr_temp : ℕ
  pub scheduled : Bool
  pub asserted : Bool

-- A source that has just been constructed
unfoldable pub new_source : SourceModel → InterruptSource
new_source model = record {
  model = model;
  last_clear = 0;
  last_set = 0;
  icr = 0;
  idr = 0;
  idr_temp = 0;
  scheduled = false;
  asserted = false;
}

-- The new control register in `set`
unfoldable pub new_icr : (interrupt_mask icr : ℕ) → ℕ
new_icr interrupt_mask icr =
    if bit_and interrupt_mask interrupt_request != 0
    then bit_or icr (clear_bits interrupt_request interrupt_mask)
    else clear_bits interrupt_mask icr

-- The four callbacks.
pub record Events : Type 0 where
  pub interrupt_event : EventId
  pub update_idr_event : EventId
  pub set_irq_event : EventId
  pub clear_irq_event : EventId

pub record Machine (S : Type 0) : Type 0 where
  pub this : InterruptSource
  pub world : World S

-- `interruptTriggered` and `interruptMasked`
unfoldable pub interrupt_triggered : InterruptSource → Bool
interrupt_triggered s = bit_and s.idr interrupt_request != 0

unfoldable pub interrupt_masked : ℕ → InterruptSource → Bool
interrupt_masked interrupt_mask s =
    bit_and (if interrupt_mask != interrupt_none then interrupt_mask else s.idr) s.icr != 0

module _ {S : Type 0} where
  abbrev pub on_source : (InterruptSource → InterruptSource) → Machine S → Machine S
  on_source f m = record m { this = f m.this }

  abbrev pub on_context : (Context → Context) → Machine S → Machine S
  on_context f m = record m { world = record m.world { context = f m.world.context } }

  -- `ack0` and `write0`
  unfoldable pub ack0 : Machine S → Bool
  ack0 m = get_time phi2 m.world.context == m.this.last_clear + 1

  unfoldable pub write0 : Machine S → Bool
  write0 m = get_time phi2 m.world.context == m.this.last_set + 1

module _ {S : Type 0} (ids : Events) where
  -- `schedule(delay)` and `scheduleIrq`
  unfoldable pub schedule : ℕ → Machine S → Machine S
  schedule delay m =
      if not m.this.scheduled
      then on_source (λ (s : InterruptSource). record s { scheduled = true })
          (on_context (EventQueue.schedule_phase ids.interrupt_event delay phi1) m)
      else m

  unfoldable pub schedule_irq : Machine S → Machine S
  schedule_irq m = on_context (EventQueue.schedule_phase ids.set_irq_event 1 phi1) m

  -- `triggerInterrupt`
  unfoldable pub trigger_interrupt : SourceModel → Machine S → Machine S
  trigger_interrupt source_6526 m =
      on_source (λ (s : InterruptSource). record s { idr = bit_or s.idr interrupt_request }) m
  trigger_interrupt source_8521 m =
      let m' : Machine S =
        on_source
          (λ (s : InterruptSource). record s {
            idr = bit_or s.idr interrupt_request;
            idr_temp = bit_or s.idr_temp interrupt_request;
          })
          m in
      if ack0 m' then schedule_irq m' else m'

  -- `updateIdr`
  unfoldable pub update_idr : Machine S → Machine S
  update_idr m =
      let m' : Machine S = on_source (λ (s : InterruptSource). record s { idr = s.idr_temp }) m in
      if ack0 m'
      then on_source (λ (s : InterruptSource). record s { idr_temp = 0 })
          (on_context (EventQueue.schedule_phase ids.update_idr_event 1 phi1) m')
      else m'

  -- `isTriggered`
  unfoldable pub is_triggered : ℕ → Machine S → Bool × Machine S
  is_triggered interrupt_mask m =
      let m' : Machine S =
        on_source
          (λ (s : InterruptSource). record s {
            idr = bit_or s.idr interrupt_mask;
            idr_temp = bit_or s.idr_temp interrupt_mask;
          })
          m in
      if interrupt_masked interrupt_mask m'.this
      then (true, m')
      else if (interrupt_mask == interrupt_none) && (write0 m' && m'.this.scheduled)
      then (
        false,
        on_source (λ (s : InterruptSource). record s { scheduled = false })
            (on_context (EventQueue.cancel ids.interrupt_event) m'),
      )
      else (false, m')

  -- `trigger` of the two models
  unfoldable pub trigger_on : SourceModel → ℕ → Machine S → Machine S
  trigger_on source_8521 interrupt_mask m =
      let (triggered, m') = is_triggered interrupt_mask m in if triggered then schedule 0 m' else m'
  trigger_on source_6526 interrupt_mask m =
      let (triggered, m') = is_triggered interrupt_mask m in
      let m'' = if triggered then schedule 1 m' else m' in
      if (interrupt_mask == interrupt_underflow_b) && ack0 m''
      then on_source
          (λ (s : InterruptSource). record s {
            idr = clear_bits interrupt_underflow_b s.idr;
            idr_temp = clear_bits interrupt_underflow_b s.idr_temp;
          })
          m''
      else m''

  abbrev pub trigger : ℕ → Machine S → Machine S
  trigger interrupt_mask m = trigger_on m.this.model interrupt_mask m

  -- `set`
  unfoldable pub set : ℕ → Machine S → Machine S
  set interrupt_mask m =
      let m1 : Machine S =
        on_source (λ (s : InterruptSource). record s { icr = new_icr interrupt_mask s.icr }) m in
      let m2 = if not (ack0 m1) then trigger interrupt_none m1 else m1 in
      on_source (λ (s : InterruptSource). record s { last_set = get_time phi2 m2.world.context }) m2

  -- `InterruptSource::clear`, and what `InterruptSource6526` adds
  unfoldable pub clear_source : Machine S → ℕ × Machine S
  clear_source m =
      let m1 : Machine S = on_context (EventQueue.schedule_phase ids.clear_irq_event 0 phi1) (
        on_source (λ (s : InterruptSource). record s { last_clear = get_time phi2 m.world.context })
          m) in
      let m2 : Machine S =
        on_source (λ (s : InterruptSource). record s { idr_temp = 0 })
          (on_context (EventQueue.schedule_phase ids.update_idr_event 1 phi1) m1) in
      (m.this.idr, if not (is_pending ids.update_idr_event m1.world.context.queue) then m2 else m1)

  unfoldable pub clear : Machine S → ℕ × Machine S
  clear m =
      let (old_idr, m') = clear_source m in
      let acknowledged : Machine S =
        on_source (λ (s : InterruptSource). record s { idr = bit_and s.idr interrupt_request })
          m' in
      (old_idr, elim m.this.model [ source_6526 ↦ acknowledged | source_8521 ↦ m' ])

  -- `reset`
  unfoldable pub reset : Machine S → Machine S
  reset m =
      let cancelled : Machine S =
        on_context
          (λ (c : Context). EventQueue.cancel ids.interrupt_event (
            EventQueue.cancel ids.clear_irq_event
              (EventQueue.cancel ids.set_irq_event (EventQueue.cancel ids.update_idr_event c))))
          m in
      on_source
        (λ (s : InterruptSource). record s {
          last_clear = 0;
          last_set = 0;
          icr = 0;
          idr = 0;
          scheduled = false;
          asserted = false;
        })
        cancelled

module _ {S : Type 0} (interrupt : Bool → World S → World S) where
  -- `setIrq` and `clearIrq`
  unfoldable pub set_irq : Machine S → Machine S
  set_irq m =
      if not (ack0 m)
      then if not m.this.asserted
        then on_source (λ (s : InterruptSource). record s { asserted = true })
            (record m { world = interrupt true m.world })
        else m
      else m

  unfoldable pub clear_irq : Machine S → Machine S
  clear_irq m =
      if m.this.asserted
      then on_source (λ (s : InterruptSource). record s { asserted = false })
          (record m { world = interrupt false m.world })
      else m

  -- `interrupt()`
  unfoldable pub interrupt_cpu : Events → Machine S → Machine S
  interrupt_cpu ids m =
      on_source (λ (s : InterruptSource). record s { scheduled = false })
        (if not (interrupt_triggered m.this)
          then set_irq (trigger_interrupt ids m.this.model m)
          else m)
