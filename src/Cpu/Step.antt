-- ===== src/Cpu/Step.antt =====
-- src/c64/CPU/mos6510.cpp: the events of the CPU, its pins and its reset.
use libsidplayfp.Base.{
  ℕ, ◌+◌, ◌-◌, ◌*◌, Bool, true, false, not, ◌&&◌, ◌||◌, none, some, ◌==◌, ◌!=◌, leb, if◌then◌else◌,
}
use libsidplayfp.EventQueue
use libsidplayfp.EventQueue.{EventId, EventPhase, phi1, phi2}
use libsidplayfp.Endian.{set_16lo8, set_16hi8}
use libsidplayfp.Cpu.Flags.{reset_flags}
use libsidplayfp.Cpu.State.{
  Cpu, Bus, cycle_bias, never, earlier, interrupt_delay, nosteal_event, steal_event,
  clear_int_event, calculate_interrupt_trigger_cycle, set_i, reading,
}
use libsidplayfp.Cpu.Access.{put_address}
use libsidplayfp.Cpu.Opcodes.{brk_n, cli_n, sei_n, sha_iy, shs_ay, shy_ax, shx_ay, sha_ay}
use libsidplayfp.Cpu.Func.{ProcessorCycle}
use libsidplayfp.Cpu.Table.{instr_table}
use libsidplayfp.Cpu.Execute.{Outcome, running, halted, undefined, execute}

module _ {S : Type 0} where
  abbrev pub schedule : EventId → ℕ → Cpu S → Cpu S
  schedule e cycles s = record s {
    event_scheduler = EventQueue.schedule e cycles s.event_scheduler;
  }

  abbrev pub schedule_phase : EventId → ℕ → EventPhase → Cpu S → Cpu S
  schedule_phase e cycles phase s = record s {
    event_scheduler = EventQueue.schedule_phase e cycles phase s.event_scheduler;
  }

  abbrev pub cancel : EventId → Cpu S → Cpu S
  cancel e s = record s { event_scheduler = EventQueue.cancel e s.event_scheduler }

  -- `eventScheduler.cancel(m_steal); eventScheduler.schedule(m_steal, 0, EVENT_CLOCK_PHI2)`
  abbrev pub restart_steal : Cpu S → Cpu S
  restart_steal s = schedule_phase steal_event 0 phi2 (cancel steal_event s)

  abbrev pub then_schedule : EventId → Outcome S → Outcome S
  then_schedule e (running s) = running (schedule e 1 s)
  then_schedule e (halted s) = halted s
  then_schedule e (undefined s) = undefined s

  -- The `switch (cycleCount)` of `eventWithSteals`
  unfoldable pub stalled_at : ℕ → Cpu S → Cpu S
  stalled_at count s =
      let saves_rdy =
        count == sha_iy * 8 + 3
        || (count == shs_ay * 8 + 2
            || (count == shy_ax * 8 + 2 || (count == shx_ay * 8 + 2 || count == sha_ay * 8 + 2))) in
      let cli : Cpu S = set_i false s in
      let sei : Cpu S = set_i true s in
      if count == cli_n * 8
      then (if cli.irq_asserted_on_pin && (cli.interrupt_cycle == never)
          then record cli { interrupt_cycle = earlier }
          else cli)
      else (if count == sei_n * 8
          then (if not sei.rst_flag
                && (not sei.nmi_flag
                    && leb (sei.cycle_count + cycle_bias) (sei.interrupt_cycle + interrupt_delay))
              then record sei { interrupt_cycle = never }
              else sei)
          else (if saves_rdy then record s { rdy_on_throw_away_read = true } else s))

  -- `eventWithSteals` where the cycle is stolen
  unfoldable pub stalled : Cpu S → Cpu S
  stalled s =
      let t : Cpu S = stalled_at s.cycle_count s in
      if t.interrupt_cycle == t.cycle_count + cycle_bias
      then record t { interrupt_cycle = t.interrupt_cycle - 1 }
      else t

  -- `removeIRQ`
  unfoldable pub remove_irq : Cpu S → Cpu S
  remove_irq s =
      if not s.rst_flag && (not s.nmi_flag && (s.interrupt_cycle != never))
      then record s { interrupt_cycle = never }
      else s

  -- `setRDY`
  unfoldable pub set_rdy : Bool → Cpu S → Cpu S
  set_rdy new_rdy s =
      let t : Cpu S = record s { rdy = new_rdy } in
      if new_rdy
      then schedule_phase nosteal_event 0 phi2 (cancel steal_event t)
      else schedule_phase steal_event 0 phi2 (cancel nosteal_event t)

  -- `Initialise`
  unfoldable pub initialise : Cpu S → Cpu S
  initialise s = schedule_phase nosteal_event 0 phi2 (record s {
    stack_pointer = 0xff;
    cycle_count = brk_n * 8 + 6;
    flags = reset_flags;
    program_counter = 0;
    irq_asserted_on_pin = false;
    nmi_flag = false;
    rst_flag = false;
    interrupt_cycle = never;
    rdy = true;
    d1x1 = false;
  })

  -- `triggerRST`
  unfoldable pub trigger_rst : Cpu S → Cpu S
  trigger_rst s =
      let t : Cpu S = initialise s in
      calculate_interrupt_trigger_cycle (record t { cycle_count = brk_n * 8; rst_flag = true })

  -- `triggerNMI`
  unfoldable pub trigger_nmi : Cpu S → Cpu S
  trigger_nmi s =
      let t : Cpu S = calculate_interrupt_trigger_cycle (record s { nmi_flag = true }) in
      if t.rdy then t else restart_steal t

  -- `triggerIRQ`
  unfoldable pub trigger_irq : Cpu S → Cpu S
  trigger_irq s =
      let t : Cpu S = calculate_interrupt_trigger_cycle (record s { irq_asserted_on_pin = true }) in
      if not t.rdy && (t.interrupt_cycle == t.cycle_count + cycle_bias) then restart_steal t else t

  -- `clearIRQ`
  unfoldable pub clear_irq : Cpu S → Cpu S
  clear_irq s =
      schedule_phase clear_int_event interrupt_delay phi1 (record s { irq_asserted_on_pin = false })

module _ {S : Type 0} (bus : Bus S) where
  -- `instrTable[cycleCount++]` and the call of its function
  unfoldable pub perform : ProcessorCycle → Cpu S → Outcome S
  perform p s = execute bus p.func (record s { cycle_count = s.cycle_count + 1 })

  -- `eventWithoutSteals`
  unfoldable pub event_without_steals : Cpu S → Outcome S
  event_without_steals s = elim (instr_table s.cycle_count) [
    | none ↦ undefined s
    | some p ↦ then_schedule nosteal_event (perform p s)
  ]

  -- `eventWithSteals`
  unfoldable pub event_with_steals : Cpu S → Outcome S
  event_with_steals s = elim (instr_table s.cycle_count) [
    | none ↦ undefined s
    | some p ↦ if p.nosteal then then_schedule steal_event (perform p s) else running (stalled s)
  ]

  unfoldable pub reset : Cpu S → Cpu S
  reset s =
      let t : Cpu S = bus.cpu_write 1 0x37 (bus.cpu_write 0 0x2f (initialise s)) in
      let u : Cpu S =
        reading bus 0xfffc (λ v u. put_address (set_16lo8 u.effective_address v) u) t in
      let w : Cpu S =
        reading bus 0xfffd (λ v w. put_address (set_16hi8 w.effective_address v) w) u in
      record w { program_counter = w.effective_address }
