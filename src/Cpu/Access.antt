-- ===== src/Cpu/Access.antt =====
-- src/c64/CPU/mos6510.cpp: the interrupt routines, the addressing modes and the stack.
pub mod Stack
use libsidplayfp.Base.{
  ℕ, ◌+◌, ◌-◌, ◌*◌, ◌%◌, ◌^◌, bit_and, bit_or, Bool, true, false, not, ltb, ◌==◌, if◌then◌else◌,
}
use libsidplayfp.Endian.{get_16lo8, get_16hi8, set_16lo8, set_16hi8, endian_16}
use libsidplayfp.Cpu.Flags.{get_sr, set_sr}
use libsidplayfp.Cpu.State.{
  Cpu, Bus, u8, u16, cycle_bias, never, earlier, interrupt_delay, check_interrupts,
  calculate_interrupt_trigger_cycle, set_i, reading,
}

module _ {S : Type 0} where
  abbrev pub at_pc : Cpu S → ℕ
  at_pc s = s.program_counter

  -- `Register_ProgramCounter++`
  abbrev pub next_pc : Cpu S → Cpu S
  next_pc s = record s { program_counter = u16 (s.program_counter + 1) }

  abbrev pub put_address : ℕ → Cpu S → Cpu S
  put_address a s = record s { effective_address = a }

  abbrev pub put_pointer : ℕ → Cpu S → Cpu S
  put_pointer a s = record s { pointer = a }

  abbrev pub put_data : ℕ → Cpu S → Cpu S
  put_data b s = record s { data_byte = b }

  -- `if (!adl_carry) cycleCount++`
  abbrev pub skip_unless_carry : Cpu S → Cpu S
  skip_unless_carry s = if s.adl_carry then s else record s { cycle_count = s.cycle_count + 1 }

  abbrev pub add_index : ℕ → Cpu S → Cpu S
  add_index index s =
      let sum = u16 (s.effective_address + index) in
      record s { effective_address = sum; adl_carry = ltb 0xff sum }

module _ {S : Type 0} (bus : Bus S) where
  unfoldable pub fetch_next_opcode : Cpu S → Cpu S
  fetch_next_opcode s =
      reading bus s.program_counter
        (λ v t.
          let u : Cpu S = next_pc (record t { cycle_count = v * 2 ^ 3 }) in
          if not (check_interrupts u)
          then record u { interrupt_cycle = never }
          else (if u.interrupt_cycle == never then u else record u { interrupt_cycle = earlier }))
        (record s { rdy_on_throw_away_read = false })

  unfoldable pub interrupts_and_next_opcode : Cpu S → Cpu S
  interrupts_and_next_opcode s =
      if ltb (s.interrupt_cycle + interrupt_delay) (s.cycle_count + cycle_bias)
      then reading bus s.program_counter
          (λ v t. record t { cycle_count = 0x00 * 2 ^ 3; d1x1 = true; interrupt_cycle = never }) s
      else fetch_next_opcode s

  unfoldable pub irq_lo_request : Cpu S → Cpu S
  irq_lo_request s =
      reading bus s.effective_address
        (λ v t. record t { program_counter = set_16lo8 t.program_counter v; d1x1 = false }) s

  unfoldable pub irq_hi_request : Cpu S → Cpu S
  irq_hi_request s =
      reading bus (u16 (s.effective_address + 1))
        (λ v t. set_i true (record t { program_counter = set_16hi8 t.program_counter v })) s

  unfoldable pub throw_away_fetch : Cpu S → Cpu S
  throw_away_fetch s = reading bus s.program_counter (λ v t. t) s

  unfoldable pub throw_away_read : Cpu S → Cpu S
  throw_away_read s =
      reading bus s.effective_address
        (λ v t. if t.adl_carry then put_address (u16 (t.effective_address + 0x100)) t else t) s

  unfoldable pub fetch_data_byte : Cpu S → Cpu S
  fetch_data_byte s =
      reading bus s.program_counter (λ v t. if t.d1x1 then put_data v t else next_pc (put_data v t))
        s

  unfoldable pub fetch_low_addr : Cpu S → Cpu S
  fetch_low_addr s = reading bus s.program_counter (λ v t. next_pc (put_address v t)) s

  unfoldable pub fetch_low_addr_x : Cpu S → Cpu S
  fetch_low_addr_x s =
      let t : Cpu S = fetch_low_addr s in put_address (bit_and (t.effective_address + t.x) 0xff) t

  unfoldable pub fetch_low_addr_y : Cpu S → Cpu S
  fetch_low_addr_y s =
      let t : Cpu S = fetch_low_addr s in put_address (bit_and (t.effective_address + t.y) 0xff) t

  unfoldable pub fetch_high_addr : Cpu S → Cpu S
  fetch_high_addr s =
      reading bus s.program_counter
        (λ v t. next_pc (put_address (set_16hi8 t.effective_address v) t)) s

  unfoldable pub fetch_high_addr_x : Cpu S → Cpu S
  fetch_high_addr_x s = fetch_high_addr (add_index s.x s)

  unfoldable pub fetch_high_addr_x2 : Cpu S → Cpu S
  fetch_high_addr_x2 s = skip_unless_carry (fetch_high_addr_x s)

  unfoldable pub fetch_high_addr_y : Cpu S → Cpu S
  fetch_high_addr_y s = fetch_high_addr (add_index s.y s)

  unfoldable pub fetch_high_addr_y2 : Cpu S → Cpu S
  fetch_high_addr_y2 s = skip_unless_carry (fetch_high_addr_y s)

  unfoldable pub fetch_low_pointer : Cpu S → Cpu S
  fetch_low_pointer s = reading bus s.program_counter (λ v t. next_pc (put_pointer v t)) s

  unfoldable pub fetch_low_pointer_x : Cpu S → Cpu S
  fetch_low_pointer_x s = put_pointer (set_16lo8 s.pointer (bit_and (s.pointer + s.x) 0xff)) s

  unfoldable pub fetch_high_pointer : Cpu S → Cpu S
  fetch_high_pointer s =
      reading bus s.program_counter (λ v t. next_pc (put_pointer (set_16hi8 t.pointer v) t)) s

  unfoldable pub fetch_low_eff_addr : Cpu S → Cpu S
  fetch_low_eff_addr s = reading bus s.pointer (λ v t. put_address v t) s

  unfoldable pub fetch_high_eff_addr : Cpu S → Cpu S
  fetch_high_eff_addr s =
      let t : Cpu S = put_pointer (set_16lo8 s.pointer (bit_and (s.pointer + 1) 0xff)) s in
      reading bus t.pointer (λ v u. put_address (set_16hi8 u.effective_address v) u) t

  unfoldable pub fetch_high_eff_addr_y : Cpu S → Cpu S
  fetch_high_eff_addr_y s = fetch_high_eff_addr (add_index s.y s)

  unfoldable pub fetch_high_eff_addr_y2 : Cpu S → Cpu S
  fetch_high_eff_addr_y2 s = skip_unless_carry (fetch_high_eff_addr_y s)

  unfoldable pub fetch_eff_addr_data_byte : Cpu S → Cpu S
  fetch_eff_addr_data_byte s = reading bus s.effective_address (λ v t. put_data v t) s

  unfoldable pub put_eff_addr_data_byte : Cpu S → Cpu S
  put_eff_addr_data_byte s = bus.cpu_write s.effective_address s.data_byte s

  unfoldable pub push : ℕ → Cpu S → Cpu S
  push byte s =
      let t : Cpu S = bus.cpu_write (endian_16 0x01 s.stack_pointer) byte s in
      record t { stack_pointer = u8 (t.stack_pointer + 255) }

  -- `Pop`, and what is done with the byte
  unfoldable pub pop : (ℕ → Cpu S → Cpu S) → Cpu S → Cpu S
  pop next s =
      let t : Cpu S = record s { stack_pointer = u8 (s.stack_pointer + 1) } in
      reading bus (endian_16 0x01 t.stack_pointer) next t

  unfoldable pub push_sr : Cpu S → Cpu S
  push_sr s = push (bit_or (get_sr s.flags) (if s.d1x1 then 0x20 else 0x30)) s

  unfoldable pub pop_sr : Cpu S → Cpu S
  pop_sr = pop (λ v t. calculate_interrupt_trigger_cycle (record t { flags = set_sr v }))

  unfoldable pub push_low_pc : Cpu S → Cpu S
  push_low_pc s = push (get_16lo8 s.program_counter) s

  unfoldable pub push_high_pc : Cpu S → Cpu S
  push_high_pc s = push (get_16hi8 s.program_counter) s

  unfoldable pub pop_low_pc : Cpu S → Cpu S
  pop_low_pc = pop (λ v t. put_address (set_16lo8 t.effective_address v) t)

  unfoldable pub pop_high_pc : Cpu S → Cpu S
  pop_high_pc = pop (λ v t. put_address (set_16hi8 t.effective_address v) t)

  unfoldable pub waste_cycle : Cpu S → Cpu S
  waste_cycle s = s

  unfoldable pub brk_push_low_pc : Cpu S → Cpu S
  brk_push_low_pc s =
      let t : Cpu S = push_low_pc s in
      let vector = if t.rst_flag then 0xfffc else (if t.nmi_flag then 0xfffa else 0xfffe) in
      calculate_interrupt_trigger_cycle
        (record t { effective_address = vector; rst_flag = false; nmi_flag = false })
