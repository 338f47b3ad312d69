-- ===== src/Cpu/Access/Stack.antt =====
-- The stack of the CPU on a bus that has plain memory in page 1.
use libsidplayfp.Base.{ℕ, ◌+◌, ◌/◌, ◌%◌, ◌^◌, ◌<◌, arith, ◌≡◌, ◌≢◌, ap, ap₂, ◌∙◌}
use libsidplayfp.Endian.{endian_16, get_16lo8, get_16hi8, set_16lo8, set_16hi8}
use libsidplayfp.Endian.Laws.{endian_16_lem, set_16lo8_lem, set_16hi8_lem}
use libsidplayfp.Cpu.State.{Cpu, Bus, u8}
use libsidplayfp.Cpu.Access.{push, pop, push_high_pc, push_low_pc, pop_low_pc, pop_high_pc}

-- Page 1 of the memory behind the bus: `peek` and `poke` are its cells.
pub record HasStack {S : Type 0} (bus : Bus S) (peek : S → ℕ → ℕ) (poke : ℕ → ℕ → S → S)
    : Type 0 where
  pub read_cell : (a : ℕ) (s : Cpu S) → a / 256 ≡ 1 → bus.cpu_read a s ≡ (peek s.rest a, s)
  pub write_cell :
      (a v : ℕ) (s : Cpu S)
      → a / 256 ≡ 1
      → bus.cpu_write a v s ≡ record s { rest = poke a v s.rest }
  pub peek_poke : (a v : ℕ) (m : S) → v < 256 → peek (poke a v m) a ≡ v
  pub peek_other : (a b v : ℕ) (m : S) → a ≢ b → peek (poke a v m) b ≡ peek m b

module _ {S : Type 0} (bus : Bus S) (peek : S → ℕ → ℕ) (poke : ℕ → ℕ → S → S)
    (stack : HasStack bus peek poke) where
  stack_address : (n : ℕ) → n < 256 → endian_16 0x01 n ≡ 256 + n
  stack_address n h = omega (arith, endian_16_lem 1 n h)

  -- `Push` writes the cell that the stack pointer names, and moves the pointer down.
  pub push_lem :
      (v : ℕ) (s : Cpu S)
      → s.stack_pointer < 256
      → push bus v s ≡ record s {
        rest = poke (256 + s.stack_pointer) v s.rest;
        stack_pointer = (s.stack_pointer + 255) % 256;
      }
  unfolding push
  push_lem v s h =
      ap (λ (t : Cpu S). record t { stack_pointer = u8 (t.stack_pointer + 255) })
        (ap (λ (a : ℕ). bus.cpu_write a v s) (stack_address s.stack_pointer h)
          ∙ stack.write_cell (256 + s.stack_pointer) v s (omega arith))

  -- `Pop` moves the pointer up, and reads the cell that it names then.
  pub pop_lem :
      (next : ℕ → Cpu S → Cpu S) (s : Cpu S)
      → pop bus next s
        ≡ next
            (peek s.rest (256 + (s.stack_pointer + 1) % 256) % 256)
            (record s { stack_pointer = (s.stack_pointer + 1) % 256 })
  unfolding pop
  pop_lem next s =
      let t : Cpu S = record s { stack_pointer = (s.stack_pointer + 1) % 256 } in
      ap (λ (r : ℕ × Cpu S). next (u8 r.0) r.1)
        (ap (λ (a : ℕ). bus.cpu_read a t) (stack_address t.stack_pointer (omega arith))
          ∙ stack.read_cell (256 + t.stack_pointer) t (omega arith))

  abbrev pushed : Cpu S → Cpu S
  pushed s = record s {
    rest =
        poke (256 + (s.stack_pointer + 255) % 256) (get_16lo8 s.program_counter)
          (poke (256 + s.stack_pointer) (get_16hi8 s.program_counter) s.rest);
    stack_pointer = ((s.stack_pointer + 255) % 256 + 255) % 256;
  }

  push_low_pc-push_high_pc :
      (s : Cpu S) → s.stack_pointer < 256 → push_low_pc bus (push_high_pc bus s) ≡ pushed s
  unfolding push_high_pc push_low_pc
  push_low_pc-push_high_pc s h =
      ap (push_low_pc bus) (push_lem (get_16hi8 s.program_counter) s h)
      ∙ push_lem (get_16lo8 s.program_counter) _ (omega arith)

  low_cell :
      (s : Cpu S)
      → s.stack_pointer < 256
      → peek (pushed s).rest (256 + ((pushed s).stack_pointer + 1) % 256)
        ≡ get_16lo8 s.program_counter
  unfolding get_16lo8
  low_cell s h =
      ap (peek (pushed s).rest) (omega arith)
      ∙ stack.peek_poke (256 + (s.stack_pointer + 255) % 256) _ _ (omega arith)

  high_cell :
      (s : Cpu S)
      → s.stack_pointer < 256
      → peek (pushed s).rest (256 + (((pushed s).stack_pointer + 1) % 256 + 1) % 256)
        ≡ get_16hi8 s.program_counter
  unfolding get_16hi8
  high_cell s h =
      ap (peek (pushed s).rest) {y = 256 + s.stack_pointer} (omega arith)
      ∙ (stack.peek_other (256 + (s.stack_pointer + 255) % 256) (256 + s.stack_pointer) _ _
            (λ e. absurd (omega arith))
          ∙ stack.peek_poke (256 + s.stack_pointer) _ _ (omega arith))

  return_word :
      (s : Cpu S)
      → s.program_counter < 65536
      → s.effective_address < 65536
      → set_16hi8
          (set_16lo8 s.effective_address (get_16lo8 s.program_counter % 256))
          (get_16hi8 s.program_counter % 256)
        ≡ s.program_counter
  unfolding get_16lo8 get_16hi8
  return_word s hp he =
      let low = s.program_counter % 256 % 256 in
      omega (
        arith,
        set_16hi8_lem (set_16lo8 s.effective_address low) (s.program_counter / 2 ^ 8 % 256 % 256),
        set_16lo8_lem s.effective_address low he (omega arith),
      )

  popped :
      (s : Cpu S)
      → s.stack_pointer < 256
      → s.program_counter < 65536
      → s.effective_address < 65536
      → pop_high_pc bus (pop_low_pc bus (push_low_pc bus (push_high_pc bus s)))
        ≡ record (pushed s) {
          effective_address = s.program_counter;
          stack_pointer = s.stack_pointer;
        }
  unfolding pop_low_pc pop_high_pc
  popped s h hp he =
      ap (λ (u : Cpu S). pop_high_pc bus (pop_low_pc bus u)) (push_low_pc-push_high_pc s h)
      ∙ (ap (pop_high_pc bus) (pop_lem _ (pushed s))
          ∙ (pop_lem _ _
              ∙ ap₂ (λ (a n : ℕ). record (pushed s) { effective_address = a; stack_pointer = n })
                  (ap₂ (λ (l u : ℕ). set_16hi8 (set_16lo8 s.effective_address (l % 256)) (u % 256))
                      (low_cell s h) (high_cell s h)
                    ∙ return_word s hp he)
                  (omega arith)))

  -- The return address that JSR and an interrupt push comes back from the stack as it was, and the
  -- stack pointer with it.
  pub pop_pc-push_pc :
      (s : Cpu S)
      → s.stack_pointer < 256
      → s.program_counter < 65536
      → s.effective_address < 65536
      → let t : Cpu S = pop_high_pc bus (pop_low_pc bus (push_low_pc bus (push_high_pc bus s))) in
        (t.effective_address ≡ s.program_counter) × (t.stack_pointer ≡ s.stack_pointer)
  pop_pc-push_pc s h hp he =
      let back = popped s h hp he in
      (ap (λ (t : Cpu S). t.effective_address) back, ap (λ (t : Cpu S). t.stack_pointer) back)
