-- ===== src/Cia/Chip/Ports.antt =====
-- The registers of src/c64/CIA/mos652x.cpp through the work of its timers.
use libsidplayfp.Base.{put_at, ℕ, ◌-◌, ◌≡◌, refl, ap, ap₂, ◌∙◌, arith, bit_or}
use libsidplayfp.Cia.Chip.{
  Machine, Env, Ids, sync_a, sync_b, wake_up_a, wake_up_b, if_under_a, if_under_b, underflow_a,
  underflow_b, handle_serial_port, pra, ddra,
}
use libsidplayfp.Cia.Chip.Events.{read, write, read_register, write_cases, sync_timers}

module _ {S : Type 0} (ids : Ids) where
  sync_a-regs : (m : Machine S) → (sync_a ids m).this.regs ≡ m.this.regs
  unfolding sync_a if_under_a underflow_a handle_serial_port
  sync_a-regs m = ground arith

  sync_b-regs : (m : Machine S) → (sync_b ids m).this.regs ≡ m.this.regs
  unfolding sync_b if_under_b underflow_b
  sync_b-regs m = ground arith

  wake_up_a-regs : (m : Machine S) → (wake_up_a ids m).this.regs ≡ m.this.regs
  unfolding wake_up_a
  wake_up_a-regs m = refl

  wake_up_b-regs : (m : Machine S) → (wake_up_b ids m).this.regs ≡ m.this.regs
  unfolding wake_up_b
  wake_up_b-regs m = refl

  sync_timers-regs : (env : Env S) (m : Machine S) → (sync_timers env ids m).this.regs ≡ m.this.regs
  sync_timers-regs env m =
      wake_up_b-regs (sync_b ids (wake_up_a ids (sync_a ids m)))
      ∙ sync_b-regs (wake_up_a ids (sync_a ids m))
      ∙ wake_up_a-regs (sync_a ids m)
      ∙ sync_a-regs m

module _ {S : Type 0} (env : Env S) (ids : Ids) where
  -- Port A reads what was written to its output lines, and 1 on its input lines, whatever the timers
  -- and the interrupts do meanwhile.
  pub read-write-pra :
      (value : ℕ) (m : Machine S)
      → (read env ids pra (write env ids pra value m)).0 ≡ bit_or value (255 - m.this.regs ddra)
  unfolding read write read_register write_cases put_at wake_up_a wake_up_b
  read-write-pra value m =
      let synced = sync_b ids (sync_a ids m) in
      let kept : synced.this.regs ≡ m.this.regs =
        sync_b-regs ids (sync_a ids m) ∙ sync_a-regs ids m in
      let after = sync_timers-regs ids env (write env ids pra value m) in
      ap₂ (λ (data_byte direction : ℕ). bit_or data_byte (255 - direction))
        (ap (λ (f : ℕ → ℕ). f pra) after)
        (ap (λ (f : ℕ → ℕ). f ddra) after ∙ ap (λ (f : ℕ → ℕ). f ddra) kept)
