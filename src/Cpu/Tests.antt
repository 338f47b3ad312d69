-- ===== src/Cpu/Tests.antt =====
-- The laws of the CPU at given bytes, opcodes and states.
use libsidplayfp.Base.{
  ℕ, ◌+◌, ◌*◌, ◌%◌, ◌≡◌, refl, true, false, ◌==◌, leb, if◌then◌else◌, to_ℕ, [], arith,
}
use libsidplayfp.Endian.{get_16lo8}
use libsidplayfp.Cpu.Flags.{reset_flags}
use libsidplayfp.Cpu.State.{Cpu, Bus}
use libsidplayfp.Cpu.Access.Stack.{HasStack}
use libsidplayfp.Cpu.Arithmetic.{adc_decimal}
use libsidplayfp.Cpu.Arithmetic.Adc.{packed, adc_decimal_lem}
use libsidplayfp.Cpu.Official.{branch_taken}
use libsidplayfp.Cpu.Func.{Func, cycle, nosteal_cycle}
use libsidplayfp.Cpu.Table.Shape.{nosteal-writes, perform-steal}
use libsidplayfp.Cpu.Table.Tests.{lda_fetches, sta_writes}
use libsidplayfp.Cpu.Table.Counts.{counting, count}
use libsidplayfp.Cpu.Step.{perform}

-- The state of the rest: 64 KB of memory.
abbrev Memory : Type 0
Memory = ℕ → ℕ

abbrev peek : Memory → ℕ → ℕ
peek m a = m a

abbrev poke : ℕ → ℕ → Memory → Memory
poke a v m b = if a == b then v else m b

abbrev memory_read : ℕ → Cpu Memory → ℕ × Cpu Memory
memory_read a s = (s.rest a, s)

abbrev memory_write : ℕ → ℕ → Cpu Memory → Cpu Memory
memory_write a v s = record s { rest = poke a v s.rest }

abbrev memory_bus : Bus Memory
memory_bus = record { cpu_read = memory_read; cpu_write = memory_write }

memory_bus-HasStack : HasStack memory_bus peek poke
memory_bus-HasStack = record {
  read_cell = λ a s h. refl;
  write_cell = λ a v s h. refl;
  peek_poke = λ a v m h. ground arith;
  peek_other = λ a b v m h. ground arith;
}

-- At $12fe with operand $10 and the stack pointer at 0.
abbrev cpu : Cpu Memory
cpu = record {
  event_scheduler = record { now = 0; queue = [] };
  rest = λ a. 0;
  cycle_count = 0;
  interrupt_cycle = 131072;
  irq_asserted_on_pin = false;
  nmi_flag = false;
  rst_flag = false;
  rdy = true;
  adl_carry = false;
  d1x1 = false;
  rdy_on_throw_away_read = false;
  flags = reset_flags;
  program_counter = 0x12fe;
  effective_address = 0;
  pointer = 0;
  data_byte = 0x10;
  stack_pointer = 0;
  accumulator = 0;
  x = 0;
  y = 0;
}

adc_decimal_lem_example :
    ((adc_decimal (packed 58) (packed 67) (to_ℕ true) reset_flags).0
      ≡ packed ((58 + 67 + to_ℕ true) % 100))
    × ((adc_decimal (packed 58) (packed 67) (to_ℕ true) reset_flags).1.c
        ≡ leb 100 (58 + 67 + to_ℕ true))
adc_decimal_lem_example = adc_decimal_lem 58 67 true reset_flags (omega arith) (omega arith)

crosses : (branch_taken cpu).adl_carry ≡ true
unfolding branch_taken get_16lo8
crosses = refl

abbrev counted_cpu : Cpu ℕ
counted_cpu = record {
  event_scheduler = record { now = 0; queue = [] };
  rest = 0;
  cycle_count = 0x8d * 8 + 2;
  interrupt_cycle = 131072;
  irq_asserted_on_pin = false;
  nmi_flag = false;
  rst_flag = false;
  rdy = true;
  adl_carry = false;
  d1x1 = false;
  rdy_on_throw_away_read = false;
  flags = reset_flags;
  program_counter = 0x1003;
  effective_address = 0x2000;
  pointer = 0;
  data_byte = 0;
  stack_pointer = 0xff;
  accumulator = 0x42;
  x = 0;
  y = 0;
}

-- The last cycle of STA absolute
nosteal-writes_example :
    count (perform (counting (λ a. 0xea)) (nosteal_cycle Func.sta_instr) counted_cpu) ≡ 1
nosteal-writes_example =
    nosteal-writes (λ a. 0xea) (0x8d * 8 + 2) (nosteal_cycle Func.sta_instr) counted_cpu
      (omega arith) sta_writes

perform-steal_example :
    perform
      (record { cpu_read = memory_read; cpu_write = memory_write })
      (cycle Func.fetch_data_byte)
      cpu
    ≡ perform
        (record { cpu_read = memory_read; cpu_write = λ a v s. s })
        (cycle Func.fetch_data_byte)
        cpu
perform-steal_example =
    perform-steal memory_read memory_write (λ a v s. s) (0xa9 * 8) (cycle Func.fetch_data_byte) cpu
      (omega arith) lda_fetches refl
