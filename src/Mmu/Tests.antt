-- ===== src/Mmu/Tests.antt =====
-- The MMU at a given state.
use libsidplayfp.Base.{ℕ, ◌/◌, ◌^◌, ◌≡◌, ◌≢◌, refl, sym, ◌∙◌, arith, true, false, []}
use libsidplayfp.Banks.Port.{DataBit}
use libsidplayfp.Mmu.{
  Mmu, Io, reads_kernal, reads_ram, reads_io, constructed, update_mapping, set_cpu_port, cpu_read,
  cpu_write, reset_mmu,
}
use libsidplayfp.Mmu.Mapping.{
  IsMapped, pla_read, here, then_step, resets, writes_byte, new_mmu-IsMapped, set_cpu_port-IsMapped,
}
use libsidplayfp.Mmu.Shadow.{cpu_read-set_cpu_port-cpu_write}

abbrev blank_bit : DataBit
blank_bit = record { data_set_clk = 0; is_falling_off = false; data_set = 0 }

abbrev blank_mmu : Mmu ℕ
blank_mmu = record {
  event_scheduler = record { now = 0; queue = [] };
  rest = 0;
  loram = true;
  hiram = true;
  charen = true;
  cpu_read_map = [];
  cpu_write_map = [];
  kernal = record { kernal_rom = λ a. 0x55; reset_vector = 0 };
  basic = record { basic_rom = λ a. 0; trap = λ a. 0; sub_tune = λ a. 0 };
  character = λ a. 0;
  ram = λ a. 0;
  port = record {
    data_bit6 = blank_bit;
    data_bit7 = blank_bit;
    dir = 0;
    latch = 0;
    data_read = 0;
    proc_port_pins = 0;
  };
  seed = 1;
}

-- Chips that read as 0 and ignore writes
abbrev quiet_io : Io ℕ
quiet_io = record { io_peek = λ a m. (0, m); io_poke = λ a v m. m }

new_mmu-IsMapped_example : IsMapped (cpu_write quiet_io 1 0x37 (reset_mmu (constructed blank_mmu)))
new_mmu-IsMapped_example =
    new_mmu-IsMapped quiet_io (λ a v m mapped. mapped) (λ a m mapped. mapped) blank_mmu
      (then_step (then_step (here (constructed blank_mmu)) (resets (constructed blank_mmu)))
        (writes_byte 1 0x37 (reset_mmu (constructed blank_mmu))))

abbrev mapped_mmu : Mmu ℕ
mapped_mmu = set_cpu_port 7 (constructed blank_mmu)

mapped_mmu-IsMapped : IsMapped mapped_mmu
mapped_mmu-IsMapped = set_cpu_port-IsMapped 7 (constructed blank_mmu) (
    new_mmu-IsMapped quiet_io (λ a v m mapped. mapped) (λ a m mapped. mapped) blank_mmu
      (here (constructed blank_mmu)))

kernal_page :
    pla_read mapped_mmu.loram mapped_mmu.hiram mapped_mmu.charen (0xe000 / 2 ^ 12) ≡ reads_kernal
unfolding pla_read set_cpu_port update_mapping constructed
kernal_page = refl

kernal≢io : reads_kernal ≢ reads_io
kernal≢io e = ground (arith, e)

kernal≢ram : reads_kernal ≢ reads_ram
kernal≢ram e = ground (arith, e)

cpu_read-set_cpu_port-cpu_write_example :
    ((cpu_read quiet_io 0xe000 (cpu_write quiet_io 0xe000 0x42 mapped_mmu)).0
      ≡ (cpu_read quiet_io 0xe000 mapped_mmu).0)
    × ((cpu_read quiet_io 0xe000 (set_cpu_port 0 (cpu_write quiet_io 0xe000 0x42 mapped_mmu))).0
        ≡ 0x42)
cpu_read-set_cpu_port-cpu_write_example =
    cpu_read-set_cpu_port-cpu_write quiet_io 0xe000 0x42 mapped_mmu mapped_mmu-IsMapped
      (omega arith) (omega arith) (λ e. kernal≢io (sym kernal_page ∙ e))
      (λ e. kernal≢ram (sym kernal_page ∙ e))
