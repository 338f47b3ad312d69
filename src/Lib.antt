-- ===== src/Lib.antt =====
-- libsidplayfp: the cycle-exact core of a Commodore 64 that plays SID tunes.
--
-- Everything runs off one scheduler (src/EventScheduler.h and .cpp). An event is a component that
-- asks to be called at a time; time counts half cycles, an even one is phase 1 of a cycle (the
-- auxiliary chips), an odd one phase 2 (the CPU). A component's handler changes its state, reads
-- and writes other components, and schedules itself again. The CPU (src/c64/CPU) does one bus access
-- per call, through the MMU (src/c64/mmu.cpp), which picks the bank of each page; a CIA (src/c64/CIA) has
-- two timers and a time-of-day clock, the VIC-II (src/c64/VIC_II) a raster, and both pull interrupt
-- lines. A tune is parsed and checked (src/sidtune); the player (src/player.cpp) runs the machine for a
-- while, has the tune's driver (src/psiddrv.cpp) relocated (src/reloc65.cpp) and put into the RAM, and
-- copies the tune's data there. The samples of the SIDs are mixed (src/simpleMixer.cpp).
--
-- Files and the code that they model:
--   Base: tests on numbers, lists, statements checked by evaluation, and the laws of the bit
--     operations. No code.
--   Endian: src/sidendian.h.
--   Scheduler: src/EventScheduler.h and .cpp and src/Event.h, as the linked list of events on a heap
--     (`firstEvent`, `next`, `triggerTime`); a pointer to a pointer is a Slot. The loops over the
--     list take fuel; one more than the events that are pending is enough.
--   EventQueue: the same operations on a list of events and times, which is what the other components
--     use. Scheduler.Refine relates the two.
--   Cia.Timer: src/c64/CIA/timer.h and timer.cpp. The state is the record Timer with the bit pattern
--     `m_state`; Flags has the same bits as Booleans. A Machine is a timer with the scheduler.
--   Cia.Tod: src/c64/CIA/tod.h and tod.cpp.
--   Cia.Interrupts: src/c64/CIA/interrupt.h and interrupt.cpp, with the two sources of mos652x.h.
--   Cia.Serial: src/c64/CIA/SerialPort.h and SerialPort.cpp.
--   Cia.Chip: src/c64/CIA/mos652x.h and mos652x.cpp, over the other parts of the chip. What a timer
--     calls on an underflow runs between its `clock` and its `reschedule`, as in the code.
--   Banks.Ram, Rom, Port: src/c64/Banks/SystemRAMBank.h and ColorRAMBank.h, SystemROMBanks.h, and
--     ZeroRAMBank.h.
--   Mmu: src/c64/mmu.h and mmu.cpp. The function and bank pointers of the maps are the data types
--     ReadBank and WriteBank; Mmu.Mapping has the truth table that the maps follow.
--   IoArea: src/c64/Banks/IOBank.h, SidBank.h and ExtraSidBank.h and the functions of src/c64/c64.cpp
--     that fill them: a pointer to a bank is a value of Bank, and what it leads to one of Device.
--   Vic: src/c64/VIC_II. Sprites and Lightpen are the two headers of that name, Cycle and Register
--     are mos656x.cpp: `clockPAL` is the list of cases pal_cases, and so the others.
--   World: the scheduler and the rest of the machine, which a chip reaches through its virtual
--     functions (`interrupt`, `setBA`, `portA`, `portB`); those are parameters.
--   Reloc: src/reloc65.h and reloc65.cpp. Its loops run to a zero byte, so they take fuel: one more
--     than the entries of a table is enough.
--   Tune: src/sidtune, from a buffer of bytes to a tune that is checked. Tune.antt is the tune's record,
--     its speed tables and the selection of a song; Tune.Psid, Mus and Raw are the parsers PSID.cpp,
--     MUS.cpp, p00.cpp and prg.cpp, Tune.Accept the checks of `acceptSidTune` and the placement in the
--     memory, Tune.Load is `getFromBuffer`, Tune.Path SidTuneTools.cpp and Tune.Petscii the text
--     conversion with its SmartPtr.h, a pointer being the bytes from it on. An operation gives a tune, fails
--     with an error, or is an `overrun`, which is a read outside a buffer; a copy into the RAM, of a
--     tune or of its driver, that leaves its file or the 65536 bytes of the RAM gives none. The two MUS players are
--     parameters, and so is the header that `load` leaves partly unwritten on the stack.
--   Driver: src/psiddrv.cpp. The bytes of the driver and of the power-on pattern are parameters; `poweron` is
--     the pattern of src/poweron.bin.
--   Player: how src/player.cpp starts a tune and chooses the models of the machine and the SID. The memory
--     that the machine has after a number of cycles is a parameter.
--     `initialise` installs the driver and then places the tune, as the code does; the comment on `install`
--     in src/psiddrv.h has it the other way round.
--   Mixer: src/simpleMixer.h and simpleMixer.cpp. Samples are integers; a product that
--     overflows 32 bits, and a level that fails the assertion, give none. The stereo levels, which the
--     code has as doubles, are integers over twice the scale: every such product is exact in a double.
--   Cpu.Flags, Cpu.Opcodes: src/c64/CPU/flags.h and opcodes.h.
--   Cpu.State, Access, Arithmetic, Official, Undocumented: the state and the functions of
--     src/c64/CPU/mos6510.h and mos6510.cpp. A C++ method is a function of its name (`FetchLowAddr`
--     is fetch_low_addr, `adc_instr` adc_instr). The data bus is a parameter: a record of a read and
--     a write, either of which may change the whole state, as an access of a chip register may pull
--     an interrupt line.
--   Cpu.Func, Table, Execute, Step: the instruction table that `buildInstructionTable` makes, the call
--     through it, the two events that run a cycle, the pins and reset.
--
-- Numbers: an unsigned integer of w bits wraps as `% 2 ^ w`; `uint_least16_t` and `uint_least32_t`
-- have exactly 16 and 32 bits. `event_clock_t` has no bound here. `interruptCycle` is signed and
-- stands 65536 higher than in the code. Exceptions are values: Outcome says whether the CPU goes
-- on, halts with `haltInstruction`, or has no table entry.
--
-- The queue may hold an event twice, where the linked list of the code would be damaged: the code's
-- components cancel an event before they schedule it again, or schedule it only when it fires.
--
-- Fuel: the credits of a MUS file take one line more than their bytes, as each line takes a byte; the
-- power-on pattern takes one step for each of its bytes.
--
-- Not modelled: debug output, constructors, names of events; the interrupt counter and the BA line of
-- the machine that wires the chips together; reading files and standard input, the search for a second
-- MUS file, MD5 fingerprints; the player's configuration and the SIDs' buffers; the SID emulations (the
-- wave generators and filters are floating point, the other builders drive libraries and hardware); the song length database and STIL.
pub mod Banks
pub mod Base
pub mod Cia
pub mod Cpu
pub mod Driver
pub mod Endian
pub mod EventQueue
pub mod IoArea
pub mod Mixer
pub mod Mmu
pub mod Player
pub mod Reloc
pub mod Scheduler
pub mod Tune
pub mod Vic
pub mod World
