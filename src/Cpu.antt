-- ===== src/Cpu.antt =====
-- src/c64/CPU: the 6510. Flags is flags.h, Opcodes opcodes.h; State to Step are mos6510.h and
-- mos6510.cpp, less the debug trace (`cpu_debug`).
pub mod Flags
pub mod Opcodes
pub mod State
pub mod Access
pub mod Arithmetic
pub mod Official
pub mod Undocumented
pub mod Func
pub mod Table
pub mod Execute
pub mod Step
mod Tests
