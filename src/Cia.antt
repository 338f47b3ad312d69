-- ===== src/Cia.antt =====
-- src/c64/CIA: the MOS 6526/8521 Complex Interface Adapter.
pub mod Timer
pub mod Tod
pub mod Interrupts
pub mod Serial
pub mod Chip
