-- ===== src/Banks.antt =====
-- src/c64/Banks: the memory of the machine. A memory is a function from addresses; an array of the
-- code that is smaller is read and written at the index that the code computes.
pub mod Ram
pub mod Rom
pub mod Port
mod Tests
