-- ===== src/Scheduler/Refine.antt =====
-- The pointer operations of src/EventScheduler.h implement the operations of the event queue.
mod Linked
mod Insert
mod Cancel
pub mod Runs
