-- ===== src/World.antt =====
-- The machine around a chip: the event scheduler of src/EventScheduler.h, and all else that the
-- chip's calls of its environment (src/c64/c64env.h) reach.
use libsidplayfp.EventQueue.{Context}

pub record World (S : Type 0) : Type 0 where
  pub context : Context
  pub rest : S
