-- ===== src/Cpu/Table/Rows.antt =====
-- The shape of a case of the two switches of `buildInstructionTable`.
use libsidplayfp.Base.{ℕ, Bool, List}
use libsidplayfp.Cpu.Func.{ProcessorCycle}

-- The opcodes of the case, whether it sets `access` to READ, and the entries it appends.
pub record Row : Type 0 where
  pub opcodes : List ℕ
  pub reads : Bool
  pub cycles : List ProcessorCycle
