-- ===== src/Cpu/Opcodes.antt =====
-- src/c64/CPU/opcodes.h: the opcodes by their names. The letters after the instruction are the
-- addressing mode. `_all` is a name whose macro lists several opcodes.
mod From0To4
mod From5To8
mod From9ToC
mod FromDToF
pub use From0To4.*
pub use From5To8.*
pub use From9ToC.*
pub use FromDToF.*
use libsidplayfp.Base.{ℕ, List, [], ◌∷◌}

abbrev pub nop_b_all : List ℕ
nop_b_all = nop_b ∷ 0x82 ∷ 0xc2 ∷ 0xe2 ∷ 0x89 ∷ []

abbrev pub nop_z_all : List ℕ
nop_z_all = nop_z ∷ 0x44 ∷ 0x64 ∷ []

abbrev pub sbc_b_all : List ℕ
sbc_b_all = sbc_b ∷ 0xeb ∷ []

abbrev pub nop_n_all : List ℕ
nop_n_all = nop_n ∷ 0x1a ∷ 0x3a ∷ 0x5a ∷ 0x7a ∷ 0xda ∷ 0xfa ∷ []

abbrev pub anc_b_all : List ℕ
anc_b_all = anc_b ∷ 0x2b ∷ []

abbrev pub nop_zx_all : List ℕ
nop_zx_all = nop_zx ∷ 0x34 ∷ 0x54 ∷ 0x74 ∷ 0xd4 ∷ 0xf4 ∷ []

abbrev pub nop_ax_all : List ℕ
nop_ax_all = nop_ax ∷ 0x3c ∷ 0x5c ∷ 0x7c ∷ 0xdc ∷ 0xfc ∷ []
