-- ===== src/Cpu/Opcodes/FromDToF.antt =====
-- src/c64/CPU/opcodes.h: the opcodes whose low digit is d to f.
use libsidplayfp.Base.{ℕ}

abbrev pub ora_a : ℕ
ora_a = 0x0d

abbrev pub and_a : ℕ
and_a = 0x2d

abbrev pub eor_a : ℕ
eor_a = 0x4d

abbrev pub adc_a : ℕ
adc_a = 0x6d

abbrev pub sta_a : ℕ
sta_a = 0x8d

abbrev pub lda_a : ℕ
lda_a = 0xad

abbrev pub cmp_a : ℕ
cmp_a = 0xcd

abbrev pub sbc_a : ℕ
sbc_a = 0xed

abbrev pub asl_a : ℕ
asl_a = 0x0e

abbrev pub rol_a : ℕ
rol_a = 0x2e

abbrev pub lsr_a : ℕ
lsr_a = 0x4e

abbrev pub ror_a : ℕ
ror_a = 0x6e

abbrev pub stx_a : ℕ
stx_a = 0x8e

abbrev pub ldx_a : ℕ
ldx_a = 0xae

abbrev pub dec_a : ℕ
dec_a = 0xce

abbrev pub inc_a : ℕ
inc_a = 0xee

abbrev pub slo_a : ℕ
slo_a = 0x0f

abbrev pub rla_a : ℕ
rla_a = 0x2f

abbrev pub sre_a : ℕ
sre_a = 0x4f

abbrev pub rra_a : ℕ
rra_a = 0x6f

abbrev pub sax_a : ℕ
sax_a = 0x8f

abbrev pub lax_a : ℕ
lax_a = 0xaf

abbrev pub dcp_a : ℕ
dcp_a = 0xcf

abbrev pub isb_a : ℕ
isb_a = 0xef

abbrev pub ora_ax : ℕ
ora_ax = 0x1d

abbrev pub and_ax : ℕ
and_ax = 0x3d

abbrev pub eor_ax : ℕ
eor_ax = 0x5d

abbrev pub adc_ax : ℕ
adc_ax = 0x7d

abbrev pub sta_ax : ℕ
sta_ax = 0x9d

abbrev pub lda_ax : ℕ
lda_ax = 0xbd

abbrev pub cmp_ax : ℕ
cmp_ax = 0xdd

abbrev pub sbc_ax : ℕ
sbc_ax = 0xfd

abbrev pub asl_ax : ℕ
asl_ax = 0x1e

abbrev pub rol_ax : ℕ
rol_ax = 0x3e

abbrev pub lsr_ax : ℕ
lsr_ax = 0x5e

abbrev pub ror_ax : ℕ
ror_ax = 0x7e

abbrev pub shx_ay : ℕ
shx_ay = 0x9e

abbrev pub ldx_ay : ℕ
ldx_ay = 0xbe

abbrev pub dec_ax : ℕ
dec_ax = 0xde

abbrev pub inc_ax : ℕ
inc_ax = 0xfe

abbrev pub slo_ax : ℕ
slo_ax = 0x1f

abbrev pub rla_ax : ℕ
rla_ax = 0x3f

abbrev pub sre_ax : ℕ
sre_ax = 0x5f

abbrev pub rra_ax : ℕ
rra_ax = 0x7f

abbrev pub sha_ay : ℕ
sha_ay = 0x9f

abbrev pub lax_ay : ℕ
lax_ay = 0xbf

abbrev pub dcp_ax : ℕ
dcp_ax = 0xdf

abbrev pub isb_ax : ℕ
isb_ax = 0xff
