-- ===== src/Cpu/Opcodes/From9ToC.antt =====
-- src/c64/CPU/opcodes.h: the opcodes whose low digit is 9 to c.
use libsidplayfp.Base.{ℕ}

abbrev pub ora_b : ℕ
ora_b = 0x09

abbrev pub and_b : ℕ
and_b = 0x29

abbrev pub eor_b : ℕ
eor_b = 0x49

abbrev pub adc_b : ℕ
adc_b = 0x69

abbrev pub lda_b : ℕ
lda_b = 0xa9

abbrev pub cmp_b : ℕ
cmp_b = 0xc9

abbrev pub sbc_b : ℕ
sbc_b = 0xe9

abbrev pub asl_n : ℕ
asl_n = 0x0a

abbrev pub rol_n : ℕ
rol_n = 0x2a

abbrev pub lsr_n : ℕ
lsr_n = 0x4a

abbrev pub ror_n : ℕ
ror_n = 0x6a

abbrev pub txa_n : ℕ
txa_n = 0x8a

abbrev pub tax_n : ℕ
tax_n = 0xaa

abbrev pub dex_n : ℕ
dex_n = 0xca

abbrev pub nop_n : ℕ
nop_n = 0xea

abbrev pub anc_b : ℕ
anc_b = 0x0b

abbrev pub asr_b : ℕ
asr_b = 0x4b

abbrev pub arr_b : ℕ
arr_b = 0x6b

abbrev pub ane_b : ℕ
ane_b = 0x8b

abbrev pub lxa_b : ℕ
lxa_b = 0xab

abbrev pub sbx_b : ℕ
sbx_b = 0xcb

abbrev pub nop_a : ℕ
nop_a = 0x0c

abbrev pub bit_a : ℕ
bit_a = 0x2c

abbrev pub jmp_w : ℕ
jmp_w = 0x4c

abbrev pub jmp_i : ℕ
jmp_i = 0x6c

abbrev pub sty_a : ℕ
sty_a = 0x8c

abbrev pub ldy_a : ℕ
ldy_a = 0xac

abbrev pub cpy_a : ℕ
cpy_a = 0xcc

abbrev pub cpx_a : ℕ
cpx_a = 0xec

abbrev pub ora_ay : ℕ
ora_ay = 0x19

abbrev pub and_ay : ℕ
and_ay = 0x39

abbrev pub eor_ay : ℕ
eor_ay = 0x59

abbrev pub adc_ay : ℕ
adc_ay = 0x79

abbrev pub sta_ay : ℕ
sta_ay = 0x99

abbrev pub lda_ay : ℕ
lda_ay = 0xb9

abbrev pub cmp_ay : ℕ
cmp_ay = 0xd9

abbrev pub sbc_ay : ℕ
sbc_ay = 0xf9

abbrev pub txs_n : ℕ
txs_n = 0x9a

abbrev pub tsx_n : ℕ
tsx_n = 0xba

abbrev pub slo_ay : ℕ
slo_ay = 0x1b

abbrev pub rla_ay : ℕ
rla_ay = 0x3b

abbrev pub sre_ay : ℕ
sre_ay = 0x5b

abbrev pub rra_ay : ℕ
rra_ay = 0x7b

abbrev pub shs_ay : ℕ
shs_ay = 0x9b

abbrev pub las_ay : ℕ
las_ay = 0xbb

abbrev pub dcp_ay : ℕ
dcp_ay = 0xdb

abbrev pub isb_ay : ℕ
isb_ay = 0xfb

abbrev pub nop_ax : ℕ
nop_ax = 0x1c

abbrev pub shy_ax : ℕ
shy_ax = 0x9c

abbrev pub ldy_ax : ℕ
ldy_ax = 0xbc
