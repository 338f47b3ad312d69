-- ===== src/Cpu/Opcodes/From0To4.antt =====
-- src/c64/CPU/opcodes.h: the opcodes whose low digit is 0 to 4.
use libsidplayfp.Base.{ℕ}

abbrev pub brk_n : ℕ
brk_n = 0x00

abbrev pub jsr_w : ℕ
jsr_w = 0x20

abbrev pub rti_n : ℕ
rti_n = 0x40

abbrev pub rts_n : ℕ
rts_n = 0x60

abbrev pub nop_b : ℕ
nop_b = 0x80

abbrev pub ldy_b : ℕ
ldy_b = 0xa0

abbrev pub cpy_b : ℕ
cpy_b = 0xc0

abbrev pub cpx_b : ℕ
cpx_b = 0xe0

abbrev pub ora_ix : ℕ
ora_ix = 0x01

abbrev pub and_ix : ℕ
and_ix = 0x21

abbrev pub eor_ix : ℕ
eor_ix = 0x41

abbrev pub adc_ix : ℕ
adc_ix = 0x61

abbrev pub sta_ix : ℕ
sta_ix = 0x81

abbrev pub lda_ix : ℕ
lda_ix = 0xa1

abbrev pub cmp_ix : ℕ
cmp_ix = 0xc1

abbrev pub sbc_ix : ℕ
sbc_ix = 0xe1

abbrev pub ldx_b : ℕ
ldx_b = 0xa2

abbrev pub slo_ix : ℕ
slo_ix = 0x03

abbrev pub rla_ix : ℕ
rla_ix = 0x23

abbrev pub sre_ix : ℕ
sre_ix = 0x43

abbrev pub rra_ix : ℕ
rra_ix = 0x63

abbrev pub sax_ix : ℕ
sax_ix = 0x83

abbrev pub lax_ix : ℕ
lax_ix = 0xa3

abbrev pub dcp_ix : ℕ
dcp_ix = 0xc3

abbrev pub isb_ix : ℕ
isb_ix = 0xe3

abbrev pub nop_z : ℕ
nop_z = 0x04

abbrev pub bit_z : ℕ
bit_z = 0x24

abbrev pub sty_z : ℕ
sty_z = 0x84

abbrev pub ldy_z : ℕ
ldy_z = 0xa4

abbrev pub cpy_z : ℕ
cpy_z = 0xc4

abbrev pub cpx_z : ℕ
cpx_z = 0xe4

abbrev pub bpl_r : ℕ
bpl_r = 0x10

abbrev pub bmi_r : ℕ
bmi_r = 0x30

abbrev pub bvc_r : ℕ
bvc_r = 0x50

abbrev pub bvs_r : ℕ
bvs_r = 0x70

abbrev pub bcc_r : ℕ
bcc_r = 0x90

abbrev pub bcs_r : ℕ
bcs_r = 0xb0

abbrev pub bne_r : ℕ
bne_r = 0xd0

abbrev pub beq_r : ℕ
beq_r = 0xf0

abbrev pub ora_iy : ℕ
ora_iy = 0x11

abbrev pub and_iy : ℕ
and_iy = 0x31

abbrev pub eor_iy : ℕ
eor_iy = 0x51

abbrev pub adc_iy : ℕ
adc_iy = 0x71

abbrev pub sta_iy : ℕ
sta_iy = 0x91

abbrev pub lda_iy : ℕ
lda_iy = 0xb1

abbrev pub cmp_iy : ℕ
cmp_iy = 0xd1

abbrev pub sbc_iy : ℕ
sbc_iy = 0xf1

abbrev pub slo_iy : ℕ
slo_iy = 0x13

abbrev pub rla_iy : ℕ
rla_iy = 0x33

abbrev pub sre_iy : ℕ
sre_iy = 0x53

abbrev pub rra_iy : ℕ
rra_iy = 0x73

abbrev pub sha_iy : ℕ
sha_iy = 0x93

abbrev pub lax_iy : ℕ
lax_iy = 0xb3

abbrev pub dcp_iy : ℕ
dcp_iy = 0xd3

abbrev pub isb_iy : ℕ
isb_iy = 0xf3

abbrev pub nop_zx : ℕ
nop_zx = 0x14

abbrev pub sty_zx : ℕ
sty_zx = 0x94

abbrev pub ldy_zx : ℕ
ldy_zx = 0xb4
