-- ===== src/Cpu/Opcodes/From5To8.antt =====
-- src/c64/CPU/opcodes.h: the opcodes whose low digit is 5 to 8.
use libsidplayfp.Base.{ℕ}

abbrev pub ora_z : ℕ
ora_z = 0x05

abbrev pub and_z : ℕ
and_z = 0x25

abbrev pub eor_z : ℕ
eor_z = 0x45

abbrev pub adc_z : ℕ
adc_z = 0x65

abbrev pub sta_z : ℕ
sta_z = 0x85

abbrev pub lda_z : ℕ
lda_z = 0xa5

abbrev pub cmp_z : ℕ
cmp_z = 0xc5

abbrev pub sbc_z : ℕ
sbc_z = 0xe5

abbrev pub asl_z : ℕ
asl_z = 0x06

abbrev pub rol_z : ℕ
rol_z = 0x26

abbrev pub lsr_z : ℕ
lsr_z = 0x46

abbrev pub ror_z : ℕ
ror_z = 0x66

abbrev pub stx_z : ℕ
stx_z = 0x86

abbrev pub ldx_z : ℕ
ldx_z = 0xa6

abbrev pub dec_z : ℕ
dec_z = 0xc6

abbrev pub inc_z : ℕ
inc_z = 0xe6

abbrev pub slo_z : ℕ
slo_z = 0x07

abbrev pub rla_z : ℕ
rla_z = 0x27

abbrev pub sre_z : ℕ
sre_z = 0x47

abbrev pub rra_z : ℕ
rra_z = 0x67

abbrev pub sax_z : ℕ
sax_z = 0x87

abbrev pub lax_z : ℕ
lax_z = 0xa7

abbrev pub dcp_z : ℕ
dcp_z = 0xc7

abbrev pub isb_z : ℕ
isb_z = 0xe7

abbrev pub php_n : ℕ
php_n = 0x08

abbrev pub plp_n : ℕ
plp_n = 0x28

abbrev pub pha_n : ℕ
pha_n = 0x48

abbrev pub pla_n : ℕ
pla_n = 0x68

abbrev pub dey_n : ℕ
dey_n = 0x88

abbrev pub tay_n : ℕ
tay_n = 0xa8

abbrev pub iny_n : ℕ
iny_n = 0xc8

abbrev pub inx_n : ℕ
inx_n = 0xe8

abbrev pub ora_zx : ℕ
ora_zx = 0x15

abbrev pub and_zx : ℕ
and_zx = 0x35

abbrev pub eor_zx : ℕ
eor_zx = 0x55

abbrev pub adc_zx : ℕ
adc_zx = 0x75

abbrev pub sta_zx : ℕ
sta_zx = 0x95

abbrev pub lda_zx : ℕ
lda_zx = 0xb5

abbrev pub cmp_zx : ℕ
cmp_zx = 0xd5

abbrev pub sbc_zx : ℕ
sbc_zx = 0xf5

abbrev pub asl_zx : ℕ
asl_zx = 0x16

abbrev pub rol_zx : ℕ
rol_zx = 0x36

abbrev pub lsr_zx : ℕ
lsr_zx = 0x56

abbrev pub ror_zx : ℕ
ror_zx = 0x76

abbrev pub stx_zy : ℕ
stx_zy = 0x96

abbrev pub ldx_zy : ℕ
ldx_zy = 0xb6

abbrev pub dec_zx : ℕ
dec_zx = 0xd6

abbrev pub inc_zx : ℕ
inc_zx = 0xf6

abbrev pub slo_zx : ℕ
slo_zx = 0x17

abbrev pub rla_zx : ℕ
rla_zx = 0x37

abbrev pub sre_zx : ℕ
sre_zx = 0x57

abbrev pub rra_zx : ℕ
rra_zx = 0x77

abbrev pub sax_zy : ℕ
sax_zy = 0x97

abbrev pub lax_zy : ℕ
lax_zy = 0xb7

abbrev pub dcp_zx : ℕ
dcp_zx = 0xd7

abbrev pub isb_zx : ℕ
isb_zx = 0xf7

abbrev pub clc_n : ℕ
clc_n = 0x18

abbrev pub sec_n : ℕ
sec_n = 0x38

abbrev pub cli_n : ℕ
cli_n = 0x58

abbrev pub sei_n : ℕ
sei_n = 0x78

abbrev pub tya_n : ℕ
tya_n = 0x98

abbrev pub clv_n : ℕ
clv_n = 0xb8

abbrev pub cld_n : ℕ
cld_n = 0xd8

abbrev pub sed_n : ℕ
sed_n = 0xf8
