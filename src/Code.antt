-- ===== src/Code.antt =====
-- The command codes CHIP32_CMD_*. Every code that has no name here is a `nop`.
use chip.Prelude.{ℕ}

abbrev pub nop_code : ℕ
nop_code = 0x00

abbrev pub move_code : ℕ
move_code = 0x01

abbrev pub inc_code : ℕ
inc_code = 0x02

abbrev pub dec_code : ℕ
dec_code = 0x03

abbrev pub sum_code : ℕ
sum_code = 0x04

abbrev pub dif_code : ℕ
dif_code = 0x05

abbrev pub mul_code : ℕ
mul_code = 0x06

abbrev pub div_code : ℕ
div_code = 0x07

abbrev pub mod_code : ℕ
mod_code = 0x08

abbrev pub or_code : ℕ
or_code = 0x09

abbrev pub xor_code : ℕ
xor_code = 0x0a

abbrev pub and_code : ℕ
and_code = 0x0b

abbrev pub not_code : ℕ
not_code = 0x0c

abbrev pub shl_code : ℕ
shl_code = 0x0d

abbrev pub shr_code : ℕ
shr_code = 0x0e

abbrev pub rol_code : ℕ
rol_code = 0x0f

abbrev pub ror_code : ℕ
ror_code = 0x10

abbrev pub bor_code : ℕ
bor_code = 0x11

abbrev pub band_code : ℕ
band_code = 0x12

abbrev pub bnot_code : ℕ
bnot_code = 0x13

abbrev pub jmp_code : ℕ
jmp_code = 0x20

abbrev pub ift_code : ℕ
ift_code = 0x21

abbrev pub iff_code : ℕ
iff_code = 0x22

abbrev pub call_code : ℕ
call_code = 0x23

abbrev pub ret_code : ℕ
ret_code = 0x24

abbrev pub push_code : ℕ
push_code = 0x25

abbrev pub pop_code : ℕ
pop_code = 0x26

abbrev pub initr_code : ℕ
initr_code = 0x30

abbrev pub logi_code : ℕ
logi_code = 0x40

abbrev pub logu_code : ℕ
logu_code = 0x41

abbrev pub logc_code : ℕ
logc_code = 0x42

abbrev pub logs_code : ℕ
logs_code = 0x43

abbrev pub logln_code : ℕ
logln_code = 0x44

abbrev pub strcpy_code : ℕ
strcpy_code = 0x50
