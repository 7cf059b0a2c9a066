-- ===== src/Command.antt =====
-- `chip32Command_s` of include/chip32.h, its command codes and argument types, and the flag macros.
use chip.Prelude.{ℕ, ◌/◌, ◌<◌, bit_and}
use chip.Word.{IsWord}

-- One instruction. `flags` and `code` (the source's `cmd`) are bytes, the arguments words.
pub record Command : Type 0 where
  pub flags : ℕ
  pub code : ℕ
  pub arg0 : ℕ
  pub arg1 : ℕ

pub record IsCommand (c : Command) : Type 0 where
  pub flags_byte : c.flags < 256
  pub code_byte : c.code < 256
  pub arg0_word : IsWord c.arg0
  pub arg1_word : IsWord c.arg1

-- CHIP32_TYPE_*: how an argument is read.
abbrev pub type_literal : ℕ
type_literal = 0

abbrev pub type_ram : ℕ
type_ram = 1

abbrev pub type_ptr : ℕ
type_ptr = 2

abbrev pub type_data : ℕ
type_data = 3

-- A32_ARG0F_GET and A32_ARG1F_GET: `(F) & 3` and `((F) >> 2) & 3`.
abbrev pub arg0f_get : ℕ → ℕ
arg0f_get f = bit_and f 3

abbrev pub arg1f_get : ℕ → ℕ
arg1f_get f = bit_and (f / 4) 3
