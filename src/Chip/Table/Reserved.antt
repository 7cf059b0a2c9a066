-- ===== src/Chip/Table/Reserved.antt =====
-- The entries of the table that no command has.
use chip.Prelude.{ℕ, ◌<◌, ◌≡◌, arith}
use chip.Command.{Command}
use chip.Outcome.{done}
use chip.Chip.State.{Chip, Platform}
use chip.Chip.Alu.{cmd_nop}
use chip.Chip.Table.{plain, nop, entry, table, commands, call_plain, call_handler}

-- The codes the header of the machine lists no command for.
pub data IsReserved (code : ℕ) : Type 0 where
  zero_code : code ≡ 0 → IsReserved code
  after_logic : 0x13 < code → code < 0x20 → IsReserved code
  after_flow : 0x26 < code → code < 0x30 → IsReserved code
  after_initr : 0x30 < code → code < 0x40 → IsReserved code
  after_log : 0x44 < code → code < 0x50 → IsReserved code
  after_text : 0x50 < code → IsReserved code

commands_reserved : (code : ℕ) → IsReserved code → commands code ≡ plain nop
unfolding commands table entry
commands_reserved code (zero_code e) = ground arith
commands_reserved code (after_logic a b) = ground arith
commands_reserved code (after_flow a b) = ground arith
commands_reserved code (after_initr a b) = ground arith
commands_reserved code (after_log a b) = ground arith
commands_reserved code (after_text a) = ground arith

-- The handler of a code that no command has is that of `nop`: it leaves the chip and the command as they are.
pub call_handler_reserved :
    (p : Platform) (cmd : Command) (c : Chip)
    → IsReserved cmd.code
    → call_handler (commands cmd.code) p cmd c ≡ done (cmd, c)
unfolding call_handler call_plain cmd_nop
call_handler_reserved p cmd c h = rw (commands_reserved cmd.code h)
