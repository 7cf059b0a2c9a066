-- ===== src/Chip/Log.antt =====
-- The commands of core/chip32.c that print, and `chip32_cmd_strcpy`. Two of them advance the
-- arguments of the command itself: their value is the command as they leave it, and `Chip.Table.exec`,
-- which calls them for a command of the page, puts it in the command's place.
pub mod Texts
use chip.Prelude.{ℕ, zero, suc, ◌+◌, ◌-◌, true, false, ltb, ◌==◌, if◌then◌else◌}
use chip.Command.{Command, arg0f_get}
use chip.Outcome.{done, undefined, unfinished}
use chip.Word.{add, word_mod, half_mod}
use chip.Chip.State.{
  Platform, M, pure, ◌>>=◌, ◌>>◌, lift, emit, Output, printed_int, printed_unsigned, printed_char,
}
use chip.Chip.Operand.{getword, setword}

-- `fprintf(stderr, …, chip32_getword(c, a0, pcmd->arg0))`.
unfoldable pub log_word : (ℕ → Output) → Platform → Command → M (Unit {0})
unfolding getword emit
log_word format p cmd = do v ← getword p (arg0f_get cmd.flags) cmd.arg0; emit (format v)

unfoldable pub cmd_logi : Platform → Command → M (Unit {0})
unfolding log_word
cmd_logi = log_word printed_int

unfoldable pub cmd_logu : Platform → Command → M (Unit {0})
unfolding log_word
cmd_logu = log_word printed_unsigned

unfoldable pub cmd_logc : Platform → Command → M (Unit {0})
unfolding log_word
cmd_logc = log_word printed_char

unfoldable pub cmd_logln : Platform → Command → M (Unit {0})
unfolding emit
cmd_logln p cmd = emit (printed_char 10)

-- How often an `int32_t` can be incremented until that is undefined, that last time included.
unfoldable pub rounds : ℕ → ℕ
rounds a = if ltb a half_mod then half_mod - a else half_mod + (word_mod - a)

module _ (p : Platform) (type : ℕ) where
  -- `v = chip32_getword(c, a0, pcmd->arg0++)`: the word, and the argument afterwards.
  unfoldable pub read_next : ℕ → M (ℕ × ℕ)
  unfolding getword add
  read_next a = do next ← lift (add a 1); v ← getword p type a; pure (v, next)

  -- The loop of `chip32_cmd_logs`, for the value of `pcmd->arg0` at its end.
  unfoldable pub logs_loop : ℕ → ℕ → M ℕ
  unfolding read_next emit
  logs_loop zero a = λ _. unfinished
  logs_loop (suc fuel) a = read_next a >>= λ r. elim (r.0 == 0) [
    | true ↦ pure r.1
    | false ↦ emit (printed_char r.0) >>= λ _. logs_loop fuel r.1
  ]

  -- The body of the loop of `chip32_cmd_strcpy`: the word `s`, and the two arguments afterwards.
  unfoldable pub copy_next : ℕ → ℕ → M (ℕ × ℕ × ℕ)
  unfolding read_next setword add
  copy_next a0 a1 = do
    (s, next1) ← read_next a1
    next0 ← lift (add a0 1)
    setword type a0 s
    pure (s, next0, next1)

  unfoldable pub strcpy_loop : ℕ → ℕ → ℕ → M (ℕ × ℕ)
  unfolding copy_next
  strcpy_loop zero a0 a1 = λ _. unfinished
  strcpy_loop (suc fuel) a0 a1 = copy_next a0 a1 >>= λ r. elim (r.0 == 0) [
    | true ↦ pure (r.1, r.2)
    | false ↦ strcpy_loop fuel r.1 r.2
  ]

unfoldable pub cmd_logs : Platform → Command → M Command
unfolding logs_loop rounds
cmd_logs p cmd = do
  arg0 ← logs_loop p (arg0f_get cmd.flags) (rounds cmd.arg0) cmd.arg0
  pure (record cmd { arg0 = arg0 })

-- The source takes the type of both arguments from the first one's flags.
unfoldable pub cmd_strcpy : Platform → Command → M Command
unfolding strcpy_loop rounds
cmd_strcpy p cmd = do
  (arg0, arg1) ← strcpy_loop p (arg0f_get cmd.flags) (rounds cmd.arg1) cmd.arg0 cmd.arg1
  pure (record cmd { arg0 = arg0; arg1 = arg1 })
