-- ===== src/Chip/Valid/Commands.antt =====
-- Every command keeps a chip well formed and its page, and changes at most its own arguments.
use chip.Prelude.{◌≡◌, refl}
use chip.Command.{Command, IsCommand}
use chip.Chip.State.{Platform}
use chip.Chip.Table.{
  Plain, Handler, nop, move, inc, dec, sum, dif, mul, div, modulo, or, xor, and, not, shl, shr, rol,
  ror, bor, band, bnot, jmp, ift, iff, call, ret, push, pop, initr, logi, logu, logc, logln, plain,
  logs, strcpy, call_plain, call_handler,
}
use chip.Chip.Valid.Defs.{IsSound, Keeps, Any, Keeps-pure}
use chip.Chip.Valid.Operands.{Keeps-then}
use chip.Chip.Valid.Alu.{
  cmd_nop-Keeps, cmd_move-Keeps, cmd_inc-Keeps, cmd_dec-Keeps, cmd_sum-Keeps, cmd_dif-Keeps,
  cmd_mul-Keeps, cmd_div-Keeps, cmd_mod-Keeps, cmd_or-Keeps, cmd_xor-Keeps, cmd_and-Keeps,
  cmd_not-Keeps, cmd_shl-Keeps, cmd_shr-Keeps, cmd_rol-Keeps, cmd_ror-Keeps, cmd_bor-Keeps,
  cmd_band-Keeps, cmd_bnot-Keeps,
}
use chip.Chip.Valid.Flow.{
  cmd_jmp-Keeps, cmd_ift-Keeps, cmd_iff-Keeps, cmd_call-Keeps, cmd_ret-Keeps, cmd_push-Keeps,
  cmd_pop-Keeps, cmd_initr-Keeps,
}
use chip.Chip.Valid.Log.{
  LogsChanges, StrcpyChanges, cmd_logi-Keeps, cmd_logu-Keeps, cmd_logc-Keeps, cmd_logs-Keeps,
  cmd_logln-Keeps, cmd_strcpy-Keeps,
}

-- What the handlers make of the command that they are given: `logs` changes its first argument, `strcpy` both.
abbrev pub Changes : Handler → Command → Command → Type 0
Changes (plain h) cmd m = IsCommand m × (m ≡ cmd)
Changes logs cmd m = LogsChanges cmd m
Changes strcpy cmd m = StrcpyChanges cmd m

pub Changes-IsCommand : (h : Handler) (cmd m : Command) → Changes h cmd m → IsCommand m
Changes-IsCommand (plain h) cmd m c = c.0
Changes-IsCommand logs cmd m c = c.0
Changes-IsCommand strcpy cmd m c = c.0

module _ (p : Platform) (sound : IsSound p) (cmd : Command) (valid : IsCommand cmd) where
  pub call_plain-Keeps : (h : Plain) → Keeps Any (call_plain h p cmd)
  unfolding call_plain
  call_plain-Keeps nop = cmd_nop-Keeps p sound cmd valid
  call_plain-Keeps move = cmd_move-Keeps p sound cmd valid
  call_plain-Keeps inc = cmd_inc-Keeps p sound cmd valid
  call_plain-Keeps dec = cmd_dec-Keeps p sound cmd valid
  call_plain-Keeps sum = cmd_sum-Keeps p sound cmd valid
  call_plain-Keeps dif = cmd_dif-Keeps p sound cmd valid
  call_plain-Keeps mul = cmd_mul-Keeps p sound cmd valid
  call_plain-Keeps div = cmd_div-Keeps p sound cmd valid
  call_plain-Keeps modulo = cmd_mod-Keeps p sound cmd valid
  call_plain-Keeps or = cmd_or-Keeps p sound cmd valid
  call_plain-Keeps xor = cmd_xor-Keeps p sound cmd valid
  call_plain-Keeps and = cmd_and-Keeps p sound cmd valid
  call_plain-Keeps not = cmd_not-Keeps p sound cmd valid
  call_plain-Keeps shl = cmd_shl-Keeps p sound cmd valid
  call_plain-Keeps shr = cmd_shr-Keeps p sound cmd valid
  call_plain-Keeps rol = cmd_rol-Keeps p sound cmd valid
  call_plain-Keeps ror = cmd_ror-Keeps p sound cmd valid
  call_plain-Keeps bor = cmd_bor-Keeps p sound cmd valid
  call_plain-Keeps band = cmd_band-Keeps p sound cmd valid
  call_plain-Keeps bnot = cmd_bnot-Keeps p sound cmd valid
  call_plain-Keeps jmp = cmd_jmp-Keeps p sound cmd valid
  call_plain-Keeps ift = cmd_ift-Keeps p sound cmd valid
  call_plain-Keeps iff = cmd_iff-Keeps p sound cmd valid
  call_plain-Keeps call = cmd_call-Keeps p sound cmd valid
  call_plain-Keeps ret = cmd_ret-Keeps p cmd
  call_plain-Keeps push = cmd_push-Keeps p sound cmd valid
  call_plain-Keeps pop = cmd_pop-Keeps p sound cmd valid
  call_plain-Keeps initr = cmd_initr-Keeps p sound cmd valid
  call_plain-Keeps logi = cmd_logi-Keeps p sound cmd valid
  call_plain-Keeps logu = cmd_logu-Keeps p sound cmd valid
  call_plain-Keeps logc = cmd_logc-Keeps p sound cmd valid
  call_plain-Keeps logln = cmd_logln-Keeps p cmd

  pub call_handler-Keeps : (h : Handler) → Keeps (Changes h cmd) (call_handler h p cmd)
  unfolding call_handler
  call_handler-Keeps (plain h) = Keeps-then (call_plain-Keeps h) (Keeps-pure (valid, refl))
  call_handler-Keeps logs = cmd_logs-Keeps p sound cmd valid
  call_handler-Keeps strcpy = cmd_strcpy-Keeps p sound cmd valid
