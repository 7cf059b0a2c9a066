-- ===== src/Chip/Table.antt =====
-- The table `commands` of core/chip32.c: the handler of each command code, and the call through it.
pub mod Reserved
use chip.Prelude.{ℕ, none, some, List, [], ◌∷◌, ltb, ◌==◌, if◌then◌else◌, get_elem?, set}
use chip.Outcome.{done, undefined}
use chip.Word.{half_mod}
use chip.Command.{Command}
use chip.Code.{
  move_code, inc_code, dec_code, sum_code, dif_code, mul_code, div_code, mod_code, or_code,
  xor_code, and_code, not_code, shl_code, shr_code, rol_code, ror_code, bor_code, band_code,
  bnot_code, jmp_code, ift_code, iff_code, call_code, ret_code, push_code, pop_code, initr_code,
  logi_code, logu_code, logc_code, logs_code, logln_code, strcpy_code,
}
use chip.Chip.State.{Platform, M, pure, ◌>>=◌, ◌>>◌}
use chip.Chip.Alu.{
  cmd_nop, cmd_move, cmd_inc, cmd_dec, cmd_sum, cmd_dif, cmd_mul, cmd_div, cmd_mod, cmd_or, cmd_xor,
  cmd_and, cmd_not, cmd_shl, cmd_shr, cmd_rol, cmd_ror, cmd_bor, cmd_band, cmd_bnot,
}
use chip.Chip.Flow.{cmd_jmp, cmd_ift, cmd_iff, cmd_call, cmd_ret, cmd_push, cmd_pop, cmd_initr}
use chip.Chip.Log.{cmd_logi, cmd_logu, cmd_logc, cmd_logs, cmd_logln, cmd_strcpy}

-- The functions that the table points to. `logs` and `strcpy` change the command itself.
pub data Plain : Type 0 where
  nop move inc dec sum dif mul div modulo or xor and not shl shr rol ror bor band bnot jmp ift iff
        call ret push pop initr logi logu logc logln :
      Plain

pub data Handler : Type 0 where
  plain : Plain → Handler
  logs strcpy : Handler

unfoldable pub table : List (ℕ × Handler)
table =
    (move_code, plain move)
    ∷ (inc_code, plain inc)
    ∷ (dec_code, plain dec)
    ∷ (sum_code, plain sum)
    ∷ (dif_code, plain dif)
    ∷ (mul_code, plain mul)
    ∷ (div_code, plain div)
    ∷ (mod_code, plain modulo)
    ∷ (or_code, plain or)
    ∷ (xor_code, plain xor)
    ∷ (and_code, plain and)
    ∷ (not_code, plain not)
    ∷ (shl_code, plain shl)
    ∷ (shr_code, plain shr)
    ∷ (rol_code, plain rol)
    ∷ (ror_code, plain ror)
    ∷ (bor_code, plain bor)
    ∷ (band_code, plain band)
    ∷ (bnot_code, plain bnot)
    ∷ (jmp_code, plain jmp)
    ∷ (ift_code, plain ift)
    ∷ (iff_code, plain iff)
    ∷ (call_code, plain call)
    ∷ (ret_code, plain ret)
    ∷ (push_code, plain push)
    ∷ (pop_code, plain pop)
    ∷ (initr_code, plain initr)
    ∷ (logi_code, plain logi)
    ∷ (logu_code, plain logu)
    ∷ (logc_code, plain logc)
    ∷ (logs_code, logs)
    ∷ (logln_code, plain logln)
    ∷ (strcpy_code, strcpy)
    ∷ []

unfoldable pub entry : ℕ → List (ℕ × Handler) → Handler
entry code [] = plain nop
entry code ((c, h) ∷ t) = if c == code then h else entry code t

-- `commands[code]`: the ranges of codes between the named ones hold `chip32_cmd_nop`.
unfoldable pub commands : ℕ → Handler
unfolding table entry
commands code = entry code table

unfoldable pub call_plain : Plain → Platform → Command → M (Unit {0})
call_plain nop = cmd_nop
call_plain move = cmd_move
call_plain inc = cmd_inc
call_plain dec = cmd_dec
call_plain sum = cmd_sum
call_plain dif = cmd_dif
call_plain mul = cmd_mul
call_plain div = cmd_div
call_plain modulo = cmd_mod
call_plain or = cmd_or
call_plain xor = cmd_xor
call_plain and = cmd_and
call_plain not = cmd_not
call_plain shl = cmd_shl
call_plain shr = cmd_shr
call_plain rol = cmd_rol
call_plain ror = cmd_ror
call_plain bor = cmd_bor
call_plain band = cmd_band
call_plain bnot = cmd_bnot
call_plain jmp = cmd_jmp
call_plain ift = cmd_ift
call_plain iff = cmd_iff
call_plain call = cmd_call
call_plain ret = cmd_ret
call_plain push = cmd_push
call_plain pop = cmd_pop
call_plain initr = cmd_initr
call_plain logi = cmd_logi
call_plain logu = cmd_logu
call_plain logc = cmd_logc
call_plain logln = cmd_logln

unfoldable pub call_handler : Handler → Platform → Command → M Command
unfolding call_plain cmd_logs cmd_strcpy
call_handler (plain h) p cmd = call_plain h p cmd >> pure cmd
call_handler logs p cmd = cmd_logs p cmd
call_handler strcpy p cmd = cmd_strcpy p cmd

-- The command at an index of the page, as its handler leaves it.
unfoldable pub store_command : ℕ → Command → M (Unit {0})
store_command pc cmd d = done (tt, record d { page = set d.page pc cmd })

-- `commands[c->data[pc].cmd](c, &c->data[pc])`: the index is `pc` itself, and the handler is given the
-- command in the page, which it may change there.
unfoldable pub exec : Platform → ℕ → M (Unit {0})
unfolding commands call_handler store_command
exec p pc c = elim (if ltb pc half_mod then get_elem? c.page pc else none) [
  | none ↦ undefined
  | some cmd ↦ (call_handler (commands cmd.code) p cmd >>= λ cmd'. store_command pc cmd') c
]
