-- ===== src/Parser/Actions.antt =====
-- The actions of core/c32asmpars.c that choose a form and a code: each is one call.
use chip.Prelude.{Bool, List}
use chip.Code.{
  and_code, band_code, bnot_code, bor_code, call_code, dec_code, dif_code, div_code, inc_code,
  jmp_code, logc_code, logi_code, logln_code, logs_code, logu_code, mod_code, move_code, mul_code,
  nop_code, not_code, or_code, pop_code, push_code, ret_code, rol_code, ror_code, shl_code,
  shr_code, strcpy_code, sum_code, xor_code,
}
use chip.Outcome.{Outcome}
use chip.Lexer.{Token}
use chip.Parser.{Symbols, Library, Parser, parse_noarg, parse_onearg, parse_twoarg}

-- The commands whose action is such a call, in the two places of the file where they stand.
pub data Calculation : Type 0 where
  nop move inc dec sum dif mul div modulo or xor and not shl shr rol ror bor band bnot jmp :
      Calculation

pub data Transfer : Type 0 where
  call ret push pop logi logu logc logs logln strcpy : Transfer

module _ {S : Type 0} (symbols : Symbols S) (library : Library) where
  -- `action_` and the name of the command.
  unfoldable pub calculation : Calculation → List Token → Parser S → Outcome (Bool × Parser S)
  unfolding parse_noarg parse_onearg parse_twoarg
  calculation nop = parse_noarg symbols library nop_code
  calculation move = parse_twoarg symbols library move_code
  calculation inc = parse_onearg symbols library inc_code
  calculation dec = parse_onearg symbols library dec_code
  calculation sum = parse_twoarg symbols library sum_code
  calculation dif = parse_twoarg symbols library dif_code
  calculation mul = parse_twoarg symbols library mul_code
  calculation div = parse_twoarg symbols library div_code
  calculation modulo = parse_twoarg symbols library mod_code
  calculation or = parse_twoarg symbols library or_code
  calculation xor = parse_twoarg symbols library xor_code
  calculation and = parse_twoarg symbols library and_code
  calculation not = parse_twoarg symbols library not_code
  calculation shl = parse_twoarg symbols library shl_code
  calculation shr = parse_twoarg symbols library shr_code
  calculation rol = parse_twoarg symbols library rol_code
  calculation ror = parse_twoarg symbols library ror_code
  calculation bor = parse_twoarg symbols library bor_code
  calculation band = parse_twoarg symbols library band_code
  calculation bnot = parse_onearg symbols library bnot_code
  calculation jmp = parse_onearg symbols library jmp_code

  unfoldable pub transfer : Transfer → List Token → Parser S → Outcome (Bool × Parser S)
  unfolding parse_noarg parse_onearg parse_twoarg
  transfer call = parse_onearg symbols library call_code
  transfer ret = parse_noarg symbols library ret_code
  transfer push = parse_twoarg symbols library push_code
  transfer pop = parse_onearg symbols library pop_code
  transfer logi = parse_onearg symbols library logi_code
  transfer logu = parse_onearg symbols library logu_code
  transfer logc = parse_onearg symbols library logc_code
  transfer logs = parse_onearg symbols library logs_code
  transfer logln = parse_noarg symbols library logln_code
  transfer strcpy = parse_twoarg symbols library strcpy_code
