-- ===== src/Chip/Alu.antt =====
-- The commands of core/chip32.c that compute: `chip32_cmd_nop` up to `chip32_cmd_bnot`.
pub mod Exact
pub mod Rotation
use Prim.Native.Nat.{bit_and, bit_or, bit_xor}
use chip.Prelude.{ℕ, ◌==◌, if◌then◌else◌}
use chip.Command.{Command, arg0f_get, arg1f_get}
use chip.Outcome.{Outcome, done}
use chip.Outcome
use chip.Word.{
  add, sub, mul, div, mod_word, complement, shl, shr, shl_unsigned, shr_unsigned, sub_unsigned,
}
use chip.Chip.State.{Platform, M, pure, ◌>>=◌, lift}
use chip.Chip.Operand.{getword, setword}

-- `(v << r) | (v >> (32 - r))` of two `uint32_t`.
unfoldable pub rotate : ℕ → ℕ → Outcome ℕ
unfolding shl_unsigned shr_unsigned sub_unsigned
rotate v r =
    Outcome.◌>>=◌ (shl_unsigned v r)
      (λ high. Outcome.◌>>=◌ (shr_unsigned v (sub_unsigned 32 r)) (λ low. done (bit_or high low)))

-- `a || b`, `a && b` and `!a` as numbers.
abbrev pub truth : ℕ → ℕ
truth a = if a == 0 then 0 else 1

unfoldable pub cmd_nop : Platform → Command → M (Unit {0})
cmd_nop p cmd = pure tt

unfoldable pub cmd_move : Platform → Command → M (Unit {0})
unfolding getword setword
cmd_move p cmd = do
  let a0 = arg0f_get cmd.flags
  let a1 = arg1f_get cmd.flags
  v ← getword p a1 cmd.arg1
  setword a0 cmd.arg0 v

-- The shape of a command with one argument, `setword(a0, arg0, f(getword(a0, arg0)))`.
unfoldable pub unary_cmd : (ℕ → Outcome ℕ) → Platform → Command → M (Unit {0})
unfolding getword setword
unary_cmd f p cmd = do
  let a0 = arg0f_get cmd.flags
  v ← getword p a0 cmd.arg0
  w ← lift (f v)
  setword a0 cmd.arg0 w

-- The shape of a command with two, `setword(a0, arg0, f(getword(a0, arg0), getword(a1, arg1)))`.
unfoldable pub binary_cmd : (ℕ → ℕ → Outcome ℕ) → Platform → Command → M (Unit {0})
unfolding getword setword
binary_cmd f p cmd = do
  let a0 = arg0f_get cmd.flags
  let a1 = arg1f_get cmd.flags
  v ← getword p a0 cmd.arg0
  r ← getword p a1 cmd.arg1
  w ← lift (f v r)
  setword a0 cmd.arg0 w

unfoldable pub cmd_inc : Platform → Command → M (Unit {0})
unfolding unary_cmd add
cmd_inc = unary_cmd (λ v. add v 1)

unfoldable pub cmd_dec : Platform → Command → M (Unit {0})
unfolding unary_cmd sub
cmd_dec = unary_cmd (λ v. sub v 1)

unfoldable pub cmd_sum : Platform → Command → M (Unit {0})
unfolding binary_cmd add
cmd_sum = binary_cmd add

unfoldable pub cmd_dif : Platform → Command → M (Unit {0})
unfolding binary_cmd sub
cmd_dif = binary_cmd sub

unfoldable pub cmd_mul : Platform → Command → M (Unit {0})
unfolding binary_cmd mul
cmd_mul = binary_cmd mul

unfoldable pub cmd_div : Platform → Command → M (Unit {0})
unfolding binary_cmd div
cmd_div = binary_cmd div

unfoldable pub cmd_mod : Platform → Command → M (Unit {0})
unfolding binary_cmd mod_word
cmd_mod = binary_cmd mod_word

unfoldable pub cmd_or : Platform → Command → M (Unit {0})
unfolding binary_cmd
cmd_or = binary_cmd (λ v r. done (bit_or v r))

unfoldable pub cmd_xor : Platform → Command → M (Unit {0})
unfolding binary_cmd
cmd_xor = binary_cmd (λ v r. done (bit_xor v r))

unfoldable pub cmd_and : Platform → Command → M (Unit {0})
unfolding binary_cmd
cmd_and = binary_cmd (λ v r. done (bit_and v r))

unfoldable pub cmd_not : Platform → Command → M (Unit {0})
unfolding unary_cmd complement
cmd_not = unary_cmd (λ v. done (complement v))

unfoldable pub cmd_shl : Platform → Command → M (Unit {0})
unfolding binary_cmd shl
cmd_shl = binary_cmd shl

unfoldable pub cmd_shr : Platform → Command → M (Unit {0})
unfolding binary_cmd shr
cmd_shr = binary_cmd shr

unfoldable pub cmd_rol : Platform → Command → M (Unit {0})
unfolding binary_cmd rotate
cmd_rol = binary_cmd rotate

unfoldable pub cmd_ror : Platform → Command → M (Unit {0})
unfolding binary_cmd rotate
cmd_ror = binary_cmd rotate

-- `||` and `&&` read their right side only if the left one does not decide.
unfoldable pub cmd_bor : Platform → Command → M (Unit {0})
unfolding getword setword
cmd_bor p cmd = do
  let a0 = arg0f_get cmd.flags
  let a1 = arg1f_get cmd.flags
  v ← getword p a0 cmd.arg0
  b ← if v == 0 then (getword p a1 cmd.arg1 >>= λ r. pure (truth r)) else pure 1
  setword a0 cmd.arg0 b

unfoldable pub cmd_band : Platform → Command → M (Unit {0})
unfolding getword setword
cmd_band p cmd = do
  let a0 = arg0f_get cmd.flags
  let a1 = arg1f_get cmd.flags
  v ← getword p a0 cmd.arg0
  b ← if v == 0 then pure 0 else (getword p a1 cmd.arg1 >>= λ r. pure (truth r))
  setword a0 cmd.arg0 b

unfoldable pub cmd_bnot : Platform → Command → M (Unit {0})
unfolding unary_cmd
cmd_bnot = unary_cmd (λ v. done (if v == 0 then 1 else 0))
