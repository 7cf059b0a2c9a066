-- ===== src/Chip/Valid/Alu.antt =====
-- The computing commands keep a chip well formed.
use chip.Prelude.{ℕ, arith, Bool, true, false, ◌==◌, if◌then◌else◌}
use chip.Word.{IsWord, sub_unsigned}
use chip.Word.Signed.{
  add-IsWord, sub-IsWord, mul-IsWord, div-IsWord, mod_word-IsWord, complement-IsWord,
}
use chip.Word.Bits.{bit_and-IsWord, bit_or-IsWord, bit_xor-IsWord}
use chip.Word.Shift.{shl-IsWord, shr-IsWord, shl_unsigned-IsWord, shr_unsigned-IsWord}
use chip.Command.{Command, IsCommand, arg0f_get, arg1f_get}
use chip.Outcome.{Outcome, Post, returns, Post-bind}
use chip.Chip.State.{Platform, pure, ◌>>=◌}
use chip.Chip.Operand.{getword}
use chip.Chip.Alu.{
  rotate, truth, unary_cmd, binary_cmd, cmd_nop, cmd_move, cmd_inc, cmd_dec, cmd_sum, cmd_dif,
  cmd_mul, cmd_div, cmd_mod, cmd_or, cmd_xor, cmd_and, cmd_not, cmd_shl, cmd_shr, cmd_rol, cmd_ror,
  cmd_bor, cmd_band, cmd_bnot,
}
use chip.Chip.Valid.Defs.{IsSound, Keeps, Any, Keeps-pure, Keeps-bind, Keeps-lift, Keeps-if}
use chip.Chip.Valid.Operands.{getword-Keeps, setword-Keeps}

rotate-IsWord : (v r : ℕ) → IsWord v → Post IsWord (rotate v r)
unfolding rotate
rotate-IsWord v r h = Post-bind (shl_unsigned-IsWord v r) (λ high wh.
    Post-bind (shr_unsigned-IsWord v (sub_unsigned 32 r) h)
      (λ low wl. returns (bit_or-IsWord high low wh wl)))

bit-IsWord : (b : Bool) (x y : ℕ) → IsWord x → IsWord y → IsWord (if b then x else y)
bit-IsWord true x y hx hy = hx
bit-IsWord false x y hx hy = hy

truth-IsWord : (v : ℕ) → IsWord (truth v)
truth-IsWord v = bit-IsWord (v == 0) 0 1 (omega arith) (omega arith)

module _ (p : Platform) (sound : IsSound p) (cmd : Command) (valid : IsCommand cmd) where
  unary_cmd-Keeps :
      (f : ℕ → Outcome ℕ) → ((v : ℕ) → IsWord v → Post IsWord (f v)) → Keeps Any (unary_cmd f p cmd)
  unfolding unary_cmd
  unary_cmd-Keeps f word =
      Keeps-bind (getword-Keeps p sound (arg0f_get cmd.flags) cmd.arg0 valid.arg0_word) (λ v hv.
        Keeps-bind (Keeps-lift (word v hv))
          (λ w hw. setword-Keeps (arg0f_get cmd.flags) cmd.arg0 w hw))

  binary_cmd-Keeps :
      (f : ℕ → ℕ → Outcome ℕ)
      → ((v r : ℕ) → IsWord v → IsWord r → Post IsWord (f v r))
      → Keeps Any (binary_cmd f p cmd)
  unfolding binary_cmd
  binary_cmd-Keeps f word =
      Keeps-bind (getword-Keeps p sound (arg0f_get cmd.flags) cmd.arg0 valid.arg0_word) (λ v hv.
        Keeps-bind (getword-Keeps p sound (arg1f_get cmd.flags) cmd.arg1 valid.arg1_word) (λ r hr.
          Keeps-bind (Keeps-lift (word v r hv hr))
            (λ w hw. setword-Keeps (arg0f_get cmd.flags) cmd.arg0 w hw)))

  pub cmd_nop-Keeps : Keeps Any (cmd_nop p cmd)
  unfolding cmd_nop
  cmd_nop-Keeps = Keeps-pure tt

  pub cmd_move-Keeps : Keeps Any (cmd_move p cmd)
  unfolding cmd_move
  cmd_move-Keeps =
      Keeps-bind (getword-Keeps p sound (arg1f_get cmd.flags) cmd.arg1 valid.arg1_word)
        (λ v hv. setword-Keeps (arg0f_get cmd.flags) cmd.arg0 v hv)

  -- The second operand of `||` and `&&`, read as a truth value.
  second-Keeps : Keeps IsWord (getword p (arg1f_get cmd.flags) cmd.arg1 >>= λ r. pure (truth r))
  second-Keeps =
      Keeps-bind (getword-Keeps p sound (arg1f_get cmd.flags) cmd.arg1 valid.arg1_word)
        (λ r _. Keeps-pure (truth-IsWord r))

  pub cmd_bor-Keeps : Keeps Any (cmd_bor p cmd)
  unfolding cmd_bor
  cmd_bor-Keeps =
      Keeps-bind (getword-Keeps p sound (arg0f_get cmd.flags) cmd.arg0 valid.arg0_word) (λ v _.
        Keeps-bind {Q = IsWord} (Keeps-if (v == 0) second-Keeps (Keeps-pure (omega arith)))
          (λ b hb. setword-Keeps (arg0f_get cmd.flags) cmd.arg0 b hb))

  pub cmd_band-Keeps : Keeps Any (cmd_band p cmd)
  unfolding cmd_band
  cmd_band-Keeps =
      Keeps-bind (getword-Keeps p sound (arg0f_get cmd.flags) cmd.arg0 valid.arg0_word) (λ v _.
        Keeps-bind {Q = IsWord} (Keeps-if (v == 0) (Keeps-pure (omega arith)) second-Keeps)
          (λ b hb. setword-Keeps (arg0f_get cmd.flags) cmd.arg0 b hb))

  pub cmd_inc-Keeps : Keeps Any (cmd_inc p cmd)
  unfolding cmd_inc
  cmd_inc-Keeps = unary_cmd-Keeps _ (λ v _. add-IsWord v 1)

  pub cmd_dec-Keeps : Keeps Any (cmd_dec p cmd)
  unfolding cmd_dec
  cmd_dec-Keeps = unary_cmd-Keeps _ (λ v _. sub-IsWord v 1)

  pub cmd_not-Keeps : Keeps Any (cmd_not p cmd)
  unfolding cmd_not
  cmd_not-Keeps = unary_cmd-Keeps _ (λ v _. returns (complement-IsWord v))

  pub cmd_bnot-Keeps : Keeps Any (cmd_bnot p cmd)
  unfolding cmd_bnot
  cmd_bnot-Keeps =
      unary_cmd-Keeps _ (λ v _. returns (bit-IsWord (v == 0) 1 0 (omega arith) (omega arith)))

  pub cmd_sum-Keeps : Keeps Any (cmd_sum p cmd)
  unfolding cmd_sum
  cmd_sum-Keeps = binary_cmd-Keeps _ (λ v r _ _. add-IsWord v r)

  pub cmd_dif-Keeps : Keeps Any (cmd_dif p cmd)
  unfolding cmd_dif
  cmd_dif-Keeps = binary_cmd-Keeps _ (λ v r _ _. sub-IsWord v r)

  pub cmd_mul-Keeps : Keeps Any (cmd_mul p cmd)
  unfolding cmd_mul
  cmd_mul-Keeps = binary_cmd-Keeps _ (λ v r _ _. mul-IsWord v r)

  pub cmd_div-Keeps : Keeps Any (cmd_div p cmd)
  unfolding cmd_div
  cmd_div-Keeps = binary_cmd-Keeps _ (λ v r _ _. div-IsWord v r)

  pub cmd_mod-Keeps : Keeps Any (cmd_mod p cmd)
  unfolding cmd_mod
  cmd_mod-Keeps = binary_cmd-Keeps _ (λ v r _ _. mod_word-IsWord v r)

  pub cmd_shl-Keeps : Keeps Any (cmd_shl p cmd)
  unfolding cmd_shl
  cmd_shl-Keeps = binary_cmd-Keeps _ (λ v r _ _. shl-IsWord v r)

  pub cmd_shr-Keeps : Keeps Any (cmd_shr p cmd)
  unfolding cmd_shr
  cmd_shr-Keeps = binary_cmd-Keeps _ (λ v r hv _. shr-IsWord v r hv)

  pub cmd_rol-Keeps : Keeps Any (cmd_rol p cmd)
  unfolding cmd_rol
  cmd_rol-Keeps = binary_cmd-Keeps _ (λ v r hv _. rotate-IsWord v r hv)

  pub cmd_ror-Keeps : Keeps Any (cmd_ror p cmd)
  unfolding cmd_ror
  cmd_ror-Keeps = binary_cmd-Keeps _ (λ v r hv _. rotate-IsWord v r hv)

  pub cmd_or-Keeps : Keeps Any (cmd_or p cmd)
  unfolding cmd_or
  cmd_or-Keeps = binary_cmd-Keeps _ (λ v r hv hr. returns (bit_or-IsWord v r hv hr))

  pub cmd_xor-Keeps : Keeps Any (cmd_xor p cmd)
  unfolding cmd_xor
  cmd_xor-Keeps = binary_cmd-Keeps _ (λ v r hv hr. returns (bit_xor-IsWord v r hv hr))

  pub cmd_and-Keeps : Keeps Any (cmd_and p cmd)
  unfolding cmd_and
  cmd_and-Keeps = binary_cmd-Keeps _ (λ v r hv hr. returns (bit_and-IsWord v r hv hr))
