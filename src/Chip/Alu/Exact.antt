-- ===== src/Chip/Alu/Exact.antt =====
-- The arithmetic commands: where they are defined, they store the exact result.
use chip.Prelude.{ℕ, ◌≡◌, refl, arith, true, false}
use chip.Prelude.Int.{ℤ, ◌+ℤ◌, ◌-ℤ◌, ◌*ℤ◌}
use chip.Word.{signed, add, sub, mul, div, mod_word, no_quotient}
use chip.Word.Signed.{Fits, of_signed-Fits, of_signed-undefined}
use chip.Word.Divide.{IsRemainder, div-mod_word}
use chip.Command.{Command, arg0f_get}
use chip.Outcome.{Outcome, done, undefined}
use chip.Chip.State.{Chip, Platform, M, write}
use chip.Chip.Alu.{binary_cmd, cmd_sum, cmd_dif, cmd_mul, cmd_div, cmd_mod}
use chip.Chip.Cells.{Operands, Stores, write-Stores, setword-Target}

-- The command ends, in a chip that differs by one cell, which holds `z`.
abbrev pub Computes : (M (Unit {0})) → Chip → ℕ → ℤ → Type 0
Computes m c a z = (d : Chip) × (w : ℕ) × (m c ≡ done (tt, d)) × Stores c d a w × (signed w ≡ z)

-- The three commands of exact arithmetic, and what they compute.
pub data Exact : Type 0 where
  sum_of dif_of mul_of : Exact

abbrev pub exact : Exact → ℤ → ℤ → ℤ
exact sum_of = ◌+ℤ◌
exact dif_of = ◌-ℤ◌
exact mul_of = ◌*ℤ◌

abbrev pub command_of : Exact → Platform → Command → M (Unit {0})
command_of sum_of = cmd_sum
command_of dif_of = cmd_dif
command_of mul_of = cmd_mul

module _ (p : Platform) (c : Chip) (cmd : Command) (v r a : ℕ) (ops : Operands p c cmd v r a) where
  -- A command with two arguments stores what its operator gives.
  pub binary_cmd-write :
      (f : ℕ → ℕ → Outcome ℕ) {w : ℕ}
      → f v r ≡ done w
      → binary_cmd f p cmd c ≡ done (tt, write c a w)
  binary_cmd-write f {w} e =
      unfold binary_cmd in
      ground (
        arith,
        ops.first,
        ops.second,
        setword-Target c (arg0f_get cmd.flags) cmd.arg0 a w ops.target ops.cell_there,
      )

  pub binary_cmd_undefined :
      (f : ℕ → ℕ → Outcome ℕ) → f v r ≡ undefined → binary_cmd f p cmd c ≡ undefined
  binary_cmd_undefined f e = unfold binary_cmd in ground (arith, ops.first, ops.second)

  binary_cmd-Computes :
      (f : ℕ → ℕ → Outcome ℕ) (z : ℤ) (w : ℕ)
      → f v r ≡ done w
      → signed w ≡ z
      → Computes (binary_cmd f p cmd) c a z
  binary_cmd-Computes f z w e s =
      (write c a w, w, binary_cmd-write f e, write-Stores c a w ops.cell_there, s)

  -- With operands that can be read and a first one that can be assigned to, `sum`, `dif` and `mul` store the exact
  -- sum, difference and product of the two numbers and change no other cell, if an `int32_t` holds that number.
  pub arithmetic-Computes :
      (o : Exact)
      → Fits (exact o (signed v) (signed r))
      → Computes (command_of o p cmd) c a (exact o (signed v) (signed r))
  unfolding cmd_sum cmd_dif cmd_mul
  arithmetic-Computes sum_of h =
      let (w, e, word, s) = of_signed-Fits (signed v +ℤ signed r) h in
      binary_cmd-Computes add _ w e s
  arithmetic-Computes dif_of h =
      let (w, e, word, s) = of_signed-Fits (signed v -ℤ signed r) h in
      binary_cmd-Computes sub _ w e s
  arithmetic-Computes mul_of h =
      let (w, e, word, s) = of_signed-Fits (signed v *ℤ signed r) h in
      binary_cmd-Computes mul _ w e s

  -- `sum`, `dif` and `mul` on readable operands are undefined where no `int32_t` holds the exact result.
  pub overflow_undefined :
      (o : Exact) → ¬ (Fits (exact o (signed v) (signed r))) → command_of o p cmd c ≡ undefined
  unfolding cmd_sum cmd_dif cmd_mul
  overflow_undefined sum_of h = binary_cmd_undefined add (of_signed-undefined _ h)
  overflow_undefined dif_of h = binary_cmd_undefined sub (of_signed-undefined _ h)
  overflow_undefined mul_of h = binary_cmd_undefined mul (of_signed-undefined _ h)

  -- With such operands, unless the divisor is 0 or the quotient 2 ^ 31, `div` and `mod` store a quotient `q` and a
  -- remainder `s`: the dividend is `q` times the divisor and `s`, and `s` is nearer to 0 than the
  -- divisor and has the sign of the dividend.
  pub cmd_div-cmd_mod :
      no_quotient v r ≡ false
      → (q s : ℤ) × Computes (cmd_div p cmd) c a q
        × Computes (cmd_mod p cmd) c a s
        × (signed v ≡ q *ℤ signed r +ℤ s)
        × IsRemainder (signed v) (signed r) s
  unfolding cmd_div cmd_mod
  cmd_div-cmd_mod h =
      let (q, s, dq, ds, e, rem) = div-mod_word v r ops.first_word ops.second_word h in
      (
        signed q,
        signed s,
        binary_cmd-Computes div (signed q) q dq refl,
        binary_cmd-Computes mod_word (signed s) s ds refl,
        e,
        rem,
      )

  -- With such operands, `div` and `mod` are undefined on a zero divisor and on the quotient 2 ^ 31.
  pub division_undefined :
      no_quotient v r ≡ true → (cmd_div p cmd c ≡ undefined) × (cmd_mod p cmd c ≡ undefined)
  unfolding cmd_div cmd_mod
  division_undefined h =
      (binary_cmd_undefined div (ground arith), binary_cmd_undefined mod_word (ground arith))
