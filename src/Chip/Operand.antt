-- ===== src/Chip/Operand.antt =====
-- `chip32_getword` and `chip32_setword` of core/chip32.c.
use chip.Prelude.{ℕ, none, some, List, [], ◌∷◌, ◌==◌, if◌then◌else◌}
use chip.Command.{Command, type_literal, type_ram, type_ptr, type_data}
use chip.Chip.State.{Platform, M, pure, ◌>>=◌, ◌>>◌, load_ram, store_ram, fail, emit, setword_fail}

-- `tmp.arg0`, from the buffer of one command.
unfoldable pub first_arg0 : Command → List Command → ℕ
first_arg0 junk [] = junk.arg0
first_arg0 junk (t ∷ _) = t.arg0

module _ (p : Platform) where
  unfoldable pub get_data : ℕ → M ℕ
  unfolding first_arg0 fail
  get_data r = elim (p.load r (p.junk ∷ [])) [
    | none ↦ fail >> pure p.junk.arg0
    | some (n, tmp) ↦
        if n == 1 then pure (first_arg0 p.junk tmp) else (fail >> pure (first_arg0 p.junk tmp))
  ]

  unfoldable pub getword : ℕ → ℕ → M ℕ
  unfolding get_data load_ram fail
  getword type r =
      if type == type_ram
      then load_ram r
      else if type == type_ptr
      then (load_ram r >>= load_ram)
      else if type == type_literal
      then pure r
      else if type == type_data
      then get_data r
      else (fail >> pure 0)

unfoldable pub setword : ℕ → ℕ → ℕ → M (Unit {0})
unfolding load_ram store_ram fail emit
setword type r v =
    if type == type_ram
    then store_ram r v
    else if type == type_ptr
    then (load_ram r >>= λ a. store_ram a v)
    else (fail >> emit setword_fail)
