-- ===== src/Chip/Valid/Operands.antt =====
-- The access to operands keeps a chip well formed.
use chip.Prelude.{ℕ, ◌≡◌, refl, Option, none, some, List, [], ◌∷◌, ◌==◌, if◌then◌else◌, All, arith}
use chip.Word.{IsWord}
use chip.Command.{Command, IsCommand, type_literal, type_ram, type_ptr, type_data}
use chip.Chip.State.{Platform, M, pure, ◌>>◌, fail, setword_fail}
use chip.Chip.Operand.{get_data, first_arg0, getword, setword}
use chip.Chip.Valid.Defs.{
  IsSound, Keeps, Any, Keeps-pure, Keeps-bind, Keeps-if, load_ram-Keeps, store_ram-Keeps,
  fail-Keeps, emit-Keeps,
}

first_arg0-IsWord :
    (junk : Command) (b : List Command)
    → IsCommand junk
    → All IsCommand b
    → IsWord (first_arg0 junk b)
unfolding first_arg0
first_arg0-IsWord junk [] h k = h.arg0_word
first_arg0-IsWord junk (t ∷ _) h k = k.0.arg0_word

-- A command of two parts, the first with no value.
pub Keeps-then :
    {B : Type 0} {R : B → Type 0} {m : M (Unit {0})} {k : M B}
    → Keeps Any m
    → Keeps R k
    → Keeps R (m >> k)
Keeps-then h k = Keeps-bind h (λ _ _. k)

module _ (p : Platform) (sound : IsSound p) where
  pub get_data-Keeps : (r : ℕ) → Keeps IsWord (get_data p r)
  unfolding get_data
  get_data-Keeps r = go (p.load r (p.junk ∷ [])) refl
    where
      go :
          (o : Option (ℕ × List Command))
          → p.load r (p.junk ∷ []) ≡ o
          → Keeps IsWord (elim o [
            | none ↦ fail >> pure p.junk.arg0
            | some (n, tmp) ↦
                if n == 1
                then pure (first_arg0 p.junk tmp)
                else (fail >> pure (first_arg0 p.junk tmp))
          ])
      go none e = Keeps-then fail-Keeps (Keeps-pure sound.junk_command.arg0_word)
      go (some (n, tmp)) e =
          let loaded = (sound.load_commands r (p.junk ∷ []) n tmp (sound.junk_command, tt) e).2 in
          let word = first_arg0-IsWord p.junk tmp sound.junk_command loaded in
          Keeps-if (n == 1) (Keeps-pure word) (Keeps-then fail-Keeps (Keeps-pure word))

  pub getword-Keeps : (type r : ℕ) → IsWord r → Keeps IsWord (getword p type r)
  unfolding getword
  getword-Keeps type r h = Keeps-if (type == type_ram) (load_ram-Keeps r) (
      Keeps-if (type == type_ptr) (Keeps-bind (load_ram-Keeps r) (λ a _. load_ram-Keeps a)) (
        Keeps-if (type == type_literal) (Keeps-pure h) (
          Keeps-if (type == type_data) (get_data-Keeps r)
            (Keeps-then fail-Keeps (Keeps-pure (omega arith))))))

pub setword-Keeps : (type r v : ℕ) → IsWord v → Keeps Any (setword type r v)
unfolding setword
setword-Keeps type r v h = Keeps-if (type == type_ram) (store_ram-Keeps r v h) (
    Keeps-if (type == type_ptr) (Keeps-bind (load_ram-Keeps r) (λ a _. store_ram-Keeps a v h))
      (Keeps-then fail-Keeps (emit-Keeps setword_fail)))
