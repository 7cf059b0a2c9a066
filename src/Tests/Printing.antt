-- ===== src/Tests/Printing.antt =====
-- The printing of a text.
use chip.Prelude.{ℕ, ◌+◌, ◌≡◌, refl, arith, List, [], ◌∷◌, ◌++◌, length}
use chip.Command.{Command}
use chip.Outcome.{Outcome, done}
use chip.Outcome
use chip.Chip.State.{Chip}
use chip.Chip.Log.{cmd_logs}
use chip.Chip.Log.Texts.{IsText, printed, cmd_logs-IsText, cmd_logs_twice}
use chip.Tests.{machine, chip_of}

-- The text "H" in cell 0, and an empty text behind it.
abbrev texts : Chip
texts = chip_of 72 0

abbrev h_text : List ℕ
h_text = 72 ∷ []

abbrev logs_cmd : Command
logs_cmd = record { flags = 1; code = 0x43; arg0 = 0; arg1 = 0 }

h-IsText : IsText texts 0 h_text
h-IsText = (refl, λ e. omega arith, refl)

cmd_logs-IsText_example :
    cmd_logs machine logs_cmd texts
    ≡ done (record logs_cmd { arg0 = 0 + length h_text + 1 }, printed texts h_text)
cmd_logs-IsText_example = cmd_logs-IsText machine logs_cmd texts h_text refl h-IsText (omega arith)

cmd_logs_twice_example :
    (Outcome.◌>>=◌ (cmd_logs machine logs_cmd texts) (λ r. cmd_logs machine r.0 r.1))
    ≡ done (
      record logs_cmd { arg0 = 0 + length h_text + 1 + length {A = ℕ} [] + 1 },
      printed texts (h_text ++ []),
    )
cmd_logs_twice_example =
    cmd_logs_twice machine logs_cmd texts h_text [] refl h-IsText refl (omega arith)
