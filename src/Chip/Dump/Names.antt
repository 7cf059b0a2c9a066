-- ===== src/Chip/Dump/Names.antt =====
-- `chip32_command_dump` and the assembler of core/c32asmpars.c call a command the same.
use chip.Prelude.{ℕ, ◌≡◌, ◌≢◌, Bool, true, Option, List, [], ◌∷◌, ◌&&◌}
use chip.Command.{Command}
use chip.Parser.{Parser}
use chip.Parser.Commands.{Action, declare, jmpi, initr, ift, iff, calculates, transfers}
use chip.Parser.Emits.{action_code}
use chip.HashTable.{same}
use chip.Chip.Dump.{dump, dump_entry}

-- The name under which the dump shows the command of an action.
abbrev IsShown : List ℕ × Action → Type 0
IsShown a = a.1 ≢ declare → a.1 ≢ jmpi → (dump_entry (action_code a.1) dump).0 ≡ a.0

abbrev shows : List ℕ → Action → Bool
shows k a = same (dump_entry (action_code a) dump).0 k

abbrev is_shown : List ℕ → Action → Bool
is_shown k declare = true
is_shown k jmpi = true
is_shown k initr = shows k initr
is_shown k ift = shows k ift
is_shown k iff = shows k iff
is_shown k (calculates s) = shows k (calculates s)
is_shown k (transfers s) = shows k (transfers s)

abbrev all_shown : List (List ℕ × Action) → Bool
all_shown [] = true
all_shown (a ∷ l) = is_shown a.0 a.1 && all_shown l
