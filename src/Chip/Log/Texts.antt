-- ===== src/Chip/Log/Texts.antt =====
-- `logs` and `strcpy` on a text in the ram, and what `logs` leaves of its own command.
use mathlib.Core.List.{append_assoc, append-nil, map-append}
use chip.Prelude.{
  ℕ, zero, suc, ◌+◌, ◌<◌, ◌≡◌, ◌≢◌, ◌∙◌, arith, false, some, List, [], ◌∷◌, ◌++◌, map, ◌==◌, length,
}
use chip.Word.{half_mod, add}
use chip.Command.{Command, type_ram, arg0f_get}
use chip.Outcome.{Outcome, done}
use chip.Outcome
use chip.Chip.State.{Chip, Platform, cell, printed_char}
use chip.Chip.Operand.{getword}
use chip.Chip.Log.{rounds, read_next, logs_loop, cmd_logs}
use chip.Chip.Cells.{load_ram-cell}

-- The cells from `a` on hold the text `xs` and a 0.
abbrev pub IsText : Chip → ℕ → List ℕ → Type 0
IsText c a [] = cell c a ≡ some 0
IsText c a (x ∷ xs) = (cell c a ≡ some x) × (x ≢ 0) × IsText c (a + 1) xs

-- The chip after printing `xs`.
abbrev pub printed : Chip → List ℕ → Chip
printed c xs = record c { output = c.output ++ map printed_char xs }

add-one : (s : ℕ) → s + 1 < half_mod → add s 1 ≡ done (s + 1)
unfolding add
add-one s hi = ground arith

enough : (a l : ℕ) → a + l + 1 < half_mod → l < rounds a
unfolding rounds
enough a l h = ground arith

-- Printing does not change the ram.
IsText-printed :
    (c : Chip) (xs : List ℕ) (a : ℕ) (ys : List ℕ) → IsText c a ys → IsText (printed c xs) a ys
IsText-printed c xs a [] h = h
IsText-printed c xs a (y ∷ ys) h = (h.0, h.1, IsText-printed c xs (a + 1) ys h.2)

printed_append : (c : Chip) (xs ys : List ℕ) → printed (printed c xs) ys ≡ printed c (xs ++ ys)
printed_append c xs ys = rw (append_assoc, map-append)

module _ (p : Platform) where
  read_next_lem :
      (c : Chip) (a v : ℕ)
      → cell c a ≡ some v
      → a + 1 < half_mod
      → read_next p type_ram a c ≡ done ((v, a + 1), c)
  unfolding read_next getword
  read_next_lem c a v e h = ground (arith, add-one a h, load_ram-cell c a e)

  logs_loop_stops :
      (fuel a n : ℕ) (c : Chip)
      → read_next p type_ram a c ≡ done ((0, n), c)
      → logs_loop p type_ram (suc fuel) a c ≡ done (n, c)
  logs_loop_stops fuel a n c e = unfold logs_loop in ground (arith, e)

  logs_loop_goes :
      (fuel a n x : ℕ) (c : Chip)
      → read_next p type_ram a c ≡ done ((x, n), c)
      → x ≢ 0
      → logs_loop p type_ram (suc fuel) a c ≡ logs_loop p type_ram fuel n (printed c (x ∷ []))
  logs_loop_goes fuel a n x c e h =
      let test : (x == 0) ≡ false = ground arith in unfold logs_loop in ground (arith, e, test)

  logs_loop-IsText :
      (xs : List ℕ) (fuel a : ℕ) (c : Chip)
      → IsText c a xs
      → length xs < fuel
      → a + length xs + 1 < half_mod
      → logs_loop p type_ram fuel a c ≡ done (a + length xs + 1, printed c xs)
  logs_loop-IsText xs zero a c h q r = absurd (omega arith)
  logs_loop-IsText [] (suc fuel) a c h q r =
      let e : a + 1 ≡ a + 0 + 1 = omega arith in
      logs_loop_stops fuel a (a + 1) c (read_next_lem c a 0 h (omega arith)) ∙ rw (append-nil, e)
  logs_loop-IsText (x ∷ xs) (suc fuel) a c h q r =
      let e : a + 1 + length xs + 1 ≡ a + suc (length xs) + 1 = omega arith in
      logs_loop_goes fuel a (a + 1) x c (read_next_lem c a x h.0 (omega arith)) h.1
      ∙ logs_loop-IsText xs fuel (a + 1) (printed c (x ∷ [])) h.2 (omega arith) (omega arith)
      ∙ rw (e, printed_append)

  -- `logs $a` on a text prints its characters in order and changes nothing else of the chip; but its own
  -- argument is then past the end of the text.
  pub cmd_logs-IsText :
      (cmd : Command) (c : Chip) (xs : List ℕ)
      → arg0f_get cmd.flags ≡ type_ram
      → IsText c cmd.arg0 xs
      → cmd.arg0 + length xs + 1 < half_mod
      → cmd_logs p cmd c ≡ done (record cmd { arg0 = cmd.arg0 + length xs + 1 }, printed c xs)
  cmd_logs-IsText cmd c xs flags h r =
      unfold cmd_logs in
      ground (
        arith,
        flags,
        logs_loop-IsText xs (rounds cmd.arg0) cmd.arg0 c h (enough cmd.arg0 (length xs) r) r,
      )

  -- So a `logs` that is executed twice on a text that another one follows prints that other one the second time.
  pub cmd_logs_twice :
      (cmd : Command) (c : Chip) (xs ys : List ℕ)
      → arg0f_get cmd.flags ≡ type_ram
      → IsText c cmd.arg0 xs
      → IsText c (cmd.arg0 + length xs + 1) ys
      → cmd.arg0 + length xs + 1 + length ys + 1 < half_mod
      → (Outcome.◌>>=◌ (cmd_logs p cmd c) (λ r. cmd_logs p r.0 r.1))
        ≡ done
            (record cmd { arg0 = cmd.arg0 + length xs + 1 + length ys + 1 }, printed c (xs ++ ys))
  cmd_logs_twice cmd c xs ys flags h k r =
      let n = cmd.arg0 + length xs + 1 in
      let first = cmd_logs-IsText cmd c xs flags h (omega arith) in
      let second =
        cmd_logs-IsText (record cmd { arg0 = n }) (printed c xs) ys flags
          (IsText-printed c xs n ys k) r in
      rw first (second ∙ rw printed_append)
