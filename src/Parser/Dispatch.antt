-- ===== src/Parser/Dispatch.antt =====
-- The loop of core/c32asmpars.c over the lines, and `chip32_compiler_build` of core/c32asm.c, which runs the
-- lexer and then the parser.
use chip.Prelude.{
  ℕ, ◌-◌, Bool, true, false, Option, none, some, List, [], ◌∷◌, length, drop, take, if◌then◌else◌,
}
use chip.Outcome.{Outcome, done, ◌>>=◌}
use chip.Code.{ift_code, iff_code}
use chip.Lexer.{Token, Lexer, Libc, lexer}
use chip.Parser.{
  Symbols, Library, Parser, at_token, is_label, action_jmpi, branch_action, action_initr,
  unknow_command,
}
use chip.Parser.Actions.{calculation, transfer}
use chip.Parser.Declare.{action_declare, decline}
use chip.Parser.Commands.{Action, declare, initr, jmpi, ift, iff, calculates, transfers}

module _ {S : Type 0} (symbols : Symbols S) (library : Library) where
  unfoldable pub run_action : Action → List Token → Parser S → Outcome (Bool × Parser S)
  unfolding action_declare action_initr action_jmpi branch_action calculation transfer
  run_action declare = action_declare symbols library
  run_action initr = action_initr symbols library
  run_action jmpi = action_jmpi symbols library
  run_action ift = branch_action symbols library ift_code
  run_action iff = branch_action symbols library iff_code
  run_action (calculates s) = calculation symbols library s
  run_action (transfers s) = transfer symbols library s

  -- The index of the command's name in a line.
  unfoldable pub name_index : Token → ℕ
  unfolding is_label
  name_index t = if is_label symbols library t.type then 1 else 0

  -- The loop over the lines that are left. `find_action` is `rbhash_find` on the table of actions.
  unfoldable pub parse_loop :
      (List ℕ → Outcome (Option Action)) → List (List Token) → Parser S → Outcome (Bool × Parser S)
  unfolding name_index run_action
  parse_loop find_action [] c = done (true, c)
  parse_loop find_action (ts ∷ lines) c = at_token ts 0 (λ first.
      at_token ts (name_index first) (λ t.
        find_action (take (t.stop - t.start) (drop t.start c.code)) >>= λ fn. elim fn [
          | none ↦ decline symbols library unknow_command t c
          | some a ↦ run_action a ts c >>= λ r. elim r.0 [
            | true ↦ parse_loop find_action lines r.1
            | false ↦ done r
          ]
        ]))

  -- The two states are the parts of `asmchip32_s` that the lexer and the parser use.
  unfoldable pub compiler_build :
      Libc
      → (List ℕ → Outcome (Option Action))
      → List ℕ
      → Lexer
      → Parser S
      → Outcome (Bool × Lexer × Parser S)
  unfolding parse_loop lexer
  compiler_build libc find_action code l c =
      lexer libc (record l { text = code; parse = 0 }) >>= λ r. elim r.0 [
        | false ↦ done (false, r.1, record c { code = code })
        | true ↦
            parse_loop find_action r.1.commands (record c {
              code = code;
              cmdcount = length r.1.commands;
              line = r.1.line;
              parse = r.1.parse;
            })
            >>= λ q. done (q.0, r.1, q.1)
      ]
