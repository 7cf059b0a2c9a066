-- ===== src/Tests/Symbols.antt =====
-- The parser on labels, on two lines and on a declaration.
use chip.Prelude.{
  ℕ, ◌+◌, ◌≡◌, refl, Bool, true, Option, none, some, List, [], ◌∷◌, length, ◌==◌, if◌then◌else◌,
}
use chip.Outcome.{Outcome, Post, done, undefined, unfinished}
use chip.Lexer.{Token, tk_label, tk_name, tk_literal_num}
use chip.Parser.Commands.{Action, actions}
use chip.Parser.Naming.{named}
use chip.Parser.Declare.{action_declare}
use chip.Parser.Dispatch.{parse_loop, name_index}
use chip.Parser.Lines.{OneEach, parse_loop-OneEach}
use chip.Parser.{Symbols, Library, Parser, is_label}

-- A table that refuses every name.
abbrev full : Symbols ℕ
full = record { find = λ n s. none; add_unique = λ n d s. none }

abbrev library : Library
library = record { strtoul = λ n. n; realloc = λ n. true; new_declared = true }

abbrev parser : Parser ℕ
parser = record {
  cmdcount = 3;
  mc = [];
  mcsize = 8;
  avaddr = 35;
  code = [];
  declare = 0;
  line = 1;
  parse = 0;
  error = none;
}

abbrev token : Token
token = record { line = 2; type = tk_label; start = 4; stop = 9 }

-- Two lines "nop", the second behind a label, and the search in the table of all actions.
abbrev known : List ℕ → Outcome (Option Action)
known k = done (named actions k none)

abbrev lines : List (List Token)
lines =
    (record { line = 1; type = tk_name; start = 0; stop = 3 } ∷ [])
    ∷ (record { line = 2; type = tk_label; start = 4; stop = 5 }
        ∷ record { line = 2; type = tk_name; start = 7; stop = 10 }
        ∷ [])
    ∷ []

-- A table that takes every name.
abbrev taking : Symbols ℕ
taking = record { find = λ n s. none; add_unique = λ n d s. some (s + 1) }

abbrev text_parser : Parser ℕ
text_parser = record parser { code = 110 ∷ 111 ∷ 112 ∷ 10 ∷ 108 ∷ 58 ∷ 32 ∷ 110 ∷ 111 ∷ 112 ∷ [] }

parse_loop-OneEach_example :
    Post
      (OneEach taking library known lines text_parser)
      (parse_loop taking library known lines text_parser)
parse_loop-OneEach_example =
    parse_loop-OneEach taking library known lines text_parser (λ k e. cc)
      ((λ e. unfold name_index is_label in cc e), ((λ e. unfold name_index is_label in cc e), tt))

-- It ends with two commands.
abbrev made : Outcome (Bool × Parser ℕ) → ℕ
made (done (b, c)) = if b then length c.mc else 0
made undefined = 0
made unfinished = 0

two_made : made (parse_loop taking library known lines text_parser) ≡ 2
unfolding parse_loop
two_made = refl

-- A variable with the address 5 gets the address 0, the number in its name.
abbrev address_line : List Token
address_line =
    record { line = 1; type = tk_name; start = 0; stop = 7 }
    ∷ record { line = 1; type = tk_name; start = 8; stop = 9 }
    ∷ record { line = 1; type = tk_literal_num; start = 10; stop = 11 }
    ∷ []

-- A table that keeps the last address.
abbrev keeping : Symbols ℕ
keeping = record { find = λ n s. none; add_unique = λ n d s. some d.addr }

abbrev numbers : Library
numbers = record library { strtoul = λ n. if n == 10 then 5 else 0 }

abbrev last_address : Outcome (Bool × Parser ℕ) → ℕ
last_address (done (b, c)) = c.declare
last_address undefined = 99
last_address unfinished = 99

wrong_address : last_address (action_declare keeping numbers address_line parser) ≡ 0
unfolding action_declare
wrong_address = refl
