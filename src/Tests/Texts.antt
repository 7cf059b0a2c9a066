-- ===== src/Tests/Texts.antt =====
-- The hash functions and the lexer on short texts.
use chip.Prelude.{ℕ, true, List, [], ◌∷◌, length}
use chip.Outcome.{Post}
use chip.Lexer.{Libc, lexer}
use chip.Lexer.Lines.{IsLexed, begin_state, lexer-IsLexed}

-- "ab".
abbrev ab : List ℕ
ab = 97 ∷ 98 ∷ []

-- On lower case only.
abbrev libc : Libc
libc = record { tolower = λ x. x; realloc = λ n. true }

-- "inc a\n".
abbrev inc_line : List ℕ
inc_line = 105 ∷ 110 ∷ 99 ∷ 32 ∷ 97 ∷ 10 ∷ []

lexer-IsLexed_example : Post (IsLexed libc (length inc_line)) (lexer libc (begin_state inc_line 4))
lexer-IsLexed_example = lexer-IsLexed libc inc_line 4
