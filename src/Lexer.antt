-- ===== src/Lexer.antt =====
-- The lexer of core/c32asmlex.c, on the token and state types of core/c32asm.h. A text is the list of the
-- bytes from `c->parse` to the terminator, without it; a pointer into the code is its offset.
pub mod Places
pub mod Inside
pub mod Lines
use mathlib.Core.Bool.{◌||◌, ◌&&◌, not}
use chip.Prelude.{
  ℕ, zero, suc, ◌+◌, ◌*◌, Bool, true, false, Option, none, some, List, [], ◌∷◌, ◌++◌, length, ltb,
  leb, ◌==◌, if◌then◌else◌,
}
use chip.Outcome.{Outcome, done, undefined, unfinished, ◌>>=◌}

pub data TokenType : Type 0 where
  tk_error tk_literal_num tk_literal_char tk_literal_str tk_auto tk_ram tk_addr tk_ptr tk_data
        tk_name tk_label :
      TokenType

pub record Token : Type 0 where
  pub line : ℕ
  pub type : TokenType
  pub start : ℕ
  pub stop : ℕ

-- The messages.
pub data Error : Type 0 where
  missing_terminator : ℕ → Error
  token_start invalid_token wrong_number unknow_token eom wrong_separator wrong_arg_separator :
      Error

-- The fields of `asmchip32_s` that the lexer uses: `parse` with the text from there on, `line`, `error`,
-- and `vcmd` up to `cmdcount` with its room `cmdsize`. `tokens` is the command at its end while the
-- lexer is on its line: it is in `commands` once the line is done, and a failure drops it.
pub record Lexer : Type 0 where
  pub text : List ℕ
  pub parse : ℕ
  pub line : ℕ
  pub commands : List (List Token)
  pub cmdsize : ℕ
  pub tokens : List Token
  pub error : Option Error

-- The C library: `tolower`, and whether a `realloc` to so many commands succeeds.
pub record Libc : Type 0 where
  pub tolower : ℕ → ℕ
  pub realloc : ℕ → Bool

abbrev pub max_token : ℕ
max_token = 64

-- `*c->parse`.
abbrev pub head : List ℕ → ℕ
head [] = 0
head (x ∷ xs) = x

-- `++c->parse`.
abbrev pub advance : Lexer → Lexer
advance c = elim c.text [ [] ↦ c | x ∷ r ↦ record c { text = r; parse = c.parse + 1 } ]

-- `while( *c->parse && … ) ++c->parse`.
unfoldable pub skip : (ℕ → Bool) → ℕ → List ℕ → ℕ × List ℕ
skip test at [] = (at, [])
skip test at (x ∷ xs) = let rest = skip test (at + 1) xs in if test x then rest else (at, x ∷ xs)

unfoldable pub skip_while : (ℕ → Bool) → Lexer → Lexer
unfolding skip
skip_while test c = let r = skip test c.parse c.text in record c { text = r.1; parse = r.0 }

abbrev pub is_space : ℕ → Bool
is_space x = x == 32 || x == 9

abbrev pub skip_space : Lexer → Lexer
skip_space = skip_while is_space

abbrev pub skip_comment : Lexer → Lexer
skip_comment = skip_while (λ x. not (x == 10))

-- Whether a line ends here, and the state behind its end.
unfoldable pub endl : Lexer → Bool × Lexer
unfolding skip_while
endl c = elim c.text [
  | [] ↦ (true, c)
  | x ∷ r ↦
      if x == 10
      then (true, advance c)
      else if x == 59
      then (true, advance (skip_comment c))
      else (false, c)
]

-- The result -1 of a function that leaves a message.
abbrev pub fail : {A : Type 0} → Error → Lexer → Outcome (Option A × Lexer)
fail e c = done (none, record c { error = some e })

-- A write to `tokens[ntoken]`.
abbrev pub slot : {A : Type 0} → Lexer → Outcome A → Outcome A
slot c k = if ltb (length c.tokens) max_token then k else undefined

-- The loop of `a32_token_quote`, behind the first quote.
unfoldable pub quote_loop : ℕ → ℕ → List ℕ → ℕ × List ℕ
quote_loop quote at [] = (at, [])
quote_loop quote at (x ∷ []) = if x == quote then (at, x ∷ []) else (at + 1, [])
quote_loop quote at (x ∷ y ∷ r) =
    let one = quote_loop quote (at + 1) (y ∷ r) in
    let two = quote_loop quote (at + 2) r in
    if x == quote then (at, x ∷ y ∷ r) else if x == 92 then two else one

-- The bounds of the token.
unfoldable pub token_quote : Lexer → Outcome (Option (ℕ × ℕ) × Lexer)
unfolding quote_loop
token_quote c =
    let quote = head c.text in
    let first = advance c in
    let r = quote_loop quote first.parse first.text in
    let last = record first { text = r.1; parse = r.0 } in
    slot c (
      if c.parse == r.0 || not (head r.1 == quote)
      then fail (missing_terminator quote) c
      else done (some (c.parse, (advance last).parse), advance last))

abbrev pub is_digit : ℕ → Bool
is_digit x = leb 48 x && leb x 57

abbrev pub is_letter : ℕ → Bool
is_letter x = leb 65 x && leb x 90 || leb 97 x && leb x 122

abbrev pub is_name : ℕ → Bool
is_name x = is_letter x || is_digit x || x == 95

abbrev pub is_integer : ℕ → Bool
is_integer x = is_digit x || x == 45

-- What `a32_token_name_next` and `a32_token_integer` share, behind their first tests.
unfoldable pub token_of : (ℕ → Bool) → Lexer → Outcome (Option (ℕ × ℕ) × Lexer)
unfolding skip_while
token_of test c =
    let last = skip_while test c in
    slot c (
      if c.parse == last.parse
      then fail invalid_token last
      else done (some (c.parse, last.parse), last))

unfoldable pub push : TokenType → ℕ × ℕ → Lexer → Lexer
push type bounds c = record c {
  tokens =
      c.tokens ++ (record { line = c.line; type = type; start = bounds.0; stop = bounds.1 } ∷ []);
}

-- A token that is read and pushed.
unfoldable pub keep : TokenType → Outcome (Option (ℕ × ℕ) × Lexer) → Outcome (Bool × Lexer)
unfolding push
keep type o = o >>= λ r. elim r.0 [
  | none ↦ done (false, r.1)
  | some bounds ↦ done (true, push type bounds r.1)
]

unfoldable pub prefix_type : ℕ → Option TokenType
prefix_type x =
    if x == 36
    then some tk_ram
    else if x == 38
    then some tk_addr
    else if x == 42
    then some tk_ptr
    else if x == 64
    then some tk_data
    else none

-- The failure of a function whose value is 0 or -1.
abbrev pub wrong : Error → Lexer → Outcome (Bool × Lexer)
wrong e c = done (false, record c { error = some e })

module _ (libc : Libc) where
  unfoldable pub token_name_next : Lexer → Outcome (Option (ℕ × ℕ) × Lexer)
  unfolding token_of
  token_name_next c =
      let x = head c.text in
      if (ltb (libc.tolower x) 97 || ltb 122 (libc.tolower x)) && not (x == 95)
      then fail token_start c
      else token_of is_name c

  unfoldable pub token_integer : Lexer → Outcome (Option (ℕ × ℕ) × Lexer)
  unfolding token_of
  token_integer c =
      let x = head c.text in
      if (ltb (libc.tolower x) 48 || ltb 57 (libc.tolower x)) && not (x == 45)
      then fail wrong_number c
      else token_of is_integer c

  -- The cases of `a32_arg_next` that read a literal or a name.
  unfoldable pub literal : Lexer → Outcome (Bool × Lexer)
  unfolding token_quote token_integer token_name_next keep
  literal c =
      let x = head c.text in
      if is_integer x
      then keep tk_literal_num (token_integer c)
      else if x == 39
      then keep tk_literal_char (token_quote c)
      else if x == 34
      then keep tk_literal_str (token_quote c)
      else if is_letter x || x == 95
      then keep tk_name (token_name_next c)
      else wrong unknow_token c

  -- On the text of the state, which is given again as it is what the recursion is on.
  unfoldable pub arg_next : List ℕ → Lexer → Outcome (Bool × Lexer)
  unfolding literal push prefix_type
  arg_next [] c = wrong unknow_token c
  arg_next (x ∷ r) c =
      let next = record c { text = r; parse = c.parse + 1 } in
      if x == 63
      then slot c (done (true, push tk_auto (c.parse, c.parse + 1) next))
      else elim (prefix_type x) [
        | none ↦ literal c
        | some type ↦ slot c (arg_next r (push type (c.parse, c.parse + 1) next))
      ]

  -- The first loop of `a32_lexer_line`: labels, and the name of the command.
  unfoldable pub labels : ℕ → Lexer → Outcome (Bool × Lexer)
  unfolding token_name_next push skip_while
  labels zero c = unfinished
  labels (suc fuel) c = slot c (
      token_name_next c >>= λ r. elim r.0 [
        | none ↦ done (false, r.1)
        | some bounds ↦ elim (head r.1.text == 58) [
          | true ↦ labels fuel (skip_space (advance (push tk_label bounds r.1)))
          | false ↦
              if is_space (head r.1.text) || head r.1.text == 10 || head r.1.text == 59
              then done (true, push tk_name bounds r.1)
              else wrong wrong_separator r.1
        ]
      ])

  -- The second loop: the arguments.
  unfoldable pub arguments : ℕ → Lexer → Outcome (Bool × Lexer)
  unfolding endl arg_next skip_while
  arguments zero c = unfinished
  arguments (suc fuel) c =
      let begin = endl (skip_space c) in
      elim begin.0 [
        | true ↦ done (true, begin.1)
        | false ↦ arg_next begin.1.text begin.1 >>= λ r. elim r.0 [
          | false ↦ done (false, r.1)
          | true ↦
              (let after = endl r.1 in
                elim after.0 [
                  | true ↦ done (true, after.1)
                  | false ↦ elim (head after.1.text == 44) [
                    | true ↦ arguments fuel (advance after.1)
                    | false ↦ wrong wrong_arg_separator after.1
                  ]
                ])
        ]
      ]

  -- `none` is NULL.
  unfoldable pub lexcmd_new : Lexer → Bool × Lexer
  lexcmd_new c =
      let size = if leb c.cmdsize (length c.commands) then c.cmdsize * 2 else c.cmdsize in
      (
        if leb c.cmdsize (length c.commands) then libc.realloc size else true,
        record c { cmdsize = size },
      )

  unfoldable pub lexer_line : Lexer → Outcome (Bool × Lexer)
  unfolding endl lexcmd_new labels arguments skip_while
  lexer_line c =
      let begin = endl (skip_space c) in
      elim begin.0 [
        | true ↦ done (true, begin.1)
        | false ↦
            (let new = lexcmd_new begin.1 in
              elim new.0 [
                | false ↦ wrong eom new.1
                | true ↦ labels (suc (length new.1.text)) (record new.1 { tokens = [] }) >>= λ r.
                    elim r.0 [
                      | false ↦ done (false, r.1)
                      | true ↦ arguments (suc (length r.1.text)) r.1 >>= λ s. elim s.0 [
                        | false ↦ done (false, s.1)
                        | true ↦
                            done (true, record s.1 { commands = s.1.commands ++ (s.1.tokens ∷ []) })
                      ]
                    ]
              ])
      ]

  -- The loop of `a32_lexer`, for a number of lines.
  unfoldable pub lexer_loop : ℕ → Lexer → Outcome (Bool × Lexer)
  unfolding lexer_line
  lexer_loop zero c = unfinished
  lexer_loop (suc fuel) c = elim c.text [
    | [] ↦ done (true, c)
    | x ∷ xs ↦ lexer_line c >>= λ r. elim r.0 [
      | false ↦ done (false, r.1)
      | true ↦ lexer_loop fuel (record r.1 { line = r.1.line + 1 })
    ]
  ]

  -- The result is `true` for 0 and `false` for -1.
  unfoldable pub lexer : Lexer → Outcome (Bool × Lexer)
  unfolding lexer_loop
  lexer c = lexer_loop (suc (length c.text)) c
