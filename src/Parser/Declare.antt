-- ===== src/Parser/Declare.antt =====
-- `action_declare` of core/c32asmpars.c: a variable with an address, a size and a first value. `auto` is
-- whether the address is the next free one.
use chip.Prelude.{
  ℕ, zero, suc, ◌+◌, ◌-◌, ◌%◌, ◌^◌, Bool, true, false, Option, none, some, List, [], ◌∷◌, length,
  drop, ltb, leb, ◌==◌, if◌then◌else◌, get_elem?,
}
use chip.Word.{word_mod}
use chip.Hash.{char, size_mod}
use chip.Command.{type_ram}
use chip.Outcome.{Outcome, done, undefined, ◌>>=◌}
use chip.Lexer.{Token, TokenType, tk_literal_num, tk_literal_char, tk_literal_str, tk_name, tk_auto}
use chip.Parser.{
  Symbols, Library, Parser, ParseError, dec_type_literal_num, at_token, name_of, report, push_move,
  missing_argument, redeclared_variable, declare_name, declare_address, declare_size, auto_size,
  invalid_string, mixed_literals, init_value,
}

-- What a token says of an address or a size.
pub data Given : Type 0 where
  given automatic not_given : Given

abbrev pub given_of : TokenType → Given
given_of tk_literal_num = given
given_of tk_auto = automatic
given_of _ = not_given

-- What a token says of a first value.
pub data Value : Type 0 where
  text_value number_value char_value no_first_value : Value

abbrev pub value_of : TokenType → Value
value_of tk_literal_str = text_value
value_of tk_literal_num = number_value
value_of tk_literal_char = char_value
value_of _ = no_first_value

-- The byte at an offset of the code, which ends with a 0.
abbrev pub byte_at : {A : Type 0} → List ℕ → ℕ → (ℕ → Outcome A) → Outcome A
byte_at code i k = elim (get_elem? code i) [
  | none ↦ if i == length code then k 0 else undefined
  | some b ↦ k b
]

-- `strchr(s, c) - s`, for a `c` that is not 0.
unfoldable pub strchr : ℕ → List ℕ → Option ℕ
strchr c [] = none
strchr c (x ∷ xs) =
    let rest = strchr c xs in
    if x == c then some 0 else elim rest [ none ↦ none | some n ↦ some (suc n) ]

-- The rounds of a loop from 0 to a `ssize_t`.
abbrev pub rounds_of : ℕ → ℕ
rounds_of n = if ltb n (2 ^ 63) then n else 0

module _ {S : Type 0} (symbols : Symbols S) (library : Library) where
  abbrev pub Step : Type 0
  Step = Outcome (Bool × Parser S)

  abbrev pub decline : ParseError → Token → Parser S → Step
  decline e t c = done (false, report symbols library e t c)

  -- The label ICERR, at the token before.
  abbrev pub declare_missing : List Token → ℕ → Parser S → Step
  declare_missing ts zero c = undefined
  declare_missing ts (suc i) c = at_token ts i (λ t. decline missing_argument t c)

  -- The label ICEND.
  unfoldable pub add_declared : Token → ℕ → Parser S → Step
  add_declared name addr c =
      elim (symbols.add_unique (name_of name) (record { type = dec_type_literal_num; addr = addr })
        c.declare) [
          | none ↦ decline redeclared_variable name c
          | some declare ↦ done (true, record c { declare = declare })
        ]

  -- `avaddr` grows where the address is automatic.
  abbrev pub reserve : Bool → ℕ → Parser S → Parser S
  reserve auto n c = if auto then record c { avaddr = (c.avaddr + n) % size_mod } else c

  -- The characters from an offset of the code, into the cells from an address on.
  unfoldable pub push_text : ℕ → ℕ → ℕ → Parser S → Outcome (Parser S)
  unfolding push_move
  push_text zero addr from c = done c
  push_text (suc n) addr from c = byte_at c.code from (λ b.
      push_move symbols library type_ram (addr % word_mod) (char b) c >>= λ r.
      push_text n (addr + 1) (from + 1) r.1)

  unfoldable pub declare_text : Token → Token → ℕ → ℕ → Bool → Parser S → Step
  unfolding push_text strchr add_declared
  declare_text name t addr size auto c = byte_at c.code t.start (λ quote.
      elim (if quote == 0 then none else strchr quote (drop (t.start + 1) c.code)) [
        | none ↦ decline invalid_string t c
        | some n ↦
            let count = if size == 0 then n else size in
            push_text (rounds_of count) addr (t.start + 1) c >>= λ d.
            push_move symbols library type_ram ((addr + count) % word_mod) 0 d >>= λ r.
            add_declared name addr (reserve auto (count + 1) r.1)
      ])

  -- One literal for each cell. It goes on to ICERR as soon as there is no token after one: `true` is that it
  -- does not.
  unfoldable pub push_values : ℕ → ℕ → List Token → ℕ → Parser S → Step
  unfolding push_move
  push_values zero addr ts ic c = done (true, c)
  push_values (suc n) addr ts ic c = at_token ts ic (λ t.
      (elim (value_of t.type) [
        | number_value ↦
            push_move symbols library type_ram (addr % word_mod)
              (library.strtoul t.start % word_mod) c
        | char_value ↦
            byte_at c.code (t.start + 1)
              (λ b. push_move symbols library type_ram (addr % word_mod) (char b) c)
        | text_value ↦ decline mixed_literals t c
        | no_first_value ↦ decline mixed_literals t c
      ])
      >>= λ r. elim r.0 [
        | false ↦ done r
        | true ↦ elim (leb (length ts) (ic + 1)) [
          | true ↦ declare_missing ts (ic + 1) r.1
          | false ↦ push_values n (addr + 1) ts (ic + 1) r.1
        ]
      ])

  unfoldable pub declare_values : Token → List Token → ℕ → ℕ → ℕ → Bool → Parser S → Step
  unfolding push_values add_declared
  declare_values name ts ic addr size auto c =
      let count = if size == 0 then length ts - ic else size in
      push_values (rounds_of count) addr ts ic c >>= λ r. elim r.0 [
        | false ↦ done r
        | true ↦ add_declared name addr (reserve auto count r.1)
      ]

  -- From the size on. An automatic size is 0.
  unfoldable pub declare_first : Token → List Token → ℕ → ℕ → ℕ → Bool → Parser S → Step
  unfolding declare_text declare_values add_declared
  declare_first name ts ic addr size auto c =
      if leb (length ts) (ic + 1)
      then (if size == 0
          then at_token ts ic (λ t. decline auto_size t c)
          else add_declared name addr (reserve auto size c))
      else at_token ts (ic + 1) (λ t. elim (value_of t.type) [
        | text_value ↦ declare_text name t addr size auto c
        | number_value ↦ declare_values name ts (ic + 1) addr size auto c
        | char_value ↦ declare_values name ts (ic + 1) addr size auto c
        | no_first_value ↦ decline init_value t c
      ])

  -- The number of the size is read at the token behind it.
  unfoldable pub declare_sized : Token → List Token → ℕ → Bool → Parser S → Step
  unfolding declare_first add_declared
  declare_sized name ts addr auto c =
      if leb (length ts) 3
      then add_declared name addr (reserve auto 1 c)
      else at_token ts 3 (λ t. elim (given_of t.type) [
        | given ↦
            at_token ts 4
              (λ u. declare_first name ts 3 addr (library.strtoul u.start % size_mod) auto c)
        | automatic ↦ declare_first name ts 3 addr 0 auto c
        | not_given ↦ decline declare_size t c
      ])

  unfoldable pub declared_type : TokenType → Bool
  declared_type tk_name = true
  declared_type _ = false

  -- The number of the address is read at the name.
  unfoldable pub action_declare : List Token → Parser S → Step
  unfolding declare_sized declared_type
  action_declare ts c = at_token ts 1 (λ name. elim (declared_type name.type) [
    | false ↦ decline declare_name name c
    | true ↦
        if library.new_declared
        then (if leb (length ts) 2
            then declare_missing ts 2 c
            else at_token ts 2 (λ t. elim (given_of t.type) [
              | given ↦ declare_sized name ts (library.strtoul name.start % word_mod) false c
              | automatic ↦ declare_sized name ts (c.avaddr % word_mod) true c
              | not_given ↦ decline declare_address t c
            ]))
        else undefined
  ])
