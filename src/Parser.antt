-- ===== src/Parser.antt =====
-- The parser of core/c32asmpars.c: labels, operands, and the actions of the commands. A name in the code
-- is its offset and its length.
pub mod Actions
pub mod Commands
pub mod Declare
pub mod Dispatch
pub mod Keeps
pub mod Emits
pub mod Naming
pub mod Lines
use chip.Prelude.{
  ℕ, zero, suc, ◌+◌, ◌-◌, ◌*◌, ◌%◌, Bool, true, false, Option, none, some, List, [], ◌∷◌, ◌++◌,
  length, leb, if◌then◌else◌, get_elem?, bit_and, bit_or,
}
use chip.Word.{word_mod}
use chip.Command.{Command, type_literal, type_ram, type_ptr, type_data}
use chip.Code.{
  nop_code, move_code, inc_code, dec_code, sum_code, dif_code, mul_code, div_code, mod_code,
  or_code, xor_code, and_code, not_code, shl_code, shr_code, rol_code, ror_code, bor_code,
  band_code, bnot_code, jmp_code, ift_code, iff_code, call_code, ret_code, push_code, pop_code,
  initr_code, logi_code, logu_code, logc_code, logs_code, logln_code, strcpy_code,
}
use chip.Outcome.{Outcome, done, undefined, ◌>>=◌}
use chip.Lexer.{
  Token, TokenType, tk_literal_num, tk_ram, tk_addr, tk_ptr, tk_data, tk_name, tk_label, tk_error,
  tk_literal_char, tk_literal_str, tk_auto,
}

pub data DeclaredType : Type 0 where
  dec_type_label dec_type_literal_num : DeclaredType

-- Its name is the key under which the table holds it.
pub record Declared : Type 0 where
  pub type : DeclaredType
  pub addr : ℕ

-- The table of declarations, of core/rbhash.c: `add_unique` is `none` for a result that is not 0.
pub record Symbols (S : Type 0) : Type 0 where
  pub find : ℕ × ℕ → S → Option Declared
  pub add_unique : ℕ × ℕ → Declared → S → Option S

-- The C library: the number at an offset of the code, whether a `realloc` to so many commands and whether
-- the allocation of a declaration succeeds.
pub record Library : Type 0 where
  pub strtoul : ℕ → ℕ
  pub realloc : ℕ → Bool
  pub new_declared : Bool

pub data ParseError : Type 0 where
  redeclaration missing_argument left_value left_operand variable right_value right_operand
        memory_size redeclared_variable declare_name declare_address declare_size auto_size
        invalid_string mixed_literals init_value unknow_command :
      ParseError

-- The fields of `asmchip32_s` that the parser uses: `cmdcount` lines, the commands `mc` up to `mccount` with
-- their room `mcsize`, the next free address `avaddr`, the bytes of the code, the declarations, and the place and text of a message.
pub record Parser (S : Type 0) : Type 0 where
  pub cmdcount : ℕ
  pub mc : List Command
  pub mcsize : ℕ
  pub avaddr : ℕ
  pub code : List ℕ
  pub declare : S
  pub line : ℕ
  pub parse : ℕ
  pub error : Option ParseError

-- A32_ARG0F_SET and A32_ARG1F_SET.
unfoldable pub arg0f_set : ℕ → ℕ → ℕ
arg0f_set f v = bit_or f (bit_and v 3)

unfoldable pub arg1f_set : ℕ → ℕ → ℕ
arg1f_set f v = bit_or f (bit_and v 3 * 4)

-- `cmd->tokens[i]`.
abbrev pub at_token : {A : Type 0} → List Token → ℕ → (Token → Outcome A) → Outcome A
at_token ts i k = elim (get_elem? ts i) [ none ↦ undefined | some t ↦ k t ]

abbrev pub name_of : Token → ℕ × ℕ
name_of t = (t.start, t.stop - t.start)

-- The result of `parse_label`: 0, 1 or -1.
pub data Label : Type 0 where
  no_label labelled redeclared : Label

-- The index of the token behind the command's name, as `++ic` computes it of that result.
abbrev pub next_token : Label → ℕ
next_token no_label = 1
next_token labelled = 2
next_token redeclared = 0

-- The type that a token before a right value stands for, or that it stands for itself.
pub data RightValue : Type 0 where
  typed : ℕ → RightValue
  itself no_value : RightValue

unfoldable pub right_value_of : TokenType → RightValue
right_value_of tk_ram = typed type_ram
right_value_of tk_ptr = typed type_ptr
right_value_of tk_addr = typed type_literal
right_value_of tk_data = typed type_data
right_value_of tk_literal_num = itself
right_value_of tk_name = itself
right_value_of tk_error = no_value
right_value_of tk_literal_char = no_value
right_value_of tk_literal_str = no_value
right_value_of tk_auto = no_value
right_value_of tk_label = no_value

unfoldable pub left_type : TokenType → Option ℕ
left_type tk_ram = some type_ram
left_type tk_ptr = some type_ptr
left_type tk_addr = none
left_type tk_data = none
left_type tk_literal_num = none
left_type tk_name = none
left_type tk_error = none
left_type tk_literal_char = none
left_type tk_literal_str = none
left_type tk_auto = none
left_type tk_label = none

-- What the operand itself is: a number, a name or neither.
pub data Atom : Type 0 where
  number name neither : Atom

unfoldable pub atom_of : TokenType → Atom
atom_of tk_literal_num = number
atom_of tk_name = name
atom_of tk_ram = neither
atom_of tk_ptr = neither
atom_of tk_addr = neither
atom_of tk_data = neither
atom_of tk_error = neither
atom_of tk_literal_char = neither
atom_of tk_literal_str = neither
atom_of tk_auto = neither
atom_of tk_label = neither

module _ {S : Type 0} (symbols : Symbols S) (library : Library) where
  -- The place and text of a message.
  abbrev pub report : ParseError → Token → Parser S → Parser S
  report e t c = record c { line = t.line; parse = t.start; error = some e }

  -- An operand: the index of its last token, the flags, and the argument; `none` is the result -1.
  abbrev pub Operand : Type 0
  Operand = Outcome (Option (ℕ × ℕ × ℕ) × Parser S)

  abbrev pub refuse : ParseError → Token → Parser S → Operand
  refuse e t c = done (none, report e t c)

  -- The label ICERR.
  unfoldable pub missing : List Token → ℕ → Parser S → Operand
  missing ts zero c = undefined
  missing ts (suc i) c = at_token ts i (λ t. refuse missing_argument t c)

  -- `a32_parse_mc_new` and the assignments to the new command, which is the null pointer if there is no room.
  unfoldable pub new_command : Command → Parser S → Outcome (Bool × Parser S)
  new_command m c =
      let full = leb c.mcsize (length c.mc) in
      let size = if full then c.mcsize * 2 else c.mcsize in
      let made = record c { mcsize = size; mc = c.mc ++ (m ∷ []) } in
      if (if full then library.realloc size else true) then done (true, made) else undefined

  unfoldable pub push_move : ℕ → ℕ → ℕ → Parser S → Outcome (Bool × Parser S)
  unfolding new_command
  push_move flags a0 a1 =
      new_command (record { flags = flags; code = move_code; arg0 = a0; arg1 = a1 })

  unfoldable pub add_label : Token → Parser S → Outcome (Label × Parser S)
  add_label t c =
      let dec : Declared = record { type = dec_type_label; addr = c.cmdcount % word_mod } in
      if library.new_declared
      then elim (symbols.add_unique (name_of t) dec c.declare) [
        | none ↦ done (redeclared, report redeclaration t c)
        | some declare ↦ done (labelled, record c { declare = declare })
      ]
      else undefined

  unfoldable pub is_label : TokenType → Bool
  is_label tk_label = true
  is_label tk_literal_num = false
  is_label tk_name = false
  is_label tk_ram = false
  is_label tk_ptr = false
  is_label tk_addr = false
  is_label tk_data = false
  is_label tk_error = false
  is_label tk_literal_char = false
  is_label tk_literal_str = false
  is_label tk_auto = false

  unfoldable pub parse_label : List Token → Parser S → Outcome (Label × Parser S)
  unfolding add_label is_label
  parse_label ts c =
      at_token ts 0 (λ t. if is_label t.type then add_label t c else done (no_label, c))

  -- The number or name of a left value. After the message for a name that is not declared, the address is
  -- read through the null pointer; a label's address is taken in spite of its message.
  unfoldable pub left_operand_at : ℕ → ℕ → Token → Parser S → Operand
  unfolding atom_of
  left_operand_at ic flags t c = elim (atom_of t.type) [
    | number ↦ done (some (ic, flags, library.strtoul t.start % word_mod), c)
    | name ↦ elim (symbols.find (name_of t) c.declare) [
      | none ↦ undefined
      | some dec ↦ elim dec.type [
        | dec_type_label ↦ done (some (ic, flags, dec.addr), report variable t c)
        | dec_type_literal_num ↦ done (some (ic, flags, dec.addr), c)
      ]
    ]
    | neither ↦ refuse left_operand t c
  ]

  unfoldable pub parse_lvalue : List Token → ℕ → ℕ → Parser S → Operand
  unfolding missing left_operand_at left_type arg0f_set
  parse_lvalue ts ic flags c =
      if leb (length ts) ic
      then missing ts ic c
      else at_token ts ic (λ t. elim (left_type t.type) [
        | none ↦ refuse left_value t c
        | some type ↦
            if leb (length ts) (ic + 1)
            then missing ts (ic + 1) c
            else at_token ts (ic + 1) (λ u. left_operand_at (ic + 1) (arg0f_set flags type) u c)
      ])

  unfoldable pub right_operand_at : ℕ → ℕ → Token → Parser S → Operand
  unfolding atom_of
  right_operand_at ic flags t c = elim (atom_of t.type) [
    | number ↦ done (some (ic, flags, library.strtoul t.start % word_mod), c)
    | name ↦ elim (symbols.find (name_of t) c.declare) [
      | none ↦ refuse variable t c
      | some dec ↦ done (some (ic, flags, dec.addr), c)
    ]
    | neither ↦ refuse right_operand t c
  ]

  -- `second` is `idarg`.
  unfoldable pub parse_rvalue : List Token → ℕ → ℕ → Bool → Parser S → Operand
  unfolding missing right_operand_at right_value_of arg0f_set arg1f_set
  parse_rvalue ts ic flags second c =
      if leb (length ts) ic
      then missing ts ic c
      else at_token ts ic (λ t. elim (right_value_of t.type) [
        | typed type ↦
            if leb (length ts) (ic + 1)
            then missing ts (ic + 1) c
            else at_token ts (ic + 1) (λ u.
              right_operand_at (ic + 1)
                (if second then arg1f_set flags type else arg0f_set flags type) u c)
        | itself ↦ right_operand_at ic flags t c
        | no_value ↦ refuse right_value t c
      ])

  -- An operand that must be there.
  abbrev pub with_operand :
      Operand → (ℕ × ℕ × ℕ → Parser S → Outcome (Bool × Parser S)) → Outcome (Bool × Parser S)
  with_operand o k = o >>= λ r. elim r.0 [ none ↦ done (false, r.1) | some v ↦ k v r.1 ]

  -- Its result is that of the command, whatever that of the label is.
  unfoldable pub parse_noarg : ℕ → List Token → Parser S → Outcome (Bool × Parser S)
  unfolding parse_label new_command
  parse_noarg code ts c = parse_label ts c >>= λ l.
      new_command (record { flags = 0; code = code; arg0 = 0; arg1 = 0 }) l.1

  unfoldable pub parse_onearg : ℕ → List Token → Parser S → Outcome (Bool × Parser S)
  unfolding parse_label parse_rvalue new_command
  parse_onearg code ts c = parse_label ts c >>= λ l.
      with_operand (parse_rvalue ts (next_token l.0) 0 false l.1)
        (λ v d. new_command (record { flags = v.1; code = code; arg0 = v.2; arg1 = 0 }) d)

  -- The two operands of a command, for its flags and arguments.
  unfoldable pub two_operands :
      List Token
      → Parser S
      → (ℕ → ℕ → ℕ → Parser S → Outcome (Bool × Parser S))
      → Outcome (Bool × Parser S)
  unfolding parse_label parse_lvalue parse_rvalue missing
  two_operands ts c k = parse_label ts c >>= λ l.
      with_operand (parse_lvalue ts (next_token l.0) 0 l.1) (λ v d.
        with_operand
          (if leb (length ts) (v.0 + 1)
            then missing ts (v.0 + 1) d
            else parse_rvalue ts (v.0 + 1) v.1 true d)
          (λ w e. k w.1 v.2 w.2 e))

  unfoldable pub parse_twoarg : ℕ → List Token → Parser S → Outcome (Bool × Parser S)
  unfolding two_operands new_command
  parse_twoarg code ts c = two_operands ts c (λ flags arg0 arg1.
      new_command (record { flags = flags; code = code; arg0 = arg0; arg1 = arg1 }))

  unfoldable pub action_jmpi : List Token → Parser S → Outcome (Bool × Parser S)
  unfolding parse_label parse_rvalue new_command
  action_jmpi ts c = parse_label ts c >>= λ l.
      with_operand (parse_rvalue ts (next_token l.0) 0 false l.1) (λ v d.
        new_command
          (record {
            flags = v.1;
            code = jmp_code;
            arg0 = (length d.mc + 1 + v.2) % word_mod;
            arg1 = 0;
          })
          d)

  -- `action_ift` and `action_iff`, by their code.
  unfoldable pub branch_action : ℕ → List Token → Parser S → Outcome (Bool × Parser S)
  unfolding two_operands new_command
  branch_action code ts c = two_operands ts c (λ flags arg0 arg1 d.
      new_command
        (record {
          flags = flags;
          code = code;
          arg0 = arg0;
          arg1 = (length d.mc + 1 + arg1) % word_mod;
        })
        d)

  unfoldable pub action_initr : List Token → Parser S → Outcome (Bool × Parser S)
  unfolding parse_label new_command missing
  action_initr ts c = parse_label ts c >>= λ l.
      let ic = next_token l.0 in
      if leb (length ts) ic
      then with_operand (missing ts ic l.1) (λ v d. undefined)
      else at_token ts ic (λ t. elim (atom_of t.type) [
        | number ↦
            new_command
              (record {
                flags = 0;
                code = initr_code;
                arg0 = library.strtoul t.start % word_mod;
                arg1 = 0;
              })
              l.1
        | name ↦ done (false, report memory_size t l.1)
        | neither ↦ done (false, report memory_size t l.1)
      ])
