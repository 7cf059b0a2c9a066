-- ===== src/Compiler.antt =====
-- The compiler object of core/c32asm.c: `chip32_compiler_new`, the message of an error, and the dump of the
-- tokens.
pub mod Creation
pub mod Caret
use chip.Prelude.{
  ℕ, zero, suc, ◌+◌, ◌-◌, ◌^◌, ◌%◌, Bool, true, false, not, ◌||◌, ◌&&◌, Option, none, some, List,
  [], ◌∷◌, ◌++◌, length, ltb, ◌==◌, if◌then◌else◌, take, drop, replicate, get_elem?, get_or,
}
use chip.Word.{word_mod, half_mod}
use chip.Command.{Command}
use chip.Hash.{hash_fasthash}
use chip.HashTable.{HashTable}
use chip.HashTable.Grow.{Memory, new}
use chip.HashTable.Calls.{Call, done, undefined, ◌>>=◌}
use chip.Lexer.{
  Token, TokenType, tk_error, tk_literal_num, tk_literal_char, tk_literal_str, tk_auto, tk_ram,
  tk_addr, tk_ptr, tk_data, tk_name, tk_label,
}
use chip.Parser.{Declared}
use chip.Parser.Commands.{Action, parser_init}
use chip.Printing.{Piece, text, unsigned, padded, signed}

-- `asmchip32_s`, as `chip32_compiler_new` fills it.
pub record Compiler : Type 0 where
  pub vcmd : List (List Token)
  pub cmdsize : ℕ
  pub mc : List Command
  pub mcsize : ℕ
  pub avaddr : ℕ
  pub actions : HashTable Action
  pub declare : HashTable Declared
  pub code : Option (List ℕ)
  pub parse : Option ℕ
  pub line : ℕ
  pub error : Option (List ℕ)

-- Which of the allocations of `chip32_compiler_new` itself succeed.
pub record Blocks : Type 0 where
  pub object : Bool
  pub vcmd : Bool
  pub mc : Bool

abbrev pub start_addr : ℕ
start_addr = 35

abbrev pub rbh_size : ℕ
rbh_size = 4096

abbrev pub rbh_min : ℕ
rbh_min = 10

abbrev pub rbh_key : ℕ
rbh_key = 64

-- `done none` is the result NULL. The object itself is written without a look at the result of `malloc`.
unfoldable pub compiler_new : Blocks → Memory Action → Memory Declared → ℕ → Call (Option Compiler)
unfolding new parser_init
compiler_new blocks actions_memory declare_memory dnswap =
    if not blocks.object
    then undefined
    else if not blocks.vcmd || not blocks.mc
    then done none
    else elim (new actions_memory rbh_size rbh_min rbh_key hash_fasthash false dnswap) [
      | none ↦ done none
      | some actions ↦
          elim (new declare_memory rbh_size rbh_min rbh_key hash_fasthash true dnswap) [
            | none ↦ done none
            | some declare ↦ parser_init actions_memory actions >>= λ named. done (
                some (record {
                  vcmd = [];
                  cmdsize = 1024;
                  mc = [];
                  mcsize = 1024;
                  avaddr = start_addr;
                  actions = named;
                  declare = declare;
                  code = none;
                  parse = none;
                  line = 1;
                  error = none;
                }))
          ]
    ]

-- What is written to stderr and to stdout.
pub data Line : Type 0 where
  stderr stdout : List Piece → Line

-- The bytes before the next newline or the end.
abbrev pub until_newline : List ℕ → List ℕ
until_newline [] = []
until_newline (x ∷ xs) = if x == 10 then [] else x ∷ until_newline xs

-- `while( startline > ac->code && *startline != '\n' ) --startline`.
unfoldable pub back : List ℕ → ℕ → ℕ
back code zero = zero
back code (suc s) = if get_or code (suc s) 0 == 10 then suc s else back code s

unfoldable pub startline : List ℕ → ℕ → ℕ
unfolding back
startline code parse = let s = back code parse in if get_or code s 0 == 10 then s + 1 else s

unfoldable pub endline : List ℕ → ℕ → ℕ
endline code parse = parse + length (until_newline (drop parse code))

-- The two pointers, and `startline - endline`, which is a signed difference. Where it is above 100, they are
-- set beside `parse`.
unfoldable pub excerpt : List ℕ → ℕ → ℕ × ℕ
unfolding startline endline
excerpt code parse =
    if ltb (endline code parse + 100) (startline code parse)
    then (parse - 50, parse + 50)
    else (startline code parse, endline code parse)

-- `"%.*s"` with the precision `(int)(stop - start)`: a negative one is as if it were not there.
unfoldable pub shown : List ℕ → ℕ → ℕ → List ℕ
shown code start stop =
    let precision = (stop + 2 ^ 64 - start) % word_mod in
    if ltb precision half_mod then take precision (drop start code) else drop start code

-- "error: %s at line:".
abbrev pub error_text : List ℕ → List ℕ
error_text message =
    101 ∷ 114 ∷ 114 ∷ 111 ∷ 114 ∷ 58 ∷ 32 ∷ message
    ++ (32 ∷ 97 ∷ 116 ∷ 32 ∷ 108 ∷ 105 ∷ 110 ∷ 101 ∷ 58 ∷ [])

-- `code` is the text and `parse` an offset in it.
unfoldable pub error_print : Option (List ℕ) → ℕ → List ℕ → ℕ → List Line
unfolding excerpt shown
error_print none line code parse = []
error_print (some message) line code parse =
    let e = excerpt code parse in
    stderr (text (error_text message) ∷ unsigned line ∷ text (10 ∷ []) ∷ [])
    ∷ stderr (text (shown code e.0 e.1 ++ (10 ∷ [])) ∷ [])
    ∷ stdout (text (replicate (parse - e.0) 32 ++ (94 ∷ 10 ∷ [])) ∷ [])
    ∷ []

-- `tktype_e` as an `int`.
unfoldable pub type_number : TokenType → ℕ
type_number tk_error = 0
type_number tk_literal_num = 1
type_number tk_literal_char = 2
type_number tk_literal_str = 3
type_number tk_auto = 4
type_number tk_ram = 5
type_number tk_addr = 6
type_number tk_ptr = 7
type_number tk_data = 8
type_number tk_name = 9
type_number tk_label = 10

unfoldable pub dump_tokens : List ℕ → List Token → List Piece
unfolding type_number
dump_tokens code [] = text (10 ∷ []) ∷ []
dump_tokens code (t ∷ ts) =
    text (60 ∷ [])
    ∷ signed (type_number t.type)
    ∷ text (124 ∷ take (t.stop - t.start) (drop t.start code) ++ (62 ∷ []))
    ∷ dump_tokens code ts

unfoldable pub dump_lines : List ℕ → ℕ → List (List Token) → List Piece
unfolding dump_tokens
dump_lines code i [] = []
dump_lines code i (ts ∷ lines) =
    padded i ∷ text (124 ∷ []) ∷ dump_tokens code ts ++ dump_lines code (i + 1) lines

unfoldable pub lex_dump : List ℕ → List (List Token) → List Piece
unfolding dump_lines
lex_dump code vcmd =
    text (108 ∷ 101 ∷ 120 ∷ 32 ∷ 100 ∷ 117 ∷ 109 ∷ 112 ∷ 115 ∷ 58 ∷ [])
    ∷ unsigned (length vcmd)
    ∷ text (10 ∷ [])
    ∷ dump_lines code 0 vcmd

-- The commands and their count.
unfoldable pub commands : Compiler → List Command × ℕ
commands c = (c.mc, length c.mc)
