-- ===== src/Tests/Commands.antt =====
-- The compiler as `chip32_compiler_new` makes it, and the commands that it knows, as the dump shows them.
use mathlib.Core.Path.{subst}
use chip.Prelude.{
  ℕ, ◌≤◌, ◌<◌, ◌≡◌, refl, arith, List, [], ◌∷◌, true, Option, none, some, length, replicate,
}
use chip.Command.{Command}
use chip.HashTable.{Element, find}
use chip.HashTable.Calls.{Ends, done}
use chip.HashTable.Grow.{Memory}
use chip.HashTable.Resize.{IsWide}
use chip.HashTable.Mapping.{IsMap}
use chip.HashTable.Fresh.{Empty}
use chip.Lexer.{Token, tk_name}
use chip.Parser.{Symbols, Library, Parser, Declared}
use chip.Parser.Commands.{Action, actions}
use chip.Parser.Naming.{named}
use chip.Compiler.{Compiler, Blocks, compiler_new}
use chip.Compiler.Creation.{compiler_new-named}

module _ (D : Type 0) where
  abbrev garbage : Element D
  garbage = record { data_of = none; hash = 3; len = 7; distance = 5; key = replicate 76 255 }

  abbrev memory : Memory D
  memory = record { elements = λ n. some (λ i. garbage); element = some garbage }

  abbrev Wide : Option (ℕ → Element D) → Type 0
  Wide none = Unit
  Wide (some f) = (i : ℕ) → 76 ≤ length (f i).key

  abbrev WideOne : Option (Element D) → Type 0
  WideOne none = Unit
  WideOne (some e) = 76 ≤ length e.key

  memory-IsWide : IsWide 76 memory
  memory-IsWide = record {
    elements-wide = λ n f e. subst Wide e (λ i. omega arith);
    element-wide = λ m e. subst WideOne e (omega arith);
  }

abbrev blocks : Blocks
blocks = record { object = true; vcmd = true; mc = true }

compiler_new-named_example :
    Ends
      (λ o.
        (c : Compiler) × (o ≡ some c)
        × (c.vcmd ≡ [])
        × (c.mc ≡ [])
        × (c.code ≡ none)
        × (c.error ≡ none)
        × (c.line ≡ 1)
        × (c.avaddr ≡ 35)
        × IsMap c.actions
        × ((k : List ℕ) → 0 < length k → find c.actions k ≡ done (named actions k none))
        × Empty 4096 c.declare)
      (compiler_new blocks (memory Action) (memory Declared) 0)
compiler_new-named_example =
    compiler_new-named blocks (memory Action) (memory Declared) 0 (garbage Action)
      (λ i. garbage Action) (λ i. garbage Declared) refl refl refl refl refl refl
      (memory-IsWide Action) (memory-IsWide Declared)

abbrev symbols : Symbols ℕ
symbols = record { find = λ n s. none; add_unique = λ n d s. none }

abbrev library : Library
library = record { strtoul = λ n. n; realloc = λ n. true; new_declared = true }

abbrev parser : Parser ℕ
parser = record {
  cmdcount = 1;
  mc = [];
  mcsize = 8;
  avaddr = 35;
  code = 110 ∷ 111 ∷ 112 ∷ [];
  declare = 0;
  line = 1;
  parse = 0;
  error = none;
}

abbrev line_of_nop : List Token
line_of_nop = record { line = 1; type = tk_name; start = 0; stop = 3 } ∷ []
