-- ===== src/Tests.antt =====
-- A machine and chips to try the theorems on.
mod Machine
mod Arithmetic
mod Control
mod Printing
mod Files
mod Texts
mod Tables
mod Commands
mod Symbols
mod Strings
mod Sources
use mathlib.Core.Option.{some-injective}
use mathlib.Core.Path.{subst}
use chip.Prelude.{
  ℕ, zero, suc, ◌<◌, ◌≤◌, ◌≡◌, refl, ap, sym, arith, Bool, true, none, some, List, [], ◌∷◌, inl,
  inr, length, replicate, set, All, All-set,
}
use chip.Word.{IsWord}
use chip.Command.{Command, IsCommand}
use chip.Chip.State.{Chip, Platform}
use chip.Chip.Valid.Defs.{IsValid, IsSound}

abbrev pub nop_cmd : Command
nop_cmd = record { flags = 0; code = 0; arg0 = 0; arg1 = 0 }

-- Memory is zeroed, the file holds `nop` commands only, and allocation never fails.
abbrev pub machine : Platform
machine = record {
  alloc = λ n. some (replicate n 0);
  alloc_page = λ n. some (replicate n nop_cmd);
  load = λ a page. some (length page, page);
  junk = nop_cmd;
  value_first = true;
}

-- The ram of 40 words, with the two first words given and the stack empty.
abbrev pub words : ℕ → ℕ → List ℕ
words a b = set (set (set (set (set (replicate 40 0) 0 a) 1 b) 32 5) 33 39) 34 39

abbrev pub chip_of : ℕ → ℕ → Chip
chip_of a b = record {
  ram = some (words a b);
  ramsize = 40;
  page = replicate 4 nop_cmd;
  page_current = 0;
  page_size = 4;
  state = 0;
  output = [];
}

-- With both arguments ram cells.
abbrev pub on_cells : ℕ → ℕ → Command
on_cells a b = record { flags = 5; code = 4; arg0 = a; arg1 = b }

pub nop-IsCommand : IsCommand nop_cmd
nop-IsCommand = record {
  flags_byte = omega arith;
  code_byte = omega arith;
  arg0_word = omega arith;
  arg1_word = omega arith;
}

pub on_cells-IsCommand : (a b : ℕ) → IsWord a → IsWord b → IsCommand (on_cells a b)
on_cells-IsCommand a b h k = record {
  flags_byte = omega arith;
  code_byte = omega arith;
  arg0_word = h;
  arg1_word = k;
}

length-replicate : {A : Type 0} (n : ℕ) (a : A) → length (replicate n a) ≡ n
length-replicate zero a = refl
length-replicate (suc n) a = ap suc (length-replicate n a)

All-replicate : {A : Type 0} (P : A → Type 0) (n : ℕ) (a : A) → P a → All P (replicate n a)
All-replicate P zero a h = tt
All-replicate P (suc n) a h = (h, All-replicate P n a h)

pub machine-IsSound : IsSound machine
machine-IsSound = record {
  alloc_block = λ n m e.
      subst (λ l. (length l ≡ n) × All IsWord l) (some-injective _ _ e)
        (length-replicate n 0, All-replicate IsWord n 0 (omega arith));
  alloc_commands = λ n m e.
      subst (λ l. (length l ≡ n) × All IsCommand l) (some-injective _ _ e)
        (length-replicate n nop_cmd, All-replicate IsCommand n nop_cmd nop-IsCommand);
  load_commands = λ a b n b' h e.
      subst
        (λ (r : ℕ × List Command). (length r.1 ≡ length b) × (r.0 ≤ length b) × All IsCommand r.1)
        (some-injective _ _ e) (refl, omega arith, h);
  junk_command = nop-IsCommand;
}

-- The registers of a ram that holds words.
words-IsWord : (a b : ℕ) → IsWord a → IsWord b → All IsWord (words a b)
words-IsWord a b h k =
    let none_set : All IsWord (replicate 40 0) = All-replicate IsWord 40 0 (omega arith) in
    let first : All IsWord (set (replicate 40 0) 0 a) =
      All-set IsWord (replicate 40 0) 0 none_set h in
    let second : All IsWord (set (set (replicate 40 0) 0 a) 1 b) =
      All-set IsWord (set (replicate 40 0) 0 a) 1 first k in
    let pc = All-set IsWord (set (set (replicate 40 0) 0 a) 1 b) 32 {v = 5} second (omega arith) in
    let stk =
      All-set IsWord (set (set (set (replicate 40 0) 0 a) 1 b) 32 5) 33 {v = 39} pc (omega arith) in
    All-set IsWord (set (set (set (set (replicate 40 0) 0 a) 1 b) 32 5) 33 39) 34 {v = 39} stk
      (omega arith)

pub chip_of-IsValid : (a b : ℕ) → IsWord a → IsWord b → IsValid (chip_of a b)
chip_of-IsValid a b h k = record {
  ram_block = (refl, words-IsWord a b h k);
  page_length = refl;
  page_commands = All-replicate IsCommand 4 nop_cmd nop-IsCommand;
  state_known = inl refl;
}
