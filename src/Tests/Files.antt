-- ===== src/Tests/Files.antt =====
-- A file as its bytes and those ahead, which the laws of the C library hold of.
use mathlib.Core.Option.{some-injective}
use chip.Prelude.{
  ℕ, ◌+◌, ◌-◌, ◌*◌, ◌/◌, ◌%◌, ◌<◌, ◌≡◌, refl, sym, ap, arith, some, List, [], ◌∷◌, ◌++◌, All,
  length, min, take, drop, replicate,
}
use chip.Word.{IsWord, word_mod}
use chip.Command.{Command, IsCommand}
use chip.Page.{Read, full, short, Stdio, commands_save, page_load, command_size}
use chip.Page.Laws.{IsStdio, Reads}
use chip.Page.RoundTrip.{page_load-commands_save}
use chip.Tests.{nop_cmd, on_cells, on_cells-IsCommand}

abbrev File : Type 0
File = List ℕ × List ℕ

abbrev bytes : ℕ → List ℕ
bytes w = w % 256 ∷ w / 256 % 256 ∷ w / 65536 % 256 ∷ w / 16777216 % 256 ∷ []

abbrev read_byte_of : ℕ → List ℕ → List ℕ → Read ℕ File
read_byte_of old c [] = short old (c, [])
read_byte_of old c (b ∷ r) = full (b % 256) (c, r)

abbrev read_word_of : ℕ → List ℕ → List ℕ → Read ℕ File
read_word_of old c [] = short old (c, [])
read_word_of old c (x ∷ []) = short old (c, [])
read_word_of old c (x ∷ y ∷ []) = short old (c, [])
read_word_of old c (x ∷ y ∷ z ∷ []) = short old (c, [])
read_word_of old c (x ∷ y ∷ z ∷ w ∷ r) =
    full ((x + 256 * y + 65536 * z + 16777216 * w) % word_mod) (c, r)

abbrev stdio : Stdio File
stdio = record {
  write_byte = λ b f. some (f.0 ++ (b ∷ []), []);
  write_word = λ w f. some (f.0 ++ bytes w, []);
  read_byte = λ old f. read_byte_of old f.0 f.1;
  read_word = λ old f. read_word_of old f.0 f.1;
  seek = λ n f. some (f.0, drop n f.0);
}

word_again :
    (w : ℕ)
    → w < word_mod
    → (w % 256
          + 256 * (w / 256 % 256)
          + 65536 * (w / 65536 % 256)
          + 16777216 * (w / 16777216 % 256))
        % word_mod
      ≡ w
word_again w h = omega arith

byte_bound : (old : ℕ) (c a : List ℕ) → old < 256 → Reads (λ v. v < 256) (read_byte_of old c a)
byte_bound old c [] h = h
byte_bound old c (b ∷ r) h = omega arith

IsWord-bound : (old : ℕ) (c a : List ℕ) → IsWord old → Reads IsWord (read_word_of old c a)
IsWord-bound old c [] h = h
IsWord-bound old c (x ∷ []) h = h
IsWord-bound old c (x ∷ y ∷ []) h = h
IsWord-bound old c (x ∷ y ∷ z ∷ []) h = h
IsWord-bound old c (x ∷ y ∷ z ∷ w ∷ r) h = omega arith

stdio-IsStdio : IsStdio stdio bytes (λ f. f.0) (λ f. f.1)
stdio-IsStdio = record {
  length-bytes = λ w. refl;
  byte_written = λ b f g e. ap (λ h. h.0) (sym (some-injective _ _ e));
  word_written = λ w f g e. ap (λ h. h.0) (sym (some-injective _ _ e));
  byte_read =
      λ old b r f h e. let small : b % 256 ≡ b = omega arith in ((f.0, r), rw (e, small), refl);
  no_byte = λ old f e. (old, (f.0, []), rw e);
  word_read = λ old w r f h e. ((f.0, r), rw (e, word_again w h), refl);
  seek_to = λ n f g e. ap (λ h. h.1) (sym (some-injective _ _ e));
  byte_bound = λ old f h. byte_bound old f.0 f.1 h;
  word_bound = λ old f h. IsWord-bound old f.0 f.1 h;
}

abbrev program : List Command
program = on_cells 0 1 ∷ on_cells 1 0 ∷ []

program-IsCommand : All IsCommand program
program-IsCommand = (
  on_cells-IsCommand 0 1 (omega arith) (omega arith),
  (on_cells-IsCommand 1 0 (omega arith) (omega arith), tt),
)

abbrev buffer : List Command
buffer = replicate 4 nop_cmd

nop-IsCommand : IsCommand nop_cmd
nop-IsCommand = record {
  flags_byte = omega arith;
  code_byte = omega arith;
  arg0_word = omega arith;
  arg1_word = omega arith;
}

buffer-IsCommand : All IsCommand buffer
buffer-IsCommand = (nop-IsCommand, (nop-IsCommand, (nop-IsCommand, (nop-IsCommand, tt))))

abbrev saved : File
saved = (5 ∷ 4 ∷ 0 ∷ 0 ∷ 0 ∷ 0 ∷ 1 ∷ 0 ∷ 0 ∷ 0 ∷ 5 ∷ 4 ∷ 1 ∷ 0 ∷ 0 ∷ 0 ∷ 0 ∷ 0 ∷ 0 ∷ 0 ∷ [], [])

page_load-commands_save_example :
    (n : ℕ) × (page' : List Command) × (e : File) × (page_load stdio 1 buffer saved
      ≡ some (n, page', e))
    × (n ≡ min (length buffer) (length program - 1))
    × (take n page' ≡ take n (drop 1 program))
    × All (λ (d : Command). d.code ≡ 0) (drop n page')
page_load-commands_save_example =
    page_load-commands_save stdio bytes (λ f. f.0) (λ f. f.1) stdio-IsStdio program buffer 1
      ([], []) saved saved (saved.0, drop (1 * command_size) saved.0) program-IsCommand refl
      (unfold commands_save in refl) refl refl
