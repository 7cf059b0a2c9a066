-- ===== src/Tests/Sources.antt =====
-- A command line, a path and a file of three bytes.
use chip.Prelude.{◌≡◌, refl, arith, true, none, some, [], ◌∷◌, length, min, if◌then◌else◌}
use chip.HashTable.Calls.{exits, done}
use chip.Strings.{occurs}
use chip.CommandLine.Paths.{Host}
use chip.CommandLine.Sources.{Files, file_exists, load_code, preprocessing_code}
use chip.CommandLine.Sources.Whole.{IsReader, load_code-whole}
use chip.CommandLine.Sources.Includes.{preprocessing_code_lem}
use chip.CommandLine.Arguments.{no_options, arguments}
use chip.CommandLine.Arguments.Bounds.{Fits, arguments-Fits}

abbrev host : Host
host = record { getcwd = some (47 ∷ 119 ∷ []); home = none; malloc = λ n. true }

-- `fread` gives what is left, up to what is asked for.
abbrev files : Files
files = record {
  stat = λ name. true;
  fopen = λ name. some (97 ∷ 98 ∷ 99 ∷ []);
  fread = λ n rest. min n (length rest);
  malloc = λ n. true;
  realloc = λ n. true;
}

files-IsReader : IsReader files
files-IsReader = record {
  within = λ n rest. omega arith;
  there = λ n rest. omega arith;
  reads = λ n rest h k. omega arith;
}

load_code-whole_example : load_code files 4 [] (120 ∷ []) ≡ done (97 ∷ 98 ∷ 99 ∷ [])
unfolding file_exists
load_code-whole_example =
    load_code-whole files [] (120 ∷ []) (97 ∷ 98 ∷ 99 ∷ []) 4 files-IsReader (λ n. refl) (λ n. refl)
      refl refl (omega arith) (omega arith)

preprocessing_code_lem_example :
    preprocessing_code (λ name. done []) 1 (97 ∷ 35 ∷ [])
    ≡ (if occurs 35 (97 ∷ 35 ∷ []) then exits else done (97 ∷ 35 ∷ []))
preprocessing_code_lem_example = preprocessing_code_lem (λ name. done []) 0 (97 ∷ 35 ∷ [])

arguments-Fits_example : Fits (arguments host ((45 ∷ 105 ∷ []) ∷ (47 ∷ 97 ∷ []) ∷ []) no_options)
arguments-Fits_example =
    arguments-Fits host ((45 ∷ 105 ∷ []) ∷ (47 ∷ 97 ∷ []) ∷ []) no_options (omega arith)
