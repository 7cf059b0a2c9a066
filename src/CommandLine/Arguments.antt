-- ===== src/CommandLine/Arguments.antt =====
-- The options of `main` in core/main.c.
pub mod Bounds
use chip.Prelude.{
  ℕ, suc, ◌+◌, Bool, true, false, not, Option, none, some, List, [], ◌∷◌, ◌++◌, length, leb,
  if◌then◌else◌,
}
use chip.HashTable.{same}
use chip.HashTable.Calls.{Call, exits, done, ◌>>=◌}
use chip.CommandLine.Paths.{Host, path_resolve}

-- The local variables of `main`: a path is `none` where it is NULL.
pub record Options : Type 0 where
  pub dinclude : List (Option (List ℕ))
  pub src : Option (List ℕ)
  pub out : Option (List ℕ)
  pub verbose : Bool
  pub run : Bool

abbrev pub no_options : Options
no_options = record { dinclude = []; src = none; out = none; verbose = false; run = false }

abbrev pub max_dir_include : ℕ
max_dir_include = 32

-- The tests of the loop on an argument, in their order; any other is `wrong`.
pub data Switch : Type 0 where
  include file output runs verbosely wrong : Switch

unfoldable pub switch_of : List ℕ → Switch
switch_of arg =
    if same arg (45 ∷ 105 ∷ [])
    then include
    else if same arg (45 ∷ 102 ∷ [])
    then file
    else if same arg (45 ∷ 111 ∷ [])
    then output
    else if same arg (45 ∷ 114 ∷ [])
    then runs
    else if same arg (45 ∷ 118 ∷ [])
    then verbosely
    else wrong

abbrev pub is_set : Option (List ℕ) → Bool
is_set none = false
is_set (some path) = true

-- Those with a value, by the value: `exits` is `exit(1)`.
module _ (host : Host) where
  unfoldable pub add_include : List ℕ → Options → Call Options
  add_include value o =
      if leb max_dir_include (length o.dinclude)
      then exits
      else (path_resolve host value >>= λ path.
          done (record o { dinclude = o.dinclude ++ (path ∷ []) }))

  unfoldable pub set_src : List ℕ → Options → Call Options
  set_src value o =
      if is_set o.src
      then exits
      else (path_resolve host value >>= λ path. done (record o { src = path }))

  unfoldable pub set_out : List ℕ → Options → Call Options
  set_out value o =
      if is_set o.out
      then exits
      else (path_resolve host value >>= λ path. done (record o { out = path }))

  -- The loop over the arguments behind the program's name.
  unfoldable pub arguments : List (List ℕ) → Options → Call (Option Options)
  unfolding switch_of add_include set_src set_out
  arguments [] o = done (some o)
  arguments (arg ∷ []) o = elim (switch_of arg) [
    | runs ↦ done (some (record o { run = true }))
    | verbosely ↦ done (some (record o { verbose = true }))
    | wrong ↦ exits
    | include ↦ done none
    | file ↦ done none
    | output ↦ done none
  ]
  arguments (arg ∷ value ∷ args) o = elim (switch_of arg) [
    | include ↦ add_include value o >>= arguments args
    | file ↦ set_src value o >>= arguments args
    | output ↦ set_out value o >>= arguments args
    | runs ↦ arguments (value ∷ args) (record o { run = true })
    | verbosely ↦ arguments (value ∷ args) (record o { verbose = true })
    | wrong ↦ exits
  ]

  -- The output's path, which is resolved a second time; without one the process ends.
  unfoldable pub output_path : Options → Call (Option (List ℕ))
  output_path o = elim o.out [ none ↦ exits | some path ↦ path_resolve host path ]
