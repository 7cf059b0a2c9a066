-- ===== src/CommandLine/Arguments/Bounds.antt =====
-- The array of directories of `main`.
use chip.Prelude.{
  ℕ, ◌<◌, ◌≤◌, arith, true, Bool-cases, inl, inr, Option, none, some, List, [], ◌∷◌, ◌++◌, length,
  length-append, leb,
}
use chip.HashTable.Calls.{Call, exits, undefined, done, ◌>>=◌}
use chip.CommandLine.Paths.{Host, path_resolve}
use chip.CommandLine.Arguments.{
  Options, Switch, include, file, output, runs, verbosely, wrong, switch_of, add_include, set_src,
  set_out, arguments, is_set, max_dir_include,
}

-- The directories are in the array, if there are options.
abbrev pub InArray : Options → Type 0
InArray o = length o.dinclude ≤ max_dir_include

abbrev pub Fits : Call (Option Options) → Type 0
Fits exits = Unit
Fits undefined = Unit
Fits (done none) = Unit
Fits (done (some o)) = InArray o

abbrev Goes : Call Options → Type 0
Goes exits = Unit
Goes undefined = Unit
Goes (done o) = InArray o

Fits-bind :
    (c : Call Options) (k : Options → Call (Option Options))
    → Goes c
    → ((o : Options) → InArray o → Fits (k o))
    → Fits (c >>= k)
Fits-bind exits k h later = tt
Fits-bind undefined k h later = tt
Fits-bind (done o) k h later = later o h

module _ (host : Host) where
  include-Goes :
      (o : Options) (c : Call (Option (List ℕ)))
      → length o.dinclude < max_dir_include
      → Goes (c >>= λ path. done (record o { dinclude = o.dinclude ++ (path ∷ []) }))
  include-Goes o exits h = tt
  include-Goes o undefined h = tt
  include-Goes o (done path) h = omega (arith, length-append o.dinclude (path ∷ []))

  add_include-Goes : (value : List ℕ) (o : Options) → Goes (add_include host value o)
  unfolding add_include
  add_include-Goes value o = elim (Bool-cases (leb max_dir_include (length o.dinclude))) [
    | inl full ↦ rw full tt
    | inr free ↦ rw free (include-Goes o (path_resolve host value) (ground arith))
  ]

  path-Goes :
      (o : Options) (c : Call (Option (List ℕ))) (f : Option (List ℕ) → Options)
      → ((path : Option (List ℕ)) → InArray (f path))
      → Goes (c >>= λ path. done (f path))
  path-Goes o exits f h = tt
  path-Goes o undefined f h = tt
  path-Goes o (done path) f h = h path

  set_src-Goes : (value : List ℕ) (o : Options) → InArray o → Goes (set_src host value o)
  unfolding set_src
  set_src-Goes value o h = elim (Bool-cases (is_set o.src)) [
    | inl given ↦ rw given tt
    | inr free ↦
        rw free (path-Goes o (path_resolve host value) (λ p. record o { src = p }) (λ p. h))
  ]

  set_out-Goes : (value : List ℕ) (o : Options) → InArray o → Goes (set_out host value o)
  unfolding set_out
  set_out-Goes value o h = elim (Bool-cases (is_set o.out)) [
    | inl given ↦ rw given tt
    | inr free ↦
        rw free (path-Goes o (path_resolve host value) (λ p. record o { out = p }) (λ p. h))
  ]

  one-Fits :
      (s : Switch) (o : Options)
      → InArray o
      → Fits (elim s [
        | runs ↦ done (some (record o { run = true }))
        | verbosely ↦ done (some (record o { verbose = true }))
        | wrong ↦ exits
        | include ↦ done none
        | file ↦ done none
        | output ↦ done none
      ])
  one-Fits include o h = tt
  one-Fits file o h = tt
  one-Fits output o h = tt
  one-Fits runs o h = h
  one-Fits verbosely o h = h
  one-Fits wrong o h = tt

  more-Fits :
      (s : Switch) (value : List ℕ) (args : List (List ℕ)) (o : Options)
      → InArray o
      → ((p : Options) → InArray p → Fits (arguments host args p))
      → ((p : Options) → InArray p → Fits (arguments host (value ∷ args) p))
      → Fits (elim s [
        | include ↦ add_include host value o >>= arguments host args
        | file ↦ set_src host value o >>= arguments host args
        | output ↦ set_out host value o >>= arguments host args
        | runs ↦ arguments host (value ∷ args) (record o { run = true })
        | verbosely ↦ arguments host (value ∷ args) (record o { verbose = true })
        | wrong ↦ exits
      ])
  more-Fits include value args o h rest later = Fits-bind _ _ (add_include-Goes value o) rest
  more-Fits file value args o h rest later = Fits-bind _ _ (set_src-Goes value o h) rest
  more-Fits output value args o h rest later = Fits-bind _ _ (set_out-Goes value o h) rest
  more-Fits runs value args o h rest later = later _ h
  more-Fits verbosely value args o h rest later = later _ h
  more-Fits wrong value args o h rest later = tt

  -- From options with at most 32 directories, the loop of `main` over any arguments, if it gets to options, leaves
  -- at most 32 directories: the array `dinclude` is never written outside.
  pub arguments-Fits :
      (args : List (List ℕ)) (o : Options) → InArray o → Fits (arguments host args o)
  unfolding arguments
  arguments-Fits [] o h = h
  arguments-Fits (arg ∷ []) o h = one-Fits (switch_of arg) o h
  arguments-Fits (arg ∷ value ∷ args) o h =
      more-Fits (switch_of arg) value args o h (arguments-Fits args) (arguments-Fits (value ∷ args))
