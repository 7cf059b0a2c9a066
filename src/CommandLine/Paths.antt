-- ===== src/CommandLine/Paths.antt =====
-- The functions `path_` of core/main.c. A path is the list of its bytes before the 0.
pub mod Loop
pub mod Absolute
pub mod Dots
use chip.Prelude.{
  ℕ, zero, suc, ◌+◌, ◌-◌, Bool, true, false, not, ◌&&◌, ◌||◌, Option, none, some, List, [], ◌∷◌,
  ◌++◌, length, ltb, ◌==◌, if◌then◌else◌, get_or, take, drop,
}
use chip.Outcome.{Outcome}
use chip.HashTable.Calls.{Call, exits, undefined, done, ◌>>=◌}
use chip.Strings.{str_equal}

abbrev pub path_max : ℕ
path_max = 4096

-- The system: the working directory, the variable HOME, and whether `malloc` gives a block of so many bytes.
pub record Host : Type 0 where
  pub getcwd : Option (List ℕ)
  pub home : Option (List ℕ)
  pub malloc : ℕ → Bool

-- `getcwd` fails for a path that does not fit.
unfoldable pub path_current : Host → Call (List ℕ)
path_current host = elim host.getcwd [
  | none ↦ exits
  | some path ↦ if ltb (length path) path_max then done path else exits
]

unfoldable pub path_current_new : Host → Call (List ℕ)
path_current_new host = elim host.getcwd [ none ↦ exits | some path ↦ done path ]

-- Without the variable the process ends, whatever `getpwuid` gives.
unfoldable pub path_home : Host → Call (List ℕ)
path_home host = elim host.home [
  | none ↦ exits
  | some path ↦ if ltb (length path) path_max then done path else undefined
]

-- What stands before the last `/`.
unfoldable pub before_slash : List ℕ → Option (List ℕ)
before_slash [] = none
before_slash (x ∷ path) = elim (before_slash path) [
  | none ↦ if x == 47 then some [] else none
  | some front ↦ some (x ∷ front)
]

-- The path without its last byte, if that is `/`.
unfoldable pub without_slash : List ℕ → List ℕ
without_slash path =
    if get_or path (length path - 1) 0 == 47 then take (length path - 1) path else path

unfoldable pub path_kill_back : List ℕ → Call (List ℕ)
unfolding before_slash without_slash
path_kill_back [] = undefined
path_kill_back (x ∷ []) = done (x ∷ [])
path_kill_back (x ∷ y ∷ path) = elim (before_slash (without_slash (x ∷ y ∷ path))) [
  | none ↦ done (without_slash (x ∷ y ∷ path))
  | some front ↦ done front
]

-- `!str_equal(path, lpath, name, n) || !strncmp(path, "name/", n + 1)`, for the name of `n` bytes.
abbrev pub is_under : {A : Type 0} → List ℕ → List ℕ → Bool → (Bool → Call A) → Call A
is_under path name begins k = elim (str_equal path (length path) name (length name)) [
  | Outcome.done alike ↦ k (alike || begins)
  | Outcome.undefined ↦ undefined
  | Outcome.unfinished ↦ undefined
]

abbrev pub byte : List ℕ → ℕ → ℕ
byte path i = get_or path i 0

-- The directory `cur` with the path from its byte `k` on, if more than a `/` follows there.
unfoldable pub joined : ℕ → List ℕ → List ℕ → Call (List ℕ)
joined k path cur =
    if ltb (path_max - 1) (length path + length cur)
    then exits
    else done
        (if not (byte path k == 0) && not (byte path (k + 1) == 0) then cur ++ drop k path else cur)

-- The branches that set `cur`, for a path below `..`, `.` and `~`.
unfoldable pub expand_above : Host → List ℕ → Bool → Call (List ℕ)
unfolding path_current path_kill_back joined
expand_above host path true = path_current host >>= path_kill_back >>= joined 2 path
expand_above host path false = done path

unfoldable pub expand_here : Host → List ℕ → Bool → Call (List ℕ)
unfolding path_current joined expand_above
expand_here host path true = path_current host >>= joined 1 path
expand_here host path false =
    is_under path (46 ∷ 46 ∷ []) (byte path 0 == 46 && (byte path 1 == 46 && byte path 2 == 47))
      (expand_above host path)

unfoldable pub expand_home : Host → List ℕ → Bool → Call (List ℕ)
unfolding path_home joined expand_here
expand_home host path true = path_home host >>= joined 1 path
expand_home host path false =
    is_under path (46 ∷ []) (byte path 0 == 46 && byte path 1 == 47) (expand_here host path)

-- `cur` in front of the loop.
unfoldable pub expanded : Host → List ℕ → Call (List ℕ)
unfolding expand_home
expanded host path =
    is_under path (126 ∷ []) (byte path 0 == 126 && byte path 1 == 47) (expand_home host path)

-- The loop: what is written, and what is left to read.
unfoldable pub resolve_loop : List ℕ → List ℕ → Call (List ℕ)
unfolding path_kill_back
resolve_loop out [] = done out
resolve_loop out (c ∷ []) = done (out ++ (c ∷ []))
resolve_loop out (c ∷ d ∷ parse) = elim (c == 46 && d == 47) [
  | true ↦ resolve_loop out parse
  | false ↦ elim (c == 46 && (d == 46 && (byte parse 0 == 0 || byte parse 0 == 47))) [
    | true ↦ path_kill_back out >>= λ o. resolve_loop o parse
    | false ↦ resolve_loop (out ++ (c ∷ [])) (d ∷ parse)
  ]
]

-- `none` is the result NULL of `str_dup`.
unfoldable pub path_resolve : Host → List ℕ → Call (Option (List ℕ))
unfolding expanded resolve_loop
path_resolve host path =
    if ltb (path_max - 1) (length path)
    then exits
    else (expanded host path >>= resolve_loop [] >>= λ out.
        done (if host.malloc (length out + 1) then some out else none))
