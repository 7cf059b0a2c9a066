-- ===== src/CommandLine/Sources.antt =====
-- The reading of sources in core/main.c: `find_file`, `load_code` and `preprocessing_code`.
pub mod Whole
pub mod Includes
use chip.Prelude.{
  ℕ, zero, suc, ◌+◌, ◌-◌, ◌^◌, ◌%◌, Bool, true, false, not, Option, none, some, List, [], ◌∷◌, ◌++◌,
  length, ltb, leb, ◌==◌, if◌then◌else◌, take, drop,
}
use chip.HashTable.{same}
use chip.HashTable.Calls.{Call, exits, undefined, done, ◌>>=◌}
use chip.Strings.{position}

-- The file system and the C library: whether `stat` succeeds; what a path names, if it can be opened; how many bytes of those left
-- `fread` reads when it is asked for so many; and `malloc` and `realloc`, by the size of the block.
pub record Files : Type 0 where
  pub stat : List ℕ → Bool
  pub fopen : List ℕ → Option (List ℕ)
  pub fread : ℕ → List ℕ → ℕ
  pub malloc : ℕ → Bool
  pub realloc : ℕ → Bool

unfoldable pub file_exists : Files → List ℕ → Bool
file_exists files path = files.stat path

-- The loop of `find_file` over the directories. The name that `str_printf` makes is passed on unchecked.
unfoldable pub find_in : Files → List (List ℕ) → List ℕ → Call (List ℕ)
find_in files [] fname = exits
find_in files (dir ∷ dinc) fname =
    let name = dir ++ (47 ∷ fname) in
    let rest = find_in files dinc fname in
    if not (files.malloc (length name + 1))
    then undefined
    else if file_exists files name
    then done name
    else rest

-- `none` is the result NULL of `str_dup`.
unfoldable pub find_file : Files → List (List ℕ) → List ℕ → Call (Option (List ℕ))
unfolding find_in
find_file files dinc fname =
    if file_exists files fname
    then done (if files.malloc (length fname + 1) then some fname else none)
    else (find_in files dinc fname >>= λ name. done (some name))

abbrev pub chunk : ℕ
chunk = 4096

-- The loop of `load_code`: the block's size, the bytes read and those that are left, with fuel; `undefined` stands
-- also for its end. The last write is that of the 0.
unfoldable pub load_loop : Files → ℕ → ℕ → List ℕ → List ℕ → Call (List ℕ)
load_loop files zero size code rest = undefined
load_loop files (suc fuel) size code rest =
    let asked = (size + 2 ^ 64 - length code - 1) % 2 ^ 64 in
    let nr = files.fread asked rest in
    let code' = code ++ take nr rest in
    let full = leb (size - 1) (length code') in
    let next = load_loop files fuel (if full then size + chunk else size) code' (drop nr rest) in
    if ltb size (length code + nr)
    then undefined
    else if nr == 0
    then (if ltb (length code) size then done code else undefined)
    else if full
    then (if files.realloc (size + chunk) then next else exits)
    else next

-- The text that a found file holds, for enough rounds.
unfoldable pub load_code : Files → ℕ → List (List ℕ) → List ℕ → Call (List ℕ)
unfolding find_file load_loop
load_code files fuel dinc src = find_file files dinc src >>= λ fname. elim fname [
  | none ↦ exits
  | some name ↦ elim (files.fopen name) [
    | none ↦ exits
    | some bytes ↦ if files.malloc chunk then load_loop files fuel chunk [] bytes else exits
  ]
]

-- "#include".
abbrev pub include : List ℕ
include = 35 ∷ 105 ∷ 110 ∷ 99 ∷ 108 ∷ 117 ∷ 100 ∷ 101 ∷ []

-- The body of the loop of `preprocessing_code` at the offset of a `#`. `load` is `load_code` with the directories, and
-- `next` what follows.
unfoldable pub included :
    (List ℕ → Call (List ℕ)) → (List ℕ → Call (List ℕ)) → List ℕ → ℕ → Call (List ℕ)
included load next code prest =
    if not (same (drop prest code) include)
    then exits
    else elim (position (drop (prest + 8) code) 34) [
      | none ↦ exits
      | some quote ↦
          let incfile = prest + 8 + quote + 1 in
          elim (position (drop incfile code) 34) [
            | none ↦ exits
            | some endf ↦ load (take endf (drop incfile code)) >>= λ inscode.
                next (take prest code ++ (inscode ++ drop (incfile + endf + 1) code))
          ]
    ]

unfoldable pub preprocessing_code : (List ℕ → Call (List ℕ)) → ℕ → List ℕ → Call (List ℕ)
preprocessing_code load zero code = undefined
preprocessing_code load (suc fuel) code = elim (position code 35) [
  | none ↦ done code
  | some prest ↦ included load (preprocessing_code load fuel) code prest
]
