-- ===== src/Strings.antt =====
-- The string helpers of core/str.c. A string that is only read is the list of its bytes before the 0; a block that
-- is written is the list of all its bytes, and an access outside a block is undefined.
pub mod Copies
pub mod Swaps
pub mod Quoted
use chip.Prelude.{
  ℕ, zero, suc, ◌+◌, ◌-◌, ◌^◌, ◌%◌, Bool, true, false, not, ◌&&◌, ◌||◌, Option, none, some, List,
  [], ◌∷◌, ◌++◌, length, ltb, leb, ◌==◌, if◌then◌else◌, get_or, take, drop,
}
use chip.Outcome.{Outcome, done, undefined, ◌>>=◌}
use chip.HashTable.{same}

-- `memcpy` of the first `n` bytes of a string with its 0.
unfoldable pub first_bytes : ℕ → List ℕ → Outcome (List ℕ)
first_bytes n src = if leb n (length src + 1) then done (take n (src ++ (0 ∷ []))) else undefined

-- A length of 0 stands for that of the string.
abbrev pub optional : ℕ → List ℕ → ℕ
optional n src = if n == 0 then length src else n

-- `none` is the result NULL, for a block that `malloc` does not give.
unfoldable pub str_dup : (ℕ → Bool) → List ℕ → ℕ → Outcome (Option (List ℕ))
unfolding first_bytes
str_dup malloc src optlen =
    if malloc ((optional optlen src + 1) % 2 ^ 64)
    then (first_bytes (optional optlen src) src >>= λ t. done (some (t ++ (0 ∷ []))))
    else done none

-- The offset that `strchr` finds.
unfoldable pub position : List ℕ → ℕ → Option ℕ
position [] ch = if ch == 0 then some 0 else none
position (x ∷ str) ch =
    if x == ch then some 0 else elim (position str ch) [ none ↦ none | some i ↦ some (i + 1) ]

unfoldable pub str_dup_ch : (ℕ → Bool) → List ℕ → ℕ → Outcome (Option (List ℕ))
unfolding position str_dup
str_dup_ch malloc src ch = elim (position src ch) [
  | none ↦ done none
  | some stop ↦ if stop == 0 then done none else str_dup malloc src stop
]

-- Whether the result is 0: that of `memcmp`, or the difference of two `size_t` as an `int`.
unfoldable pub str_equal : List ℕ → ℕ → List ℕ → ℕ → Outcome Bool
str_equal a lena b lenb =
    let n = optional lena a in
    let m = optional lenb b in
    if n == m
    then (first_bytes n a >>= λ x. first_bytes n b >>= λ y. done (same x y))
    else done ((n + 2 ^ 64 - m) % 2 ^ 32 == 0)

unfoldable pub str_skip_h : List ℕ → List ℕ
str_skip_h [] = []
str_skip_h (x ∷ str) = if x == 32 || x == 9 then str_skip_h str else x ∷ str

unfoldable pub str_skip_hn : List ℕ → List ℕ
str_skip_hn [] = []
str_skip_hn (x ∷ str) = if x == 32 || (x == 9 || x == 10) then str_skip_hn str else x ∷ str

unfoldable pub str_next_line : List ℕ → List ℕ
str_next_line [] = []
str_next_line (x ∷ str) = if x == 10 then str else str_next_line str

-- `*dst = v`, and what follows on the bytes behind it.
abbrev pub then_write : ℕ → List ℕ → (List ℕ → Outcome (List ℕ × ℕ)) → Outcome (List ℕ × ℕ)
then_write v [] k = undefined
then_write v (x ∷ dst) k = k dst >>= λ r. done (v ∷ r.0, r.1 + 1)

-- `*dst = 0`.
abbrev pub write_end : List ℕ → Outcome (List ℕ × ℕ)
write_end [] = undefined
write_end (x ∷ dst) = done (0 ∷ dst, 0)

-- The loop of `str_ncpy`: the block afterwards and the offset of its 0.
unfoldable pub ncpy_loop : ℕ → ℕ → List ℕ → List ℕ → Outcome (List ℕ × ℕ)
ncpy_loop (suc lens) (suc lend) (c ∷ src) dst = then_write c dst (ncpy_loop lens lend src)
ncpy_loop zero lend src dst = write_end dst
ncpy_loop (suc lens) zero src dst = write_end dst
ncpy_loop (suc lens) (suc lend) [] dst = write_end dst

-- `--lend` of a `size_t`.
abbrev pub less_one : ℕ → ℕ
less_one lend = (lend + (2 ^ 64 - 1)) % 2 ^ 64

unfoldable pub str_ncpy : List ℕ → ℕ → List ℕ → ℕ → Outcome (List ℕ × ℕ)
unfolding ncpy_loop
str_ncpy dst lend src lens = ncpy_loop (optional lens src) (less_one lend) src dst

unfoldable pub cpy_loop : ℕ → List ℕ → List ℕ → Outcome (List ℕ × ℕ)
cpy_loop (suc lend) (c ∷ src) dst = then_write c dst (cpy_loop lend src)
cpy_loop zero src dst = write_end dst
cpy_loop (suc lend) [] dst = write_end dst

unfoldable pub str_cpy : List ℕ → ℕ → List ℕ → Outcome (List ℕ × ℕ)
unfolding cpy_loop
str_cpy dst lend src = cpy_loop (less_one lend) src dst

-- The rest of the string from the byte found, or its end.
unfoldable pub str_chr : List ℕ → ℕ → List ℕ
unfolding position
str_chr str ch = elim (position str ch) [ none ↦ [] | some i ↦ drop i str ]

-- `printed` is what the format gives.
unfoldable pub str_vprintf : (ℕ → Bool) → List ℕ → Option (List ℕ)
str_vprintf malloc printed =
    if length printed == 0
    then none
    else if malloc (length printed + 1)
    then some (printed ++ (0 ∷ []))
    else none

unfoldable pub str_printf : (ℕ → Bool) → List ℕ → Option (List ℕ)
unfolding str_vprintf
str_printf malloc printed = str_vprintf malloc printed

-- `strcpy` from a block to another.
unfoldable pub strcpy : List ℕ → List ℕ → Outcome (List ℕ)
strcpy [] src = undefined
strcpy (x ∷ dst) [] = undefined
strcpy (x ∷ dst) (c ∷ src) =
    let rest = strcpy dst src >>= λ d. done (c ∷ d) in if c == 0 then done (0 ∷ dst) else rest

-- Behind the loop, where the first bytes are the first that are not both in a string.
unfoldable pub swap_rest : ℕ → List ℕ → ℕ → List ℕ → Outcome (List ℕ × List ℕ)
swap_rest x a y b =
    if x == y
    then done (x ∷ a, y ∷ b)
    else if x == 0
    then (strcpy (x ∷ a) (y ∷ b) >>= λ d. done (d, 0 ∷ b))
    else (strcpy (y ∷ b) (x ∷ a) >>= λ d. done (0 ∷ a, d))

-- Two blocks that do not overlap.
unfoldable pub str_swap : List ℕ → List ℕ → Outcome (List ℕ × List ℕ)
unfolding swap_rest
str_swap [] b = undefined
str_swap (x ∷ a) [] = undefined
str_swap (x ∷ a) (y ∷ b) =
    let rest = str_swap a b >>= λ r. done (y ∷ r.0, x ∷ r.1) in
    if x == 0 || y == 0 then swap_rest x a y b else rest

-- The string afterwards, and the result: `none` for -1.
unfoldable pub str_chomp : List ℕ → List ℕ × Option ℕ
str_chomp str =
    if ltb 1 (length str) && get_or str (length str - 1) 0 == 10
    then (take (length str - 1) str, some (length str - 1))
    else (str, none)

-- Where `quote_printable_decode` is: at the loop's test, behind a `=`, behind its carriage return, or behind the first
-- of two digits.
pub data Place : Type 0 where
  loop equals return : Place
  digit : ℕ → Place

-- `strtoul a b` is the value of the two bytes as digits to the base 16.
module _ (strtoul : ℕ → ℕ → ℕ) where
  unfoldable pub quoted_loop : Place → List ℕ → Outcome (List ℕ)
  quoted_loop loop [] = done []
  quoted_loop loop (c ∷ str) = elim (c == 61) [
    | true ↦ quoted_loop equals str
    | false ↦ quoted_loop loop str >>= λ t. done (c ∷ t)
  ]
  quoted_loop equals [] = undefined
  quoted_loop equals (c ∷ str) = elim (c == 13) [
    | true ↦ quoted_loop return str
    | false ↦ elim (c == 10) [ true ↦ quoted_loop loop str | false ↦ quoted_loop (digit c) str ]
  ]
  quoted_loop return [] = undefined
  quoted_loop return (c ∷ str) = elim (c == 10) [
    | true ↦ quoted_loop loop str
    | false ↦ quoted_loop (digit c) str
  ]
  quoted_loop (digit a) [] = undefined
  quoted_loop (digit a) (b ∷ str) = quoted_loop loop str >>= λ t. done (strtoul a b % 256 ∷ t)

  -- The bytes before the 0 and their number.
  unfoldable pub quote_printable_decode : (ℕ → Bool) → List ℕ → Outcome (Option (List ℕ × ℕ))
  unfolding quoted_loop
  quote_printable_decode malloc str =
      if malloc (length str + 1)
      then (quoted_loop loop str >>= λ t.
          if leb (length t) (length str) then done (some (t, length t)) else undefined)
      else done none

-- The loop over the bytes up to the 0; a result 0 ends it too. `toupper` is called with the `char` as an `unsigned`,
-- which is outside its domain for a byte from 128 on.
unfoldable pub upper_loop : (ℕ → ℕ) → List ℕ → Outcome (List ℕ)
upper_loop toupper [] = done []
upper_loop toupper (c ∷ src) =
    let rest = upper_loop toupper src >>= λ t. done (toupper c ∷ t) in
    if not (ltb c 128) then undefined else if toupper c == 0 then done [] else rest

unfoldable pub str_toupper : (ℕ → ℕ) → List ℕ → Outcome (List ℕ)
unfolding upper_loop
str_toupper toupper src = upper_loop toupper src

-- It calls `toupper` too.
unfoldable pub str_tolower : (ℕ → ℕ) → List ℕ → Outcome (List ℕ)
unfolding upper_loop
str_tolower toupper src = upper_loop toupper src

abbrev pub occurs : ℕ → List ℕ → Bool
occurs c [] = false
occurs c (x ∷ find) = c == x || occurs c find

-- Each byte that `strpbrk` finds is replaced.
unfoldable pub str_tr : List ℕ → List ℕ → ℕ → List ℕ
str_tr [] find replace = []
str_tr (c ∷ str) find replace = (if occurs c find then replace else c) ∷ str_tr str find replace
