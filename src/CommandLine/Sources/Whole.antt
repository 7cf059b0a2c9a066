-- ===== src/CommandLine/Sources/Whole.antt =====
-- `load_code` reads the whole of a file.
use mathlib.Core.List.{append-nil, append_assoc}
use chip.Prelude.{
  ℕ, zero, suc, ◌+◌, ◌-◌, ◌^◌, ◌%◌, ◌<◌, ◌≤◌, ◌≡◌, ◌≢◌, refl, ap, ◌∙◌, sym, arith, true, false,
  eq-cases, lt-cases, Bool-cases, inl, inr, some, List, [], ◌∷◌, ◌++◌, length, length-append,
  length-take, length-drop, take-append-drop, take, drop, leb, ltb, ltb-false, lt→ltb, ◌==◌,
  if◌then◌else◌,
}
use chip.HashTable.Calls.{done}
use chip.CommandLine.Sources.{Files, load_loop, load_code, find_file, file_exists, chunk}

-- What `fread` does: it reads no more than it is asked for and than is left, and something where both are not 0.
pub record IsReader (files : Files) : Type 0 where
  pub within : (n : ℕ) (rest : List ℕ) → files.fread n rest ≤ n
  pub there : (n : ℕ) (rest : List ℕ) → files.fread n rest ≤ length rest
  pub reads : (n : ℕ) (rest : List ℕ) → 0 < n → 0 < length rest → 0 < files.fread n rest

-- The block after a round that leaves `n` bytes in it.
next_size :
    (size n size' : ℕ)
    → size' ≡ (if leb (size - 1) n then size + chunk else size)
    → n + 1 ≤ size
    → size ≤ n + chunk + 1
    → (n + 1 < size') × (size' ≤ n + chunk + 1)
next_size size n size' e h k = ground arith

module _ (files : Files) (reader : IsReader files) (grows : (n : ℕ) → files.realloc n ≡ true) where
  -- A round that reads `nr` bytes, which are not none, when the later rounds do what they should.
  load_loop-step :
      (fuel size : ℕ) (code rest : List ℕ) (nr : ℕ)
      → nr ≡ files.fread ((size + 2 ^ 64 - length code - 1) % 2 ^ 64) rest
      → nr ≢ 0
      → length code + nr ≤ size
      → ((size' : ℕ)
          → size' ≡ (if leb (size - 1) (length (code ++ take nr rest)) then size + chunk else size)
          → load_loop files fuel size' (code ++ take nr rest) (drop nr rest) ≡ done (code ++ rest))
      → load_loop files (suc fuel) size code rest ≡ done (code ++ rest)
  unfolding load_loop
  load_loop-step fuel size code rest nr e positive fits later =
      let some_read : (files.fread ((size + 2 ^ 64 - length code - 1) % 2 ^ 64) rest == 0) ≡ false =
        ground arith in
      let inside : ltb size
            (length code + files.fread ((size + 2 ^ 64 - length code - 1) % 2 ^ 64) rest)
          ≡ false =
        ltb-false _ _ (omega arith) in
      elim (Bool-cases (leb (size - 1) (length (code ++ take nr rest)))) [
        | inl full ↦
            rw (inside, some_read, sym e, full, grows (size + chunk))
              (later (size + chunk) (rw full refl))
        | inr more ↦ rw (inside, some_read, sym e, more) (later size (rw more refl))
      ]

  load_loop-end :
      (fuel size : ℕ) (code rest : List ℕ)
      → files.fread ((size + 2 ^ 64 - length code - 1) % 2 ^ 64) rest ≡ 0
      → length rest ≡ 0
      → length code < size
      → load_loop files (suc fuel) size code rest ≡ done (code ++ rest)
  unfolding load_loop
  load_loop-end fuel size code [] e h k =
      let room : ltb size (length code + 0) ≡ false = ltb-false _ _ (omega arith) in
      rw (e, room, lt→ltb _ _ k, append-nil) refl
  load_loop-end fuel size code (x ∷ rest) e h k = absurd (omega arith)

  load_loop-whole :
      (fuel size : ℕ) (code rest : List ℕ)
      → length rest < fuel
      → length code + 1 < size
      → size ≤ length code + chunk + 1
      → length code + length rest + chunk + 1 < 2 ^ 64
      → load_loop files fuel size code rest ≡ done (code ++ rest)
  load_loop-whole zero size code rest h k l s = absurd (omega arith)
  load_loop-whole (suc fuel) size code rest h k l s =
      let asked = (size + 2 ^ 64 - length code - 1) % 2 ^ 64 in
      let nr = files.fread asked rest in
      let positive : 0 < asked = omega arith in
      let within = reader.within asked rest in
      let there = reader.there asked rest in
      let reads = reader.reads asked rest positive in
      elim (eq-cases nr 0) [
        | inl e ↦ elim (lt-cases 0 (length rest)) [
          | inl more ↦ absurd (omega (arith, reads more))
          | inr none_left ↦ load_loop-end fuel size code rest e (omega arith) (omega arith)
        ]
        | inr n ↦ load_loop-step fuel size code rest nr refl n (omega arith) (λ size' e.
            let now : length (code ++ take nr rest) ≡ length code + nr =
              omega (arith, length-append code (take nr rest), length-take nr rest) in
            let left : length (drop nr rest) ≡ length rest - nr = length-drop nr rest in
            let size =
              next_size size (length (code ++ take nr rest)) size' e (omega arith) (omega arith) in
            load_loop-whole fuel size' (code ++ take nr rest) (drop nr rest) (omega arith) size.0
              size.1 (omega arith)
            ∙ ap done (
                append_assoc code (take nr rest) (drop nr rest)
                ∙ ap (λ l. code ++ l) (take-append-drop nr rest)))
      ]

-- Where memory is given and `fread` reads what is there, `load_code` of a name that exists and can be opened ends
-- with all bytes of the file, whatever the portions are in which `fread` gives them; one round more than the file has
-- bytes is enough.
pub load_code-whole :
    (files : Files) (dinc : List (List ℕ)) (src bytes : List ℕ) (fuel : ℕ)
    → IsReader files
    → ((n : ℕ) → files.malloc n ≡ true)
    → ((n : ℕ) → files.realloc n ≡ true)
    → file_exists files src ≡ true
    → files.fopen src ≡ some bytes
    → length bytes < fuel
    → length bytes < 2 ^ 63
    → load_code files fuel dinc src ≡ done bytes
unfolding load_code find_file
load_code-whole files dinc src bytes fuel reader enough grows here opened rounds small =
    rw (here, enough (length src + 1), opened, enough chunk)
      (load_loop-whole files reader grows fuel chunk [] bytes rounds (omega arith) (omega arith)
        (omega arith))
