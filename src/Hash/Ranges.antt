-- ===== src/Hash/Ranges.antt =====
-- The hashes are 32-bit numbers.
use chip.Prelude.{
  ℕ, ◌%◌, ◌<◌, arith, List, [], ◌∷◌, Bool, true, false, length, All, ◌==◌, if◌then◌else◌, bit_and,
  bit_xor,
}
use chip.Word.{word_mod, IsWord}
use chip.Word.Bits.{bit_and-IsWord, bit_xor-IsWord}
use chip.Hash.{
  char, plus, times, left, right, high_bits, over, one_at_a_time_step, fasthash_block,
  fasthash_blocks, sedgewicks_loop, sobel_step, weinberger_step, elf_step, sdbm_step,
  bernstein_step, knuth_step, partow_loop, hash_one_at_a_time, hash_fasthash, hash_kr,
  hash_sedgewicks, hash_sobel, hash_weinberger, hash_elf, hash_sdbm, hash_bernstein, hash_knuth,
  hash_partow, hash_int,
}

-- The bytes of a text.
abbrev pub IsText : List ℕ → Type 0
IsText xs = All (λ x. x < 256) xs

over-IsWord :
    (body : ℕ → ℕ → ℕ)
    → ((h x : ℕ) → IsWord h → x < 256 → IsWord (body h x))
    → (h : ℕ) (xs : List ℕ) → IsWord h
    → IsText xs
    → IsWord (over body h xs)
unfolding over
over-IsWord body k h [] w t = w
over-IsWord body k h (x ∷ xs) w t = over-IsWord body k (body h x) xs (k h x w t.0) t.1

char-IsWord : (x : ℕ) → x < 256 → IsWord (char x)
char-IsWord x h = ground arith

if-IsWord : (b : Bool) (x y : ℕ) → IsWord x → IsWord y → IsWord (if b then x else y)
if-IsWord true x y h k = h
if-IsWord false x y h k = k

-- A right shift of a 32-bit number is one.
plus-right : (a n : ℕ) → IsWord (plus a (right a n))
plus-right a n = omega arith

mix : (a n : ℕ) → IsWord a → IsWord (bit_xor a (left a n))
mix a n h = bit_xor-IsWord a (left a n) h (omega arith)

one_at_a_time_step-IsWord : (h x : ℕ) → IsWord h → x < 256 → IsWord (one_at_a_time_step h x)
unfolding one_at_a_time_step
one_at_a_time_step-IsWord h x w t = bit_xor-IsWord _ _ (omega arith) (omega arith)

sobel_step-IsWord : (h x : ℕ) → IsWord h → x < 256 → IsWord (sobel_step h x)
unfolding sobel_step
sobel_step-IsWord h x w t = bit_xor-IsWord _ _ w (omega arith)

weinberger_step-IsWord : (h x : ℕ) → IsWord h → x < 256 → IsWord (weinberger_step h x)
unfolding weinberger_step
weinberger_step-IsWord h x w t =
    let h1 = plus (left h 4) (char x) in
    let test = bit_and h1 high_bits in
    let in_range : IsWord test = bit_and-IsWord _ _ (omega arith) (omega arith) in
    if-IsWord (test == 0) _ _ (omega arith) (
      bit_and-IsWord _ _ (bit_xor-IsWord _ _ (omega arith) (omega (arith, in_range))) (omega arith))

elf_step-IsWord : (h x : ℕ) → IsWord h → x < 256 → IsWord (elf_step h x)
unfolding elf_step
elf_step-IsWord h y w t =
    let h1 = plus (left h 4) (char y) in
    let x = bit_and h1 high_bits in
    let in_range : IsWord x = bit_and-IsWord _ _ (omega arith) (omega arith) in
    bit_and-IsWord _ _
      (if-IsWord (x == 0) _ _ (omega arith)
        (bit_xor-IsWord _ _ (omega arith) (omega (arith, in_range))))
      (omega arith)

sdbm_step-IsWord : (h x : ℕ) → IsWord h → x < 256 → IsWord (sdbm_step h x)
unfolding sdbm_step
sdbm_step-IsWord h x w t = omega arith

bernstein_step-IsWord : (h x : ℕ) → IsWord h → x < 256 → IsWord (bernstein_step h x)
unfolding bernstein_step
bernstein_step-IsWord h x w t = omega arith

knuth_step-IsWord : (h x : ℕ) → IsWord h → x < 256 → IsWord (knuth_step h x)
unfolding knuth_step
knuth_step-IsWord h x w t =
    bit_xor-IsWord _ _ (bit_xor-IsWord _ _ (omega arith) (omega arith)) (char-IsWord x t)

fasthash_blocks-IsWord :
    (h : ℕ) (xs : List ℕ) → IsWord h → IsText xs → IsWord (fasthash_blocks h xs)
unfolding fasthash_blocks
fasthash_blocks-IsWord h [] w t = w
fasthash_blocks-IsWord h (a ∷ []) w t = omega arith
fasthash_blocks-IsWord h (a ∷ b ∷ []) w t = omega arith
fasthash_blocks-IsWord h (a ∷ b ∷ c ∷ []) w t = omega arith
fasthash_blocks-IsWord h (a ∷ b ∷ c ∷ d ∷ xs) w t =
    fasthash_blocks-IsWord (fasthash_block h a b c d) xs (unfold fasthash_block in omega arith)
      t.1.1.1.1

sedgewicks_loop-IsWord : (h a : ℕ) (xs : List ℕ) → IsWord h → IsWord (sedgewicks_loop h a xs)
unfolding sedgewicks_loop
sedgewicks_loop-IsWord h a [] w = w
sedgewicks_loop-IsWord h a (x ∷ xs) w =
    sedgewicks_loop-IsWord (plus (times h a) (char x)) (times a 378551) xs (omega arith)

partow_loop-IsWord :
    (even : Bool) (h : ℕ) (xs : List ℕ) → IsWord h → IsText xs → IsWord (partow_loop even h xs)
unfolding partow_loop
partow_loop-IsWord even h [] w t = w
partow_loop-IsWord true h (x ∷ xs) w t =
    partow_loop-IsWord false _ xs
      (bit_xor-IsWord _ _ w (bit_xor-IsWord _ _ (omega arith) (omega arith))) t.1
partow_loop-IsWord false h (x ∷ xs) w t =
    partow_loop-IsWord true _ xs (bit_xor-IsWord _ _ w (omega arith)) t.1

hash_kr-IsWord : (xs : List ℕ) → IsWord (hash_kr xs)
unfolding hash_kr
hash_kr-IsWord xs = omega arith

hash_int-IsWord : (x : ℕ) → IsWord (hash_int x)
unfolding hash_int
hash_int-IsWord x = bit_xor-IsWord _ _ (omega arith) (omega arith)

-- Whatever the bytes of a text are, each of the hashes of it is below 2 ^ 32.
pub hashes-IsWord :
    (xs : List ℕ)
    → IsText xs
    → All IsWord (
        hash_one_at_a_time xs
        ∷ hash_fasthash xs
        ∷ hash_kr xs
        ∷ hash_sedgewicks xs
        ∷ hash_sobel xs
        ∷ hash_weinberger xs
        ∷ hash_elf xs
        ∷ hash_sdbm xs
        ∷ hash_bernstein xs
        ∷ hash_knuth xs
        ∷ hash_partow xs
        ∷ [])
unfolding hash_one_at_a_time hash_fasthash hash_sedgewicks hash_sobel hash_weinberger hash_elf
    hash_sdbm hash_bernstein hash_knuth hash_partow
hashes-IsWord xs t = (
  omega arith,
  (
    omega arith,
    (
      hash_kr-IsWord xs,
      (
        sedgewicks_loop-IsWord 0 63689 xs (omega arith),
        (
          over-IsWord sobel_step sobel_step-IsWord 1315423911 xs (omega arith) t,
          (
            over-IsWord weinberger_step weinberger_step-IsWord 0 xs (omega arith) t,
            (
              over-IsWord elf_step elf_step-IsWord 0 xs (omega arith) t,
              (
                over-IsWord sdbm_step sdbm_step-IsWord 0 xs (omega arith) t,
                (
                  over-IsWord bernstein_step bernstein_step-IsWord 5381 xs (omega arith) t,
                  (
                    over-IsWord knuth_step knuth_step-IsWord (length xs % word_mod) xs (omega arith)
                        t,
                    (partow_loop-IsWord true 2863311530 xs (omega arith) t, tt),
                  ),
                ),
              ),
            ),
          ),
        ),
      ),
    ),
  ),
)
