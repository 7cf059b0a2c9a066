-- ===== src/Hash.antt =====
-- The hash functions of core/hashalg.c. A text is the list of its `len` bytes; `char` is signed.
pub mod Ranges
pub mod Polynomials
use chip.Prelude.{
  ℕ, zero, suc, ◌+◌, ◌-◌, ◌*◌, ◌/◌, ◌%◌, ◌^◌, List, [], ◌∷◌, Bool, true, false, ltb, ◌==◌,
  if◌then◌else◌, length, bit_and, bit_xor,
}
use chip.Word.{word_mod}

-- `char` to `uint32_t`.
abbrev pub char : ℕ → ℕ
char b = if ltb b 128 then b else word_mod - 256 + b

-- The operators of `uint32_t`.
abbrev pub plus : ℕ → ℕ → ℕ
plus a b = (a + b) % word_mod

abbrev pub minus : ℕ → ℕ → ℕ
minus a b = (a + (word_mod - b)) % word_mod

abbrev pub times : ℕ → ℕ → ℕ
times a b = a * b % word_mod

abbrev pub left : ℕ → ℕ → ℕ
left a n = a * 2 ^ n % word_mod

abbrev pub right : ℕ → ℕ → ℕ
right a n = a / 2 ^ n

abbrev pub complement : ℕ → ℕ
complement a = word_mod - 1 - a

-- A loop over the text whose body changes the hash.
unfoldable pub over : (ℕ → ℕ → ℕ) → ℕ → List ℕ → ℕ
over body h [] = h
over body h (x ∷ xs) = over body (body h x) xs

unfoldable pub one_at_a_time_step : ℕ → ℕ → ℕ
one_at_a_time_step h x =
    let h1 = plus h (char x) in let h2 = plus h1 (left h1 10) in bit_xor h2 (right h2 6)

unfoldable pub hash_one_at_a_time : List ℕ → ℕ
unfolding over one_at_a_time_step
hash_one_at_a_time xs =
    let h1 = over one_at_a_time_step 0 xs in
    let h2 = plus h1 (left h1 3) in let h3 = bit_xor h2 (right h2 11) in plus h3 (left h3 15)

-- `g16b`, on a machine that stores the low byte first.
abbrev pub g16b : ℕ → ℕ → ℕ
g16b a b = a + 256 * b

unfoldable pub fasthash_block : ℕ → ℕ → ℕ → ℕ → ℕ → ℕ
fasthash_block h a b c d =
    let h1 = plus h (g16b a b) in
    let tmp = bit_xor (left (g16b c d) 11) h1 in
    let h2 = bit_xor (left h1 16) tmp in plus h2 (right h2 11)

-- The loop over blocks of four bytes, and the `switch` on what is left.
unfoldable pub fasthash_blocks : ℕ → List ℕ → ℕ
unfolding fasthash_block
fasthash_blocks h [] = h
fasthash_blocks h (a ∷ []) =
    let h1 = plus h (char a) in let h2 = bit_xor h1 (left h1 10) in plus h2 (right h2 1)
fasthash_blocks h (a ∷ b ∷ []) =
    let h1 = plus h (g16b a b) in let h2 = bit_xor h1 (left h1 11) in plus h2 (right h2 17)
fasthash_blocks h (a ∷ b ∷ c ∷ []) =
    let h1 = plus h (g16b a b) in
    let h2 = bit_xor h1 (left h1 16) in
    let h3 = bit_xor h2 (left (char c) 18) in plus h3 (right h3 11)
fasthash_blocks h (a ∷ b ∷ c ∷ d ∷ xs) = fasthash_blocks (fasthash_block h a b c d) xs

unfoldable pub hash_fasthash : List ℕ → ℕ
unfolding fasthash_blocks
hash_fasthash xs =
    let h1 = fasthash_blocks (length xs % word_mod) xs in
    let h2 = bit_xor h1 (left h1 3) in
    let h3 = plus h2 (right h2 5) in
    let h4 = bit_xor h3 (left h3 4) in
    let h5 = plus h4 (right h4 17) in let h6 = bit_xor h5 (left h5 25) in plus h6 (right h6 6)

-- `size_t`, and `char` to it.
abbrev pub size_mod : ℕ
size_mod = 2 ^ 64

abbrev pub wide_char : ℕ → ℕ
wide_char b = if ltb b 128 then b else size_mod - 256 + b

-- The loop stops at the terminator, which is not in the list or is a 0 of it.
unfoldable pub kr_loop : ℕ → List ℕ → ℕ
kr_loop h [] = h
kr_loop h (x ∷ xs) =
    let rest = kr_loop ((wide_char x + 31 * h % size_mod) % size_mod) xs in
    if x == 0 then h else rest

unfoldable pub hash_kr : List ℕ → ℕ
unfolding kr_loop
hash_kr xs = kr_loop 0 xs % word_mod

-- With the multiplier `a` of the round.
unfoldable pub sedgewicks_loop : ℕ → ℕ → List ℕ → ℕ
sedgewicks_loop h a [] = h
sedgewicks_loop h a (x ∷ xs) = sedgewicks_loop (plus (times h a) (char x)) (times a 378551) xs

unfoldable pub hash_sedgewicks : List ℕ → ℕ
unfolding sedgewicks_loop
hash_sedgewicks = sedgewicks_loop 0 63689

unfoldable pub sobel_step : ℕ → ℕ → ℕ
sobel_step h x = bit_xor h (plus (plus (left h 5) (char x)) (right h 2))

unfoldable pub hash_sobel : List ℕ → ℕ
unfolding over sobel_step
hash_sobel = over sobel_step 1315423911

-- 0xF0000000.
abbrev pub high_bits : ℕ
high_bits = 4026531840

unfoldable pub weinberger_step : ℕ → ℕ → ℕ
weinberger_step h x =
    let h1 = plus (left h 4) (char x) in
    let test = bit_and h1 high_bits in
    if test == 0 then h1 else bit_and (bit_xor h1 (right test 24)) (complement high_bits)

unfoldable pub hash_weinberger : List ℕ → ℕ
unfolding over weinberger_step
hash_weinberger = over weinberger_step 0

unfoldable pub elf_step : ℕ → ℕ → ℕ
elf_step h y =
    let h1 = plus (left h 4) (char y) in
    let x = bit_and h1 high_bits in
    let h2 = if x == 0 then h1 else bit_xor h1 (right x 24) in bit_and h2 (complement x)

unfoldable pub hash_elf : List ℕ → ℕ
unfolding over elf_step
hash_elf = over elf_step 0

unfoldable pub sdbm_step : ℕ → ℕ → ℕ
sdbm_step h x = minus (plus (plus (char x) (left h 6)) (left h 16)) h

unfoldable pub hash_sdbm : List ℕ → ℕ
unfolding over sdbm_step
hash_sdbm = over sdbm_step 0

unfoldable pub bernstein_step : ℕ → ℕ → ℕ
bernstein_step h x = plus (plus (left h 5) h) (char x)

unfoldable pub hash_bernstein : List ℕ → ℕ
unfolding over bernstein_step
hash_bernstein = over bernstein_step 5381

unfoldable pub knuth_step : ℕ → ℕ → ℕ
knuth_step h x = bit_xor (bit_xor (left h 5) (right h 27)) (char x)

unfoldable pub hash_knuth : List ℕ → ℕ
unfolding over knuth_step
hash_knuth xs = over knuth_step (length xs % word_mod) xs

-- Whether the index is even alternates.
unfoldable pub partow_loop : Bool → ℕ → List ℕ → ℕ
partow_loop even h [] = h
partow_loop true h (x ∷ xs) =
    partow_loop false (bit_xor h (bit_xor (left h 7) (times (char x) (right h 3)))) xs
partow_loop false h (x ∷ xs) =
    partow_loop true (bit_xor h (complement (plus (left h 11) (bit_xor (char x) (right h 5))))) xs

-- From 0xAAAAAAAA.
unfoldable pub hash_partow : List ℕ → ℕ
unfolding partow_loop
hash_partow = partow_loop true 2863311530

-- A multiplication by 0x45d9f3b, twice.
unfoldable pub hash_int : ℕ → ℕ
hash_int x0 =
    let x1 = times (bit_xor (right x0 16) x0) 73244475 in
    let x2 = times (bit_xor (right x1 16) x1) 73244475 in bit_xor (right x2 16) x2

-- On `uint64_t`, with 0xBF58476D1CE4E5B9 and 0x94D049BB133111EB.
unfoldable pub hash64_splitmix : ℕ → ℕ
hash64_splitmix x0 =
    let x1 = bit_xor x0 (right x0 30) * 13787848793156543929 % size_mod in
    let x2 = bit_xor x1 (right x1 27) * 10723151780598845931 % size_mod in bit_xor x2 (right x2 31)
