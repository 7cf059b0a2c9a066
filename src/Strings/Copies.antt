-- ===== src/Strings/Copies.antt =====
-- `str_cpy` and `str_ncpy` stay in the block that they are given.
use chip.Prelude.{
  ℕ, zero, suc, ◌+◌, ◌-◌, ◌^◌, ◌%◌, ◌<◌, ◌≤◌, ◌≡◌, refl, ap, ◌∙◌, arith, List, [], ◌∷◌, ◌++◌,
  length, length-take, take, drop,
}
use chip.Outcome.{Outcome, done, undefined, ◌>>=◌}
use chip.Strings.{then_write, write_end, ncpy_loop, cpy_loop, str_cpy, str_ncpy, optional}

-- The block with a text and its 0 at its beginning, and the offset of the 0.
abbrev pub with_text : List ℕ → List ℕ → List ℕ × ℕ
with_text t dst = (t ++ (0 ∷ drop (suc (length t)) dst), length t)

write_end-with_text : (dst : List ℕ) → 0 < length dst → write_end dst ≡ done (with_text [] dst)
write_end-with_text [] h = absurd (omega arith)
write_end-with_text (x ∷ dst) h = refl

then_write-with_text :
    (v : ℕ) (t dst : List ℕ) (k : List ℕ → Outcome (List ℕ × ℕ))
    → length (v ∷ t) < length dst
    → ((d : List ℕ) → length t < length d → k d ≡ done (with_text t d))
    → then_write v dst k ≡ done (with_text (v ∷ t) dst)
then_write-with_text v t [] k h rest = absurd (omega arith)
then_write-with_text v t (x ∷ dst) k h rest =
    let e : length t + 1 ≡ suc (length t) = omega arith in
    ap (λ o. o >>= λ r. done (v ∷ r.0, r.1 + 1)) (rest dst (omega arith))
    ∙ ap (λ n. done (v ∷ (t ++ (0 ∷ drop (suc (length t)) dst)), n)) e

cpy_loop-with_text :
    (lend : ℕ) (src dst : List ℕ)
    → length (take lend src) < length dst
    → cpy_loop lend src dst ≡ done (with_text (take lend src) dst)
unfolding cpy_loop
cpy_loop-with_text zero src dst h = write_end-with_text dst (omega arith)
cpy_loop-with_text (suc lend) [] dst h = write_end-with_text dst (omega arith)
cpy_loop-with_text (suc lend) (c ∷ src) dst h =
    then_write-with_text c (take lend src) dst (cpy_loop lend src) h
      (λ d k. cpy_loop-with_text lend src d k)

ncpy_loop-with_text :
    (lens lend : ℕ) (src dst : List ℕ)
    → length (take lend (take lens src)) < length dst
    → ncpy_loop lens lend src dst ≡ done (with_text (take lend (take lens src)) dst)
unfolding ncpy_loop
ncpy_loop-with_text zero zero src dst h = write_end-with_text dst (omega arith)
ncpy_loop-with_text zero (suc lend) src dst h = write_end-with_text dst (omega arith)
ncpy_loop-with_text (suc lens) zero src dst h = write_end-with_text dst (omega arith)
ncpy_loop-with_text (suc lens) (suc lend) [] dst h = write_end-with_text dst (omega arith)
ncpy_loop-with_text (suc lens) (suc lend) (c ∷ src) dst h =
    then_write-with_text c (take lend (take lens src)) dst (ncpy_loop lens lend src) h
      (λ d k. ncpy_loop-with_text lens lend src d k)

-- For a size from 1 to 2 ^ 64 - 1 and a block of at least so many bytes, `str_cpy` leaves at the block's beginning as
-- many bytes of the source as leave room for the 0, and `str_ncpy` of those at most the number asked for; the 0
-- follows, its offset is the result, and the rest of the block is as it was.
pub str_cpy-str_ncpy :
    (dst src : List ℕ) (lend lens : ℕ)
    → 0 < lend
    → lend < 2 ^ 64
    → lend ≤ length dst
    → (str_cpy dst lend src ≡ done (with_text (take (lend - 1) src) dst))
      × (str_ncpy dst lend src lens
          ≡ done (with_text (take (lend - 1) (take (optional lens src) src)) dst))
unfolding str_cpy str_ncpy
str_cpy-str_ncpy dst src lend lens positive small room =
    let less : (lend + (2 ^ 64 - 1)) % 2 ^ 64 ≡ lend - 1 = omega arith in
    (
      ap (λ n. cpy_loop n src dst) less
          ∙ cpy_loop-with_text (lend - 1) src dst (omega (arith, length-take (lend - 1) src)),
      ap (λ n. ncpy_loop (optional lens src) n src dst) less
          ∙ ncpy_loop-with_text (optional lens src) (lend - 1) src dst
              (omega (arith, length-take (lend - 1) (take (optional lens src) src))),
    )

cpy_loop_past :
    (n : ℕ) (src dst : List ℕ)
    → length dst ≤ length src
    → length dst ≤ n
    → cpy_loop n src dst ≡ undefined
unfolding cpy_loop
cpy_loop_past zero src [] h k = refl
cpy_loop_past (suc n) [] [] h k = refl
cpy_loop_past (suc n) (c ∷ src) [] h k = refl
cpy_loop_past zero src (x ∷ dst) h k = absurd (omega arith)
cpy_loop_past (suc n) [] (x ∷ dst) h k = absurd (omega arith)
cpy_loop_past (suc n) (c ∷ src) (x ∷ dst) h k =
    ap (λ o. o >>= λ r. done (c ∷ r.0, r.1 + 1))
      (cpy_loop_past n src dst (omega arith) (omega arith))

ncpy_loop_past :
    (m n : ℕ) (src dst : List ℕ)
    → length dst ≤ length src
    → length dst ≤ m
    → length dst ≤ n
    → ncpy_loop m n src dst ≡ undefined
unfolding ncpy_loop
ncpy_loop_past zero zero src [] h k l = refl
ncpy_loop_past zero (suc n) src [] h k l = refl
ncpy_loop_past (suc m) zero src [] h k l = refl
ncpy_loop_past (suc m) (suc n) [] [] h k l = refl
ncpy_loop_past (suc m) (suc n) (c ∷ src) [] h k l = refl
ncpy_loop_past zero n src (x ∷ dst) h k l = absurd (omega arith)
ncpy_loop_past (suc m) zero src (x ∷ dst) h k l = absurd (omega arith)
ncpy_loop_past (suc m) (suc n) [] (x ∷ dst) h k l = absurd (omega arith)
ncpy_loop_past (suc m) (suc n) (c ∷ src) (x ∷ dst) h k l =
    ap (λ o. o >>= λ r. done (c ∷ r.0, r.1 + 1))
      (ncpy_loop_past m n src dst (omega arith) (omega arith) (omega arith))

-- For the size 0, `str_cpy` and `str_ncpy` with no number of bytes asked for are undefined on every source that is
-- at least as long as the block and shorter than 2 ^ 64: they write behind the block.
pub str_cpy-str_ncpy_zero :
    (dst src : List ℕ)
    → length dst ≤ length src
    → length src < 2 ^ 64
    → (str_cpy dst 0 src ≡ undefined) × (str_ncpy dst 0 src 0 ≡ undefined)
unfolding str_cpy str_ncpy
str_cpy-str_ncpy_zero dst src long small =
    let wrapped : (0 + (2 ^ 64 - 1)) % 2 ^ 64 ≡ 2 ^ 64 - 1 = omega arith in
    (
      ap (λ n. cpy_loop n src dst) wrapped ∙ cpy_loop_past (2 ^ 64 - 1) src dst long (omega arith),
      ap (λ n. ncpy_loop (length src) n src dst) wrapped
          ∙ ncpy_loop_past (length src) (2 ^ 64 - 1) src dst long long (omega arith),
    )
