-- ===== src/Hash/Polynomials.antt =====
-- Three of the hash functions are polynomials in a fixed base.
use chip.Prelude.{ℕ, false, ◌+◌, ◌*◌, ◌%◌, ◌≡◌, ◌<◌, refl, arith, List, [], ◌∷◌, All, ◌==◌}
use chip.Word.{word_mod}
use chip.Hash.{char, size_mod, wide_char, kr_loop, hash_kr}

-- Horner's scheme, on numbers without bound.
abbrev pub polynomial : ℕ → ℕ → List ℕ → ℕ
polynomial b h [] = h
polynomial b h (x ∷ xs) = polynomial b (h * b + char x) xs

kr_step-mod :
    (h g x : ℕ)
    → x < 256
    → h % word_mod ≡ g % word_mod
    → (wide_char x + 31 * h % size_mod) % size_mod % word_mod ≡ (g * 31 + char x) % word_mod
kr_step-mod h g x k e = ground arith

kr_loop-polynomial :
    (h g : ℕ) (xs : List ℕ)
    → All (λ x. (0 < x) × (x < 256)) xs
    → h % word_mod ≡ g % word_mod
    → kr_loop h xs % word_mod ≡ polynomial 31 g xs % word_mod
unfolding kr_loop
kr_loop-polynomial h g [] a e = e
kr_loop-polynomial h g (x ∷ xs) a e =
    let test : (x == 0) ≡ false = ground arith in
    rw test (
      kr_loop-polynomial ((wide_char x + 31 * h % size_mod) % size_mod) (g * 31 + char x) xs a.1
        (kr_step-mod h g x a.0.1 e))

-- `hash_kr` counts in a `size_t`, and on a text without a 0 its result is the polynomial of the text in 31
-- that starts from 0, modulo 2 ^ 32, all the same.
pub hash_kr-polynomial :
    (xs : List ℕ) → All (λ x. (0 < x) × (x < 256)) xs → hash_kr xs ≡ polynomial 31 0 xs % word_mod
unfolding hash_kr
hash_kr-polynomial xs a = kr_loop-polynomial 0 0 xs a refl
