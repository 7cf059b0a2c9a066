-- ===== src/Word/Signed.antt =====
-- What the arithmetic of Word.antt computes: a result is a word, and it is the exact one.
use chip.Prelude.{ℕ, ◌-◌, ◌≡◌, arith, ltb}
use chip.Prelude.Int.{ℤ, pos, negsuc, ◌+ℤ◌, ◌-ℤ◌, ◌*ℤ◌, ◌≤ℤ◌}
use chip.Outcome.{done, undefined, Post, no_value, Post-if, Post-test}
use chip.Word.{
  IsWord, word_mod, half_mod, signed, of_signed, add, sub, mul, div, mod_word, complement, quot_ℤ,
  rem_ℤ, no_quotient,
}

-- The numbers of an `int32_t`.
abbrev pub Fits : ℤ → Type 0
Fits z = (negsuc (half_mod - 1) ≤ℤ z) × (z ≤ℤ pos (half_mod - 1))

pub of_signed-Fits : (z : ℤ) → Fits z → (w : ℕ) × (of_signed z ≡ done w) × IsWord w × (signed w ≡ z)
unfolding of_signed
of_signed-Fits (pos n) h = (n, ground arith, omega arith, ground arith)
of_signed-Fits (negsuc n) h = (word_mod - n - 1, ground arith, omega arith, ground arith)

pub of_signed-IsWord : (z : ℤ) → Post IsWord (of_signed z)
unfolding of_signed
of_signed-IsWord (pos n) = Post-test (ltb n half_mod) _ (λ t. ground arith)
of_signed-IsWord (negsuc n) = Post-test (ltb n half_mod) _ (λ t. ground arith)

pub signed-Fits : (w : ℕ) → IsWord w → Fits (signed w)
signed-Fits w h = ground arith

pub signed-injective : (a b : ℕ) → IsWord a → IsWord b → signed a ≡ signed b → a ≡ b
signed-injective a b ha hb e = ground arith

-- A result that no `int32_t` holds is undefined.
pub of_signed-undefined : (z : ℤ) → ¬ (Fits z) → of_signed z ≡ undefined
unfolding of_signed
of_signed-undefined (pos n) h = ground arith
of_signed-undefined (negsuc n) h = ground arith

pub add-IsWord : (a b : ℕ) → Post IsWord (add a b)
unfolding add
add-IsWord a b = of_signed-IsWord (signed a +ℤ signed b)

pub sub-IsWord : (a b : ℕ) → Post IsWord (sub a b)
unfolding sub
sub-IsWord a b = of_signed-IsWord (signed a -ℤ signed b)

pub mul-IsWord : (a b : ℕ) → Post IsWord (mul a b)
unfolding mul
mul-IsWord a b = of_signed-IsWord (signed a *ℤ signed b)

pub div-IsWord : (a b : ℕ) → Post IsWord (div a b)
unfolding div
div-IsWord a b =
    Post-if (no_quotient a b) no_value (of_signed-IsWord (quot_ℤ (signed a) (signed b)))

pub mod_word-IsWord : (a b : ℕ) → Post IsWord (mod_word a b)
unfolding mod_word
mod_word-IsWord a b =
    Post-if (no_quotient a b) no_value (of_signed-IsWord (rem_ℤ (signed a) (signed b)))

pub complement-IsWord : (a : ℕ) → IsWord (complement a)
unfolding complement
complement-IsWord a = omega arith

-- `~` of a number is its negative less one, and `~` twice is nothing.
pub signed-complement : (a : ℕ) → IsWord a → signed (complement a) ≡ negsuc 0 -ℤ signed a
unfolding complement ◌-ℤ◌
signed-complement a h = ground arith
