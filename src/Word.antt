-- ===== src/Word.antt =====
-- The C operators that core/chip32.c applies to `int32_t` and `uint32_t`. A 32-bit word is its bit
-- pattern, a number below 2 ^ 32. Signed overflow and shift counts outside 0..31 are undefined, as
-- in C; `<<` and `>>` of a negative number are those that gcc documents.
pub mod Signed
pub mod Divide
pub mod Bits
pub mod Digits
pub mod Shift
use chip.Prelude.{
  ℕ, zero, suc, ◌+◌, ◌-◌, ◌*◌, ◌/◌, ◌%◌, ◌^◌, ◌<◌, Bool, ◌&&◌, ◌||◌, ltb, ◌==◌, leb, if◌then◌else◌,
  bit_and, bit_or, bit_xor,
}
use chip.Prelude.Int.{ℤ, pos, negsuc, ◌+ℤ◌, ◌-ℤ◌, ◌*ℤ◌}
use chip.Outcome.{Outcome, done, undefined}

abbrev pub word_mod : ℕ
word_mod = 2 ^ 32

-- Words from this one on are negative as an `int32_t`.
abbrev pub half_mod : ℕ
half_mod = 2 ^ 31

abbrev pub IsWord : ℕ → Type 0
IsWord w = w < word_mod

-- The `int32_t` of a bit pattern.
abbrev pub signed : ℕ → ℤ
signed w = if ltb w half_mod then pos w else negsuc (word_mod - w - 1)

-- The result of a signed operator: its bit pattern where an `int32_t` holds it.
unfoldable pub of_signed : ℤ → Outcome ℕ
of_signed (pos n) = if ltb n half_mod then done n else undefined
of_signed (negsuc n) = if ltb n half_mod then done (word_mod - n - 1) else undefined

unfoldable pub add : ℕ → ℕ → Outcome ℕ
unfolding of_signed ◌+ℤ◌
add a b = of_signed (signed a +ℤ signed b)

unfoldable pub sub : ℕ → ℕ → Outcome ℕ
unfolding of_signed ◌-ℤ◌
sub a b = of_signed (signed a -ℤ signed b)

unfoldable pub mul : ℕ → ℕ → Outcome ℕ
unfolding of_signed ◌*ℤ◌
mul a b = of_signed (signed a *ℤ signed b)

-- -n.
abbrev pub neg : ℕ → ℤ
neg zero = pos zero
neg (suc n) = negsuc n

-- Division and remainder of C, which round towards zero.
unfoldable pub quot_ℤ : ℤ → ℤ → ℤ
quot_ℤ (pos a) (pos b) = pos (a / b)
quot_ℤ (pos a) (negsuc b) = neg (a / suc b)
quot_ℤ (negsuc a) (pos b) = neg (suc a / b)
quot_ℤ (negsuc a) (negsuc b) = pos (suc a / suc b)

unfoldable pub rem_ℤ : ℤ → ℤ → ℤ
rem_ℤ (pos a) (pos b) = pos (a % b)
rem_ℤ (pos a) (negsuc b) = pos (a % suc b)
rem_ℤ (negsuc a) (pos b) = neg (suc a % b)
rem_ℤ (negsuc a) (negsuc b) = neg (suc a % suc b)

-- A zero divisor, and the quotient 2 ^ 31.
unfoldable pub no_quotient : ℕ → ℕ → Bool
no_quotient a b = b == 0 || a == half_mod && b == word_mod - 1

unfoldable pub div : ℕ → ℕ → Outcome ℕ
unfolding of_signed quot_ℤ no_quotient
div a b = if no_quotient a b then undefined else of_signed (quot_ℤ (signed a) (signed b))

unfoldable pub mod_word : ℕ → ℕ → Outcome ℕ
unfolding of_signed rem_ℤ no_quotient
mod_word a b = if no_quotient a b then undefined else of_signed (rem_ℤ (signed a) (signed b))

-- `~a`.
unfoldable pub complement : ℕ → ℕ
complement a = word_mod - 1 - a

-- `a << k` and `a >> k` of an `int32_t`.
unfoldable pub shl : ℕ → ℕ → Outcome ℕ
shl a k = if ltb k 32 then done (a * 2 ^ k % word_mod) else undefined

unfoldable pub shr : ℕ → ℕ → Outcome ℕ
shr a k =
    if ltb k 32
    then done (if ltb a half_mod then a / 2 ^ k else word_mod - 1 - (word_mod - 1 - a) / 2 ^ k)
    else undefined

-- `v << k` and `v >> k` of a `uint32_t`.
unfoldable pub shl_unsigned : ℕ → ℕ → Outcome ℕ
shl_unsigned v k = if ltb k 32 then done (v * 2 ^ k % word_mod) else undefined

unfoldable pub shr_unsigned : ℕ → ℕ → Outcome ℕ
shr_unsigned v k = if ltb k 32 then done (v / 2 ^ k) else undefined

-- `a - b` of two `uint32_t`.
unfoldable pub sub_unsigned : ℕ → ℕ → ℕ
sub_unsigned a b = (a + word_mod - b) % word_mod
