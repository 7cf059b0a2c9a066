-- ===== src/Word/Divide.antt =====
-- Division of Word.antt: quotient and remainder are those of C.
use chip.Prelude.{ℕ, zero, suc, ◌+◌, ◌*◌, ◌/◌, ◌%◌, ◌<◌, ◌≤◌, ◌≡◌, ap, arith, false}
use chip.Prelude.Int.{
  ℤ, pos, negsuc, pos_part, neg_part, ◌+ℤ◌, ◌*ℤ◌, eq_of_parts, +ℤ_parts, *ℤ_parts,
}
use chip.Outcome.{done}
use chip.Word.{IsWord, half_mod, signed, neg, div, mod_word, quot_ℤ, rem_ℤ, no_quotient}
use chip.Word.Signed.{Fits, of_signed-Fits, signed-Fits}

-- The distance of a number from 0.
abbrev pub magnitude : ℤ → ℕ
magnitude z = pos_part z + neg_part z

neg-parts : (n : ℕ) → (pos_part (neg n) ≡ 0) × (neg_part (neg n) ≡ n)
neg-parts n = ground arith

-- The products with a quotient whose sign is given by `neg`.
neg-mul : (n m : ℕ) → (pos_part (neg n) * m ≡ 0) × (neg_part (neg n) * m ≡ n * m)
neg-mul n m =
    (omega (arith, ap (λ (t : ℕ). t * m) (neg-parts n).0), ap (λ (t : ℕ). t * m) (neg-parts n).1)

pub quot-rem : (a b : ℤ) → 0 < magnitude b → a ≡ quot_ℤ a b *ℤ b +ℤ rem_ℤ a b
unfolding quot_ℤ rem_ℤ
quot-rem (pos a) (pos b) h =
    eq_of_parts _ _ (omega (arith, +ℤ_parts, *ℤ_parts (pos (a / b)) (pos b)))
quot-rem (pos a) (negsuc b) h = eq_of_parts _ _ (
    omega (
      arith,
      +ℤ_parts,
      *ℤ_parts (neg (a / suc b)) (negsuc b),
      (neg-mul (a / suc b) (suc b)).0,
      (neg-mul (a / suc b) (suc b)).1,
    ))
quot-rem (negsuc a) (pos b) h = eq_of_parts _ _ (
    omega (
      arith,
      +ℤ_parts,
      *ℤ_parts (neg (suc a / b)) (pos b),
      (neg-mul (suc a / b) b).0,
      (neg-mul (suc a / b) b).1,
      (neg-parts (suc a % b)).0,
      (neg-parts (suc a % b)).1,
    ))
quot-rem (negsuc a) (negsuc b) h = eq_of_parts _ _ (
    omega (
      arith,
      +ℤ_parts,
      *ℤ_parts (pos (suc a / suc b)) (negsuc b),
      (neg-parts (suc a % suc b)).0,
      (neg-parts (suc a % suc b)).1,
    ))

-- A remainder as C defines it: nearer to 0 than the divisor, with the sign of the dividend.
pub record IsRemainder (a b r : ℤ) : Type 0 where
  pub small : magnitude r < magnitude b
  pub not_below : neg_part a ≡ 0 → neg_part r ≡ 0
  pub not_above : pos_part a ≡ 0 → pos_part r ≡ 0

pub rem-IsRemainder : (a b : ℤ) → 0 < magnitude b → IsRemainder a b (rem_ℤ a b)
unfolding rem_ℤ
rem-IsRemainder (pos a) (pos b) h = omega arith
rem-IsRemainder (pos a) (negsuc b) h = omega arith
rem-IsRemainder (negsuc a) (pos b) h = omega (arith, neg-parts)
rem-IsRemainder (negsuc a) (negsuc b) h = omega (arith, neg-parts)

div-le : (n m : ℕ) → n / m ≤ n
div-le n m = grind arith

div-le-half : (n m : ℕ) → 2 ≤ m → n / m + n / m ≤ n
div-le-half n m h = grind arith

-- The quotient 2 ^ 31 is that of the least number by -1.
abbrev IsOverflow : ℤ → ℤ → Type 0
IsOverflow a b = (neg_part a ≡ half_mod) × (neg_part b ≡ 1)

quot-Fits : (a b : ℤ) → Fits a → ¬ (IsOverflow a b) → Fits (quot_ℤ a b)
unfolding quot_ℤ
quot-Fits (pos a) (pos b) h no_over = omega (arith, div-le a b)
quot-Fits (pos a) (negsuc b) h no_over = omega (arith, div-le a (suc b), neg-parts (a / suc b))
quot-Fits (negsuc a) (pos b) h no_over = omega (arith, div-le (suc a) b, neg-parts (suc a / b))
quot-Fits (negsuc a) (negsuc zero) h no_over = ground (arith, div-le (suc a) 1)
quot-Fits (negsuc a) (negsuc (suc b)) h no_over = omega (arith, div-le-half (suc a) (suc (suc b)))

rem-Fits : (a b : ℤ) → 0 < magnitude b → Fits a → Fits b → Fits (rem_ℤ a b)
unfolding rem_ℤ
rem-Fits (pos a) (pos b) pos_b ha hb = omega arith
rem-Fits (pos a) (negsuc b) pos_b ha hb = omega arith
rem-Fits (negsuc a) (pos b) pos_b ha hb = omega (arith, neg-parts)
rem-Fits (negsuc a) (negsuc b) pos_b ha hb = omega (arith, neg-parts)

divides :
    (a b : ℕ)
    → IsWord b
    → no_quotient a b ≡ false
    → (0 < magnitude (signed b)) × (¬ (IsOverflow (signed a) (signed b)))
unfolding no_quotient
divides a b hb e = ground arith

-- `a / b` and `a % b` are defined unless the divisor is 0 or the quotient 2 ^ 31; then the dividend is
-- the quotient times the divisor and the remainder.
pub div-mod_word :
    (a b : ℕ)
    → IsWord a
    → IsWord b
    → no_quotient a b ≡ false
    → (q : ℕ) × (r : ℕ) × (div a b ≡ done q)
      × (mod_word a b ≡ done r)
      × (signed a ≡ signed q *ℤ signed b +ℤ signed r)
      × IsRemainder (signed a) (signed b) (signed r)
unfolding div mod_word
div-mod_word a b ha hb e =
    let (nonzero, no_over) = divides a b hb e in
    let (q, dq, wq, sq) =
      of_signed-Fits (quot_ℤ (signed a) (signed b)) (quot-Fits _ _ (signed-Fits a ha) no_over) in
    let (r, dr, wr, sr) =
      of_signed-Fits (rem_ℤ (signed a) (signed b))
        (rem-Fits _ _ nonzero (signed-Fits a ha) (signed-Fits b hb)) in
    (
      q,
      r,
      rw e dq,
      rw e dr,
      rw (sq, sr) (quot-rem _ _ nonzero),
      rw sr (rem-IsRemainder _ _ nonzero),
    )
