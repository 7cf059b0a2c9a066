-- ===== src/Word/Shift.antt =====
-- The shifts of Word.antt.
use chip.Prelude.{ℕ, ◌-◌, ◌/◌, ◌^◌, ◌≤◌, arith, ltb}
use chip.Outcome.{Post, Post-test}
use chip.Word.{IsWord, word_mod, shl, shr, shl_unsigned, shr_unsigned, sub_unsigned}

pub shl-IsWord : (a k : ℕ) → Post IsWord (shl a k)
unfolding shl
shl-IsWord a k = Post-test (ltb k 32) _ (λ t. omega arith)

shrunk : (a m : ℕ) → a / m ≤ a
shrunk a m = grind arith

pub shr-IsWord : (a k : ℕ) → IsWord a → Post IsWord (shr a k)
unfolding shr
shr-IsWord a k h =
    Post-test (ltb k 32) _
      (λ t. ground (arith, shrunk a (2 ^ k), shrunk (word_mod - 1 - a) (2 ^ k)))

pub shl_unsigned-IsWord : (a k : ℕ) → Post IsWord (shl_unsigned a k)
unfolding shl_unsigned
shl_unsigned-IsWord a k = Post-test (ltb k 32) _ (λ t. omega arith)

pub shr_unsigned-IsWord : (a k : ℕ) → IsWord a → Post IsWord (shr_unsigned a k)
unfolding shr_unsigned
shr_unsigned-IsWord a k h = Post-test (ltb k 32) _ (λ t. omega (arith, shrunk a (2 ^ k)))

pub sub_unsigned-IsWord : (a b : ℕ) → IsWord (sub_unsigned a b)
unfolding sub_unsigned
sub_unsigned-IsWord a b = omega arith
