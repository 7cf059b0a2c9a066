-- ===== src/Word/Bits.antt =====
-- The binary operations `|`, `&` and `^` on words: their results are words, and `|` of two fields
-- that do not overlap is a sum.
use Prim.Native.Nat.{min, max, differ, digits, bit_and-bitwise, bit_or-bitwise, bit_xor-bitwise}
use mathlib.Core.Path.{ap}
use native.Mathlib.Nat.{pow-suc, le_refl}
use chip.Prelude.{
  ℕ, zero, suc, ◌+◌, ◌*◌, ◌/◌, ◌%◌, ◌^◌, ◌≤◌, ◌<◌, ◌≡◌, refl, arith, bit_and, bit_or, bit_xor,
}
use chip.Word.{IsWord}

-- The operations on one digit give a digit.
module _ (z : ℕ → ℕ) (f : ℕ → ℕ → ℕ) (keeps : (b : ℕ) → z b ≤ b)
    (digit : (x y : ℕ) → x < 2 → y < 2 → f x y < 2) where
  pub digits-lt : (k n a b : ℕ) → a < 2 ^ k → b < 2 ^ k → digits z f n a b < 2 ^ k
  digits-lt k zero a b ha hb = omega (arith, keeps b)
  digits-lt k (suc n) zero b ha hb = omega (arith, keeps b)
  digits-lt zero (suc n) (suc a) b ha hb = absurd (omega arith)
  digits-lt (suc k) (suc n) (suc a) b ha hb = omega (
    arith,
    pow-suc 2 k,
    digits-lt k n (suc a / 2) (b / 2) (omega (arith, pow-suc 2 k)) (omega (arith, pow-suc 2 k)),
    digit (suc a % 2) (b % 2) (omega arith) (omega arith),
  )

differ-lt : (x y : ℕ) → x < 2 → y < 2 → differ x y < 2
differ-lt zero y hx hy = hy
differ-lt (suc zero) zero hx hy = omega arith
differ-lt (suc zero) (suc y) hx hy = omega arith
differ-lt (suc (suc x)) y hx hy = absurd (omega arith)

pub bit_and-IsWord : (a b : ℕ) → IsWord a → IsWord b → IsWord (bit_and a b)
bit_and-IsWord a b ha hb =
    rw bit_and-bitwise
      (digits-lt (λ _. 0) min (λ b. omega arith) (λ x y hx hy. omega arith) 32 a a b ha hb)

pub bit_or-IsWord : (a b : ℕ) → IsWord a → IsWord b → IsWord (bit_or a b)
bit_or-IsWord a b ha hb =
    rw bit_or-bitwise
      (digits-lt (λ b. b) max (λ b. le_refl b) (λ x y hx hy. omega arith) 32 a a b ha hb)

pub bit_xor-IsWord : (a b : ℕ) → IsWord a → IsWord b → IsWord (bit_xor a b)
bit_xor-IsWord a b ha hb =
    rw bit_xor-bitwise (digits-lt (λ b. b) differ (λ b. le_refl b) differ-lt 32 a a b ha hb)

digits-fields :
    (k n a q r : ℕ) → a ≡ q * 2 ^ k → r < 2 ^ k → a ≤ n → digits (λ b. b) max n a r ≡ a + r
digits-fields k zero a q r e hr hn = omega arith
digits-fields k (suc n) zero q r e hr hn = omega arith
digits-fields zero (suc n) (suc a) q r e hr hn = omega (
  arith,
  digits-fields 0 n (suc a / 2) (suc a / 2) (r / 2) (omega arith) (omega arith) (omega arith),
)
digits-fields (suc k) (suc n) (suc a) q r e hr hn =
    let twice : q * 2 ^ suc k ≡ 2 * (q * 2 ^ k) =
      omega (arith, ap (λ (t : ℕ). q * t) (pow-suc 2 k)) in
    omega (
      arith,
      twice,
      digits-fields k n (suc a / 2) q (r / 2) (omega arith) (omega (arith, pow-suc 2 k))
          (omega arith),
    )

-- `(q << k) | r` is a sum where `r` has at most `k` digits.
pub bit_or-fields : (k q r : ℕ) → r < 2 ^ k → bit_or (q * 2 ^ k) r ≡ q * 2 ^ k + r
bit_or-fields k q r h =
    rw bit_or-bitwise (digits-fields k (q * 2 ^ k) (q * 2 ^ k) q r refl h (le_refl _))
