-- ===== src/Word/Digits.antt =====
-- The binary digits of a number, and of `|` and `&`.
use Prim.Native.Nat.{min, max, digits, bit_and-bitwise, bit_or-bitwise}
use mathlib.Core.Path.{ap, sym, ◌∙◌}
use native.Mathlib.Nat.{
  pow-suc, pow-succ', le_refl, div-one, add-zero, div-div-eq-div-mul, one-le-pow, div-add-mod',
  mod-lt,
}
use chip.Prelude.{
  ℕ, zero, suc, ◌+◌, ◌-◌, ◌*◌, ◌/◌, ◌%◌, ◌^◌, ◌≤◌, ◌<◌, ◌≡◌, refl, arith, bit_and, bit_or, inl, inr,
  lt-cases,
}
use chip.Word.Bits.{digits-lt}

-- The digit of 2 ^ i.
abbrev pub digit : ℕ → ℕ → ℕ
digit zero a = a % 2
digit (suc i) a = digit i (a / 2)

-- Fuel beyond the number changes nothing.
digits_fuel : (n m a b : ℕ) → a ≤ n → a ≤ m → digits (λ b. b) max n a b ≡ digits (λ b. b) max m a b
digits_fuel zero zero a b h k = refl
digits_fuel zero (suc m) zero b h k = refl
digits_fuel zero (suc m) (suc a) b h k = absurd (omega arith)
digits_fuel (suc n) zero zero b h k = refl
digits_fuel (suc n) zero (suc a) b h k = absurd (omega arith)
digits_fuel (suc n) (suc m) zero b h k = refl
digits_fuel (suc n) (suc m) (suc a) b h k =
    rw (digits_fuel n m (suc a / 2) (b / 2) (omega arith) (omega arith))

bit_or-zero : (b : ℕ) → bit_or 0 b ≡ b
bit_or-zero b = bit_or-bitwise 0 b

bit_or-suc : (a b : ℕ) → bit_or (suc a) b ≡ bit_or (suc a / 2) (b / 2) * 2 + max (suc a % 2) (b % 2)
bit_or-suc a b =
    let whole = bit_or-bitwise (suc a) b in
    let half = bit_or-bitwise (suc a / 2) (b / 2) in
    let fuel = digits_fuel a (suc a / 2) (suc a / 2) (b / 2) (omega arith) (le_refl _) in cc

bit_or-half : (a b : ℕ) → bit_or a b / 2 ≡ bit_or (a / 2) (b / 2)
bit_or-half zero b = rw (bit_or-zero b, bit_or-zero (b / 2)) refl
bit_or-half (suc a) b = omega (arith, bit_or-suc a b)

bit_or-parity : (a b : ℕ) → bit_or a b % 2 ≡ max (a % 2) (b % 2)
bit_or-parity zero b = omega (arith, bit_or-zero b)
bit_or-parity (suc a) b = omega (arith, bit_or-suc a b)

pub digit-bit_or : (i a b : ℕ) → digit i (bit_or a b) ≡ max (digit i a) (digit i b)
digit-bit_or zero a b = bit_or-parity a b
digit-bit_or (suc i) a b = ap (digit i) (bit_or-half a b) ∙ digit-bit_or i (a / 2) (b / 2)

pub digit-lt : (i a : ℕ) → digit i a < 2
digit-lt zero a = omega arith
digit-lt (suc i) a = digit-lt i (a / 2)

pub digit-shift : (i j a : ℕ) → digit i (a / 2 ^ j) ≡ digit (i + j) a
digit-shift i zero a = ap (digit i) (div-one a) ∙ ap (λ j. digit j a) (sym (add-zero i))
digit-shift i (suc j) a =
    let parts : a / 2 ^ suc j ≡ a / 2 / 2 ^ j =
      ap (λ (m : ℕ). a / m) (pow-succ' 2 j) ∙ sym (div-div-eq-div-mul a 2 (2 ^ j)) in
    let count : suc (i + j) ≡ i + suc j = omega arith in
    ap (digit i) parts ∙ digit-shift i j (a / 2) ∙ ap (λ n. digit n a) count

-- The first digit.
pub digit-top : (k a : ℕ) → 2 ^ k ≤ a → a < 2 ^ suc k → digit k a ≡ 1
digit-top zero a h l = omega arith
digit-top (suc k) a h l =
    digit-top k (a / 2) (omega (arith, pow-suc 2 k)) (omega (arith, pow-suc 2 (suc k), pow-suc 2 k))

pub all_ones : (k a : ℕ) → a < 2 ^ k → ((i : ℕ) → i < k → digit i a ≡ 1) → a + 1 ≡ 2 ^ k
all_ones zero a h d = omega arith
all_ones (suc k) a h d =
    let rest = all_ones k (a / 2) (omega (arith, pow-suc 2 k)) (λ i l. d (suc i) (omega arith)) in
    let low : a % 2 ≡ 1 = d 0 (omega arith) in omega (arith, pow-suc 2 k)

mask :
    (k n a q r : ℕ)
    → a ≡ q * 2 ^ k + r
    → r < 2 ^ k
    → a ≤ n
    → digits (λ b. 0) min n a (2 ^ k - 1) ≡ r
mask k zero a q r e l h = omega arith
mask k (suc n) zero q r e l h = omega arith
mask zero (suc n) (suc a) q r e l h =
    let rest = mask 0 n (suc a / 2) (suc a / 2) 0 (omega arith) (omega arith) (omega arith) in
    omega (arith, rest)
mask (suc k) (suc n) (suc a) q r e l h =
    let twice : q * 2 ^ suc k ≡ 2 * (q * 2 ^ k) =
      omega (arith, ap (λ (t : ℕ). q * t) (pow-suc 2 k)) in
    let half : (2 ^ suc k - 1) / 2 ≡ 2 ^ k - 1 = omega (arith, pow-suc 2 k) in
    let rest =
      mask k n (suc a / 2) q (r / 2) (omega (arith, twice)) (omega (arith, pow-suc 2 k))
        (omega arith) in
    rw (half, rest) (omega (arith, pow-suc 2 k, one-le-pow k 2))

pub bit_and-mask : (n k : ℕ) → bit_and n (2 ^ k - 1) ≡ n % 2 ^ k
bit_and-mask n k =
    bit_and-bitwise n (2 ^ k - 1)
    ∙ mask k n n (n / 2 ^ k) (n % 2 ^ k) (sym (div-add-mod' n (2 ^ k)))
        (mod-lt n (one-le-pow k 2 (omega arith))) (le_refl n)

pub bit_or-lt : (k a b : ℕ) → a < 2 ^ k → b < 2 ^ k → bit_or a b < 2 ^ k
bit_or-lt k a b h l =
    rw bit_or-bitwise
      (digits-lt (λ b. b) max (λ b. le_refl b) (λ x y hx hy. omega arith) k a a b h l)

-- The place of the first digit.
pub first_digit :
    (n a : ℕ) → 0 < a → a < 2 ^ n → (k : ℕ) × ((k < n) × (2 ^ k ≤ a) × (a < 2 ^ suc k))
first_digit zero a h l = absurd (omega arith)
first_digit (suc n) a h l = elim (lt-cases a (2 ^ n)) [
  | inl below ↦ let k = first_digit n a h below in (k.0, (omega (arith, k.1.0), k.1.1, k.1.2))
  | inr above ↦ (n, (omega arith, above, l))
]
