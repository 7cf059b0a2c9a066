-- ===== src/HashTable/Sizes.antt =====
-- The sizes of a table are powers of two: ROUND_UP_POW_TWO32 gives them, and the slot of a hash is its remainder.
use mathlib.Core.Path.{sym, subst}
use native.Mathlib.Nat.{pow-suc, mod-lt, mod-eq_of_lt, one-le-pow, pow-le-pow_right, div-le_self}
use chip.Prelude.{
  ℕ, zero, suc, ◌+◌, ◌-◌, ◌*◌, ◌/◌, ◌%◌, ◌^◌, ◌≤◌, ◌<◌, ◌≡◌, inl, inr, refl, arith, lt-cases,
}
use chip.Word.{word_mod}
use chip.Word.Digits.{
  digit, digit-bit_or, digit-lt, digit-shift, digit-top, all_ones, bit_or-lt, first_digit,
  bit_and-mask,
}
use chip.Hash.{size_mod}
use chip.HashTable.{fast_mod_pow_two, slot_of, slot_next}
use chip.HashTable.Grow.{smear, round_up_pow_two}

-- The first `j` of the `k` digits of `r` are ones.
abbrev Ones : ℕ → ℕ → ℕ → Type 0
Ones k j r = (r < 2 ^ k) × ((i : ℕ) → i < k → k ≤ i + j → digit i r ≡ 1)

smear-Ones : (k j r : ℕ) → Ones k j r → Ones k (j + j) (smear j r)
smear-Ones k j r (small, ones) = (
  bit_or-lt k r (r / 2 ^ j) small (omega (arith, div-le_self r (2 ^ j))),
  λ i h l.
      let both = digit-bit_or i r (r / 2 ^ j) in
      let shifted = digit-shift i j r in
      let low = digit-lt i r in
      let high = digit-lt (i + j) r in
      elim (lt-cases (i + j) k) [
        | inr near ↦ omega (arith, both, shifted, ones i h near)
        | inl far ↦ omega (arith, both, shifted, ones (i + j) far (omega arith))
      ],
)

smears : (k r : ℕ) → Ones k 1 r → Ones k 32 (smear 16 (smear 8 (smear 4 (smear 2 (smear 1 r)))))
smears k r h =
    smear-Ones k 16 _ (smear-Ones k 8 _ (smear-Ones k 4 _ (smear-Ones k 2 _ (smear-Ones k 1 r h))))

-- What it gives is the least power of two that is not below a number of 1 to 2 ^ 31.
pub round_up_pow_two-least :
    (n : ℕ)
    → 0 < n
    → n ≤ 2 ^ 31
    → (k : ℕ) × ((k ≤ 31) × (round_up_pow_two n ≡ 2 ^ k) × (n ≤ 2 ^ k) × (2 ^ k < 2 * n))
unfolding round_up_pow_two
round_up_pow_two-least zero h l = absurd (omega arith)
round_up_pow_two-least (suc zero) h l = (0, (omega arith, refl, omega arith, omega arith))
round_up_pow_two-least (suc (suc r)) h l =
    let top = first_digit 31 (suc r) (omega arith) (omega arith) in
    let k = top.0 in
    let start : (suc (suc r) % word_mod + (word_mod - 1)) % word_mod ≡ suc r = omega arith in
    let first : Ones (suc k) 1 (suc r) = (
      top.1.2,
      λ i h l.
          let last : k ≡ i = omega arith in
          subst (λ j. digit j (suc r) ≡ 1) last (digit-top k (suc r) top.1.1 top.1.2),
    ) in
    let s = smears (suc k) (suc r) first in
    let full = all_ones (suc k) _ s.0 (λ i h. s.1 i h (omega (arith, top.1.0))) in
    let bound =
      pow-le-pow_right {n = 2} (omega arith) {i = suc k} {j = 31} (omega (arith, top.1.0)) in
    let value : round_up_pow_two (suc (suc r)) ≡ 2 ^ suc k =
      rw (start, full) (mod-eq_of_lt (omega (arith, bound))) in
    (
      suc k,
      (omega (arith, top.1.0), value, omega (arith, top.1.2), omega (arith, top.1.1, pow-suc 2 k)),
    )

-- A power of two that an `unsigned int` holds.
abbrev pub IsSize : ℕ → Type 0
IsSize m = (k : ℕ) × ((k ≤ 31) × (m ≡ 2 ^ k))

pub IsSize-bounds : (m : ℕ) → IsSize m → (0 < m) × (m ≤ 2 ^ 31)
IsSize-bounds m (k, (h, e)) = (
  omega (arith, one-le-pow k 2 (omega arith)),
  omega (arith, pow-le-pow_right {n = 2} (omega arith) {i = k} {j = 31} h),
)

pub slot_of-mod : (n m : ℕ) → IsSize m → slot_of n m ≡ n % m
unfolding slot_of fast_mod_pow_two
slot_of-mod n m (k, (h, e)) =
    let bounds = IsSize-bounds m (k, (h, e)) in
    let minus : (m + (size_mod - 1)) % size_mod ≡ 2 ^ k - 1 = omega (arith, bounds.0, bounds.1) in
    let small : n % m < m = mod-lt n bounds.0 in
    rw (minus, bit_and-mask n k, sym e) (mod-eq_of_lt (omega (arith, small, bounds.1)))

pub slot_next-mod : (s m : ℕ) → IsSize m → s < m → slot_next s m ≡ (s + 1) % m
unfolding slot_next
slot_next-mod s m h l =
    let bounds = IsSize-bounds m h in
    let small : (s + 1) % word_mod ≡ s + 1 = mod-eq_of_lt (omega (arith, bounds.1)) in
    rw small (slot_of-mod (s + 1) m h)
