-- ===== src/Base64/Digits.antt =====
-- The digits of core/str.c's base64: the tables are inverse, and the bytes of a group are made of its digits.
use chip.Prelude.{
  ℕ, zero, suc, ◌+◌, ◌-◌, ◌*◌, ◌/◌, ◌%◌, ◌^◌, ◌<◌, ◌≡◌, ◌≢◌, refl, ap, ◌∙◌, arith, Bool, true,
  false, ◌&&◌, not, Option, none, some, get_elem?, ltb, ◌==◌, bit_and, bit_or, &&_iff, ==_iff,
  if◌then◌else◌,
}
use chip.Outcome.{Outcome, undefined}
use chip.Word.Bits.{bit_or-fields}
use chip.Word.Digits.{bit_and-mask}
use chip.Base64.{et, dt, base64dt, first_byte, second_byte, third_byte}

abbrev holds : Option ℕ → ℕ → Bool
holds none i = false
holds (some v) i = v == i

-- Of a digit: its character is no `=`, and leads back to it.
abbrev is_inverse : ℕ → Bool
is_inverse i = not (ltb (et i) 43) && (not (et i == 61) && holds (get_elem? base64dt (et i - 43)) i)

abbrev all_inverse : ℕ → Bool
all_inverse zero = true
all_inverse (suc n) = is_inverse n && all_inverse n

table_inverse : all_inverse 64 ≡ true
unfolding et
table_inverse = refl

inverse_below : (n i : ℕ) → all_inverse n ≡ true → i < n → is_inverse i ≡ true
inverse_below zero i e h = absurd (omega arith)
inverse_below (suc n) i e h =
    let t = (&&_iff (is_inverse n) (all_inverse n)).0 e in
    ground (arith, t.0, inverse_below n i t.1)

holds_lem : (o : Option ℕ) (i : ℕ) → holds o i ≡ true → o ≡ some i
holds_lem none i e = cc
holds_lem (some v) i e = ground arith

not_lem : (b : Bool) → not b ≡ true → b ≡ false
not_lem true e = cc
not_lem false e = refl

module _ (i : ℕ) (h : i < 64) where
  parts :
      (not (ltb (et i) 43) ≡ true)
      × (not (et i == 61) ≡ true)
      × (get_elem? base64dt (et i - 43) ≡ some i)
  parts =
      let t = (&&_iff _ _).0 (inverse_below 64 i table_inverse h) in
      let u = (&&_iff _ _).0 t.1 in (t.0, u.0, holds_lem _ i u.1)

  pub dt-et : {A : Type 0} (k : ℕ → Outcome A) → dt (et i) k ≡ k i
  dt-et k =
      let t = parts in
      ap
        (λ b.
          if b
          then undefined
          else elim (get_elem? base64dt (et i - 43)) [ none ↦ undefined | some v ↦ k v ])
        (not_lem (ltb (et i) 43) t.0)
      ∙ ap (λ o. elim o [ none ↦ undefined | some v ↦ k v ]) t.2

  pub et-ne : et i ≢ 61
  et-ne e = let t = not_lem (et i == 61) parts.1 in let same = (==_iff (et i) 61).1 e in cc

-- The bytes of a group, from the digits that `base64_encode` makes of them.
module _ (a b c : ℕ) (ha : a < 256) (hb : b < 256) (hc : c < 256) where
  pub second_digit : bit_or (bit_and a 3 * 16) (b / 16) ≡ a % 4 * 16 + b / 16
  second_digit =
      ap (λ m. bit_or (m * 16) (b / 16)) (bit_and-mask a 2)
      ∙ bit_or-fields 4 (a % 4) (b / 16) (omega arith)

  pub third_digit : bit_or (bit_and b 15 * 4) (c / 64) ≡ b % 16 * 4 + c / 64
  third_digit =
      ap (λ m. bit_or (m * 4) (c / 64)) (bit_and-mask b 4)
      ∙ bit_or-fields 2 (b % 16) (c / 64) (omega arith)

  pub fourth_digit : bit_and c 63 ≡ c % 64
  fourth_digit = bit_and-mask c 6

  pub first_byte_lem : first_byte (a / 4) (a % 4 * 16 + b / 16) ≡ a
  unfolding first_byte
  first_byte_lem =
      let small : (a % 4 * 16 + b / 16) / 16 < 2 ^ 2 = omega arith in
      ap (λ n. n % 256) (bit_or-fields 2 (a / 4) ((a % 4 * 16 + b / 16) / 16) small) ∙ omega arith

  pub second_byte_lem : second_byte (a % 4 * 16 + b / 16) (b % 16 * 4 + c / 64) ≡ b
  unfolding second_byte
  second_byte_lem =
      let small : (b % 16 * 4 + c / 64) / 4 < 2 ^ 4 = omega arith in
      ap (λ n. n % 256) (bit_or-fields 4 (a % 4 * 16 + b / 16) ((b % 16 * 4 + c / 64) / 4) small)
      ∙ omega arith

  pub third_byte_lem : third_byte (b % 16 * 4 + c / 64) (c % 64) ≡ c
  unfolding third_byte
  third_byte_lem =
      ap (λ n. n % 256) (bit_or-fields 6 (b % 16 * 4 + c / 64) (c % 64) (omega arith)) ∙ omega arith
