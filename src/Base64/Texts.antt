-- ===== src/Base64/Texts.antt =====
-- The text that `base64_encode` makes, and its last group in `base64_decode`.
use chip.Prelude.{
  ℕ, zero, suc, ◌+◌, ◌-◌, ◌*◌, ◌/◌, ◌%◌, ◌<◌, ◌≤◌, ◌≡◌, refl, ap, ◌∙◌, arith, List, [], ◌∷◌, ◌++◌,
  length, All,
}
use chip.Outcome.{Outcome, done, ◌>>=◌}
use chip.Word.Digits.{bit_and-mask}
use chip.Base64.{
  et, four, encode_rest, encode_loop, dt, decode_rest, first_byte, second_byte, third_byte,
}
use chip.Base64.Digits.{
  dt-et, second_digit, third_digit, fourth_digit, first_byte_lem, second_byte_lem, third_byte_lem,
}

abbrev pub IsByte : ℕ → Type 0
IsByte b = b < 256

-- The base64 text of some bytes: four digits for three bytes, and `=` for what is missing of the last three.
abbrev pub text : List ℕ → List ℕ
text [] = []
text (a ∷ []) = et (a / 4) ∷ et (a % 4 * 16) ∷ 61 ∷ 61 ∷ []
text (a ∷ b ∷ []) = et (a / 4) ∷ et (a % 4 * 16 + b / 16) ∷ et (b % 16 * 4) ∷ 61 ∷ []
text (a ∷ b ∷ c ∷ bytes) =
    et (a / 4) ∷ et (a % 4 * 16 + b / 16) ∷ et (b % 16 * 4 + c / 64) ∷ et (c % 64) ∷ text bytes

-- How many `=` stand at its end.
abbrev pub padding : List ℕ → ℕ
padding [] = 0
padding (a ∷ []) = 2
padding (a ∷ b ∷ []) = 1
padding (a ∷ b ∷ c ∷ bytes) = padding bytes

pub four_lem :
    (a b c : ℕ)
    → IsByte a
    → IsByte b
    → IsByte c
    → four a b c
      ≡ et (a / 4) ∷ et (a % 4 * 16 + b / 16) ∷ et (b % 16 * 4 + c / 64) ∷ et (c % 64) ∷ []
unfolding four
four_lem a b c ha hb hc =
    let x = second_digit a b c ha hb hc in
    let y = third_digit a b c ha hb hc in let z = fourth_digit a b c ha hb hc in rw (x, y, z) refl

pub encode_rest-text :
    (r : ℕ) (bytes : List ℕ)
    → r < 3
    → length bytes ≡ r
    → All IsByte bytes
    → encode_rest (3 - r) bytes ≡ done (text bytes)
unfolding encode_rest
encode_rest-text zero [] h e g = refl
encode_rest-text (suc zero) (a ∷ []) h e g = rw (bit_and-mask a 2) refl
encode_rest-text (suc (suc zero)) (a ∷ b ∷ []) h e g =
    let x = second_digit a b 0 g.0 g.1.0 (omega arith) in rw (x, bit_and-mask b 4) refl
encode_rest-text zero (a ∷ bytes) h e g = absurd (omega arith)
encode_rest-text (suc zero) [] h e g = absurd (omega arith)
encode_rest-text (suc zero) (a ∷ b ∷ bytes) h e g = absurd (omega arith)
encode_rest-text (suc (suc zero)) [] h e g = absurd (omega arith)
encode_rest-text (suc (suc zero)) (a ∷ []) h e g = absurd (omega arith)
encode_rest-text (suc (suc zero)) (a ∷ b ∷ c ∷ bytes) h e g = absurd (omega arith)
encode_rest-text (suc (suc (suc r))) bytes h e g = absurd (omega arith)

pub encode_loop-text :
    (k r : ℕ) (bytes : List ℕ)
    → r < 3
    → length bytes ≡ 3 * k + r
    → All IsByte bytes
    → encode_loop k (3 - r) bytes ≡ done (text bytes)
unfolding encode_loop
encode_loop-text zero r bytes h e g = encode_rest-text r bytes h (omega arith) g
encode_loop-text (suc k) r (a ∷ b ∷ c ∷ bytes) h e g =
    ap (λ o. o >>= λ t. done (four a b c ++ t)) (encode_loop-text k r bytes h (omega arith) g.1.1.1)
    ∙ ap (λ l. done (l ++ text bytes)) (four_lem a b c g.0 g.1.0 g.1.1.0)
encode_loop-text (suc k) r [] h e g = absurd (omega arith)
encode_loop-text (suc k) r (a ∷ []) h e g = absurd (omega arith)
encode_loop-text (suc k) r (a ∷ b ∷ []) h e g = absurd (omega arith)

-- The bytes of the last group, whose second or third digit has no part of a next byte.
pub only_byte : (a : ℕ) → IsByte a → first_byte (a / 4) (a % 4 * 16) ≡ a
only_byte a h =
    let e : a % 4 * 16 ≡ a % 4 * 16 + 0 / 16 = omega arith in
    ap (first_byte (a / 4)) e ∙ first_byte_lem a 0 0 h (omega arith) (omega arith)

pub last_byte : (a b : ℕ) → IsByte a → IsByte b → second_byte (a % 4 * 16 + b / 16) (b % 16 * 4) ≡ b
last_byte a b h k =
    let e : b % 16 * 4 ≡ b % 16 * 4 + 0 / 64 = omega arith in
    ap (second_byte (a % 4 * 16 + b / 16)) e ∙ second_byte_lem a b 0 h k (omega arith)

-- The four digits of three bytes are read back.
pub decode_four :
    {A : Type 0} (a b c : ℕ) (k : ℕ → ℕ → ℕ → Outcome A)
    → IsByte a
    → IsByte b
    → IsByte c
    → dt (et (a / 4)) (λ p. dt (et (a % 4 * 16 + b / 16)) (λ q.
      dt
        (et (b % 16 * 4 + c / 64))
        (λ r. dt (et (c % 64)) (λ s. k (first_byte p q) (second_byte q r) (third_byte r s)))))
      ≡ k a b c
decode_four a b c k ha hb hc =
    dt-et (a / 4) (omega arith) _
    ∙ dt-et (a % 4 * 16 + b / 16) (omega arith) _
    ∙ dt-et (b % 16 * 4 + c / 64) (omega arith) _
    ∙ dt-et (c % 64) (omega arith) _
    ∙ ap
        (λ x.
          k x (second_byte (a % 4 * 16 + b / 16) (b % 16 * 4 + c / 64))
            (third_byte (b % 16 * 4 + c / 64) (c % 64)))
        (first_byte_lem a b c ha hb hc)
    ∙ ap (λ x. k a x (third_byte (b % 16 * 4 + c / 64) (c % 64))) (second_byte_lem a b c ha hb hc)
    ∙ ap (λ x. k a b x) (third_byte_lem a b c ha hb hc)

-- The last group, of one to three bytes.
pub decode_rest-text :
    (bytes : List ℕ)
    → 0 < length bytes
    → length bytes ≤ 3
    → All IsByte bytes
    → decode_rest (padding bytes) (text bytes) ≡ done bytes
unfolding decode_rest
decode_rest-text [] h k g = absurd (omega arith)
decode_rest-text (a ∷ []) h k g =
    dt-et (a / 4) (omega arith) _
    ∙ dt-et (a % 4 * 16) (omega arith) _
    ∙ ap (λ x. done (x ∷ [])) (only_byte a g.0)
decode_rest-text (a ∷ b ∷ []) h k g =
    dt-et (a / 4) (omega arith) _
    ∙ dt-et (a % 4 * 16 + b / 16) (omega arith) _
    ∙ dt-et (b % 16 * 4) (omega arith) _
    ∙ ap (λ x. done (x ∷ second_byte (a % 4 * 16 + b / 16) (b % 16 * 4) ∷ []))
        (first_byte_lem a b 0 g.0 g.1.0 (omega arith))
    ∙ ap (λ x. done (a ∷ x ∷ [])) (last_byte a b g.0 g.1.0)
decode_rest-text (a ∷ b ∷ c ∷ []) h k g =
    decode_four a b c (λ x y z. done (x ∷ y ∷ z ∷ [])) g.0 g.1.0 g.1.1.0
decode_rest-text (a ∷ b ∷ c ∷ d ∷ bytes) h k g = absurd (omega arith)

pub length-text : (bytes : List ℕ) → length (text bytes) ≡ 4 * ((length bytes + 2) / 3)
length-text [] = omega arith
length-text (a ∷ []) = omega arith
length-text (a ∷ b ∷ []) = omega arith
length-text (a ∷ b ∷ c ∷ bytes) = omega (arith, length-text bytes)

pub padding-length : (bytes : List ℕ) → padding bytes + length bytes ≡ 3 * ((length bytes + 2) / 3)
padding-length [] = omega arith
padding-length (a ∷ []) = omega arith
padding-length (a ∷ b ∷ []) = omega arith
padding-length (a ∷ b ∷ c ∷ bytes) = omega (arith, padding-length bytes)
