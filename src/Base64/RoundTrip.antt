-- ===== src/Base64/RoundTrip.antt =====
-- `base64_decode` gives back what `base64_encode` was given.
use chip.Prelude.{
  ℕ, zero, suc, ◌+◌, ◌-◌, ◌*◌, ◌/◌, ◌%◌, ◌^◌, ◌<◌, ◌≤◌, ◌≡◌, refl, ap, ◌∙◌, arith, Bool, true,
  false, some, List, [], ◌∷◌, length, All, le→leb, ltb-false, ltb, leb, ◌==◌, if◌then◌else◌, get_or,
}
use chip.Outcome.{done, ◌>>=◌}
use chip.Base64.{et, outsize, base64_encode, decode_loop, base64_decode}
use chip.Base64.Digits.{et-ne}
use chip.Base64.Texts.{
  IsByte, text, padding, encode_loop-text, decode_four, decode_rest-text, length-text,
  padding-length,
}

decode_loop-text :
    (k : ℕ) (bytes : List ℕ)
    → 3 * k < length bytes
    → length bytes ≤ 3 * k + 3
    → All IsByte bytes
    → decode_loop k (padding bytes) (text bytes) ≡ done bytes
unfolding decode_loop
decode_loop-text zero bytes h l g = decode_rest-text bytes (omega arith) (omega arith) g
decode_loop-text (suc k) (a ∷ b ∷ c ∷ bytes) h l g =
    decode_four a b c
      (λ x y z. decode_loop k (padding bytes) (text bytes) >>= λ t. done (x ∷ y ∷ z ∷ t)) g.0 g.1.0
      g.1.1.0
    ∙ ap (λ o. o >>= λ t. done (a ∷ b ∷ c ∷ t))
        (decode_loop-text k bytes (omega arith) (omega arith) g.1.1.1)
decode_loop-text (suc k) [] h l g = absurd (omega arith)
decode_loop-text (suc k) (a ∷ []) h l g = absurd (omega arith)
decode_loop-text (suc k) (a ∷ b ∷ []) h l g = absurd (omega arith)

-- 1 for `=`.
abbrev equals : ℕ → ℕ
equals c = if c == 61 then 1 else 0

equals-et : (i : ℕ) → i < 64 → equals (et i) ≡ 0
equals-et i h = let other = et-ne i h in ground arith

-- The `=` among the last two characters.
abbrev last_two : List ℕ → ℕ
last_two str = equals (get_or str (length str - 1) 0) + equals (get_or str (length str - 2) 0)

last_two-group :
    (x y z w : ℕ) (str : List ℕ) → 2 ≤ length str → last_two (x ∷ y ∷ z ∷ w ∷ str) ≡ last_two str
last_two-group x y z w str h =
    let whole = x ∷ y ∷ z ∷ w ∷ str in
    let one : length whole - 1 ≡ suc (suc (suc (suc (length str - 1)))) = omega arith in
    let two : length whole - 2 ≡ suc (suc (suc (suc (length str - 2)))) = omega arith in
    ap (λ i. equals (get_or whole i 0) + equals (get_or whole (length whole - 2) 0)) one
    ∙ ap (λ i. equals (get_or str (length str - 1) 0) + equals (get_or whole i 0)) two

last_two-text :
    (bytes : List ℕ) → 0 < length bytes → All IsByte bytes → last_two (text bytes) ≡ padding bytes
last_two-text [] h g = absurd (omega arith)
last_two-text (a ∷ []) h g = refl
last_two-text (a ∷ b ∷ []) h g = omega (arith, equals-et (b % 16 * 4) (omega arith))
last_two-text (a ∷ b ∷ c ∷ []) h g =
    omega (arith, equals-et (c % 64) (omega arith), equals-et (b % 16 * 4 + c / 64) (omega arith))
last_two-text (a ∷ b ∷ c ∷ d ∷ bytes) h g =
    last_two-group _ _ _ _ (text (d ∷ bytes)) (omega (arith, length-text (d ∷ bytes)))
    ∙ last_two-text (d ∷ bytes) (omega arith) g.1.1.1

module _ (malloc : ℕ → Bool) (bytes : List ℕ) (enough : (n : ℕ) → malloc n ≡ true)
    (small : length bytes < 2 ^ 62) (valid : All IsByte bytes) where
  encode-text : base64_encode malloc bytes ≡ done (some (text bytes))
  unfolding base64_encode
  encode-text =
      let n = length bytes in
      let room : leb (length (text bytes) + 1) ((outsize n + 1) % 2 ^ 64) ≡ true =
        le→leb _ _ (omega (arith, length-text bytes)) in
      let rounds : n ≡ 3 * ((n - n % 3) / 3) + n % 3 = omega arith in
      let written = encode_loop-text ((n - n % 3) / 3) (n % 3) bytes (omega arith) rounds valid in
      rw (enough ((outsize n + 1) % 2 ^ 64), written, room) refl

  decode-text : 0 < length bytes → base64_decode malloc (text bytes) ≡ done (some bytes)
  unfolding base64_decode
  decode-text some_byte =
      let n = length bytes in
      let len = length (text bytes) in
      let one : ltb len 1 ≡ false = ltb-false _ _ (omega (arith, length-text bytes)) in
      let two : ltb len 2 ≡ false = ltb-false _ _ (omega (arith, length-text bytes)) in
      let block : (len / 4 * 3 + 2 ^ 64 - padding bytes) % 2 ^ 64 ≡ n =
        omega (arith, length-text bytes, padding-length bytes) in
      let rounds : (len / 4 + 2 ^ 64 - 1) % 2 ^ 64 ≡ (n - 1) / 3 =
        omega (arith, length-text bytes) in
      let read = decode_loop-text ((n - 1) / 3) bytes (omega arith) (omega arith) valid in
      rw
        (
          one,
          two,
          last_two-text bytes some_byte valid,
          block,
          enough n,
          rounds,
          read,
          le→leb n n (omega arith),
        )
        refl

-- Where memory is given, `base64_encode` of 1 to 2 ^ 62 - 1 bytes ends with a text, written inside its block, of which
-- `base64_decode` makes the same bytes again, inside a block of their number.
pub base64_decode-base64_encode :
    (malloc : ℕ → Bool) (bytes : List ℕ)
    → ((n : ℕ) → malloc n ≡ true)
    → 0 < length bytes
    → length bytes < 2 ^ 62
    → All IsByte bytes
    → (str : List ℕ) × (base64_encode malloc bytes ≡ done (some str))
      × (base64_decode malloc str ≡ done (some bytes))
      × (length str ≡ 4 * ((length bytes + 2) / 3))
base64_decode-base64_encode malloc bytes enough some_byte small valid = (
  text bytes,
  encode-text malloc bytes enough small valid,
  decode-text malloc bytes enough small valid some_byte,
  length-text bytes,
)
