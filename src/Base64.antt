-- ===== src/Base64.antt =====
-- `base64_encode` and `base64_decode` of core/str.c. Bytes are numbers below 256, and a `size_t` is computed
-- modulo 2 ^ 64.
pub mod Digits
pub mod Texts
pub mod RoundTrip
use chip.Prelude.{
  ℕ, zero, suc, ◌+◌, ◌-◌, ◌*◌, ◌/◌, ◌%◌, ◌^◌, Bool, true, false, Option, none, some, List, [], ◌∷◌,
  ◌++◌, length, ltb, leb, ◌==◌, if◌then◌else◌, get_or, get_elem?, bit_and, bit_or,
}
use chip.Outcome.{Outcome, done, undefined, ◌>>=◌}

abbrev pub size_mod : ℕ
size_mod = 2 ^ 64

abbrev pub base64et : List ℕ
base64et =
    65 ∷ 66 ∷ 67 ∷ 68 ∷ 69 ∷ 70 ∷ 71 ∷ 72 ∷ 73 ∷ 74 ∷ 75 ∷ 76 ∷ 77 ∷ 78 ∷ 79 ∷ 80 ∷ 81 ∷ 82 ∷ 83
    ∷ 84 ∷ 85 ∷ 86 ∷ 87 ∷ 88 ∷ 89 ∷ 90 ∷ 97 ∷ 98 ∷ 99 ∷ 100 ∷ 101 ∷ 102 ∷ 103 ∷ 104 ∷ 105 ∷ 106
    ∷ 107 ∷ 108 ∷ 109 ∷ 110 ∷ 111 ∷ 112 ∷ 113 ∷ 114 ∷ 115 ∷ 116 ∷ 117 ∷ 118 ∷ 119 ∷ 120 ∷ 121 ∷ 122
    ∷ 48 ∷ 49 ∷ 50 ∷ 51 ∷ 52 ∷ 53 ∷ 54 ∷ 55 ∷ 56 ∷ 57 ∷ 43 ∷ 47 ∷ []

abbrev pub base64dt : List ℕ
base64dt =
    62 ∷ 0 ∷ 0 ∷ 0 ∷ 63 ∷ 52 ∷ 53 ∷ 54 ∷ 55 ∷ 56 ∷ 57 ∷ 58 ∷ 59 ∷ 60 ∷ 61 ∷ 0 ∷ 0 ∷ 0 ∷ 0 ∷ 0 ∷ 0
    ∷ 0 ∷ 0 ∷ 1 ∷ 2 ∷ 3 ∷ 4 ∷ 5 ∷ 6 ∷ 7 ∷ 8 ∷ 9 ∷ 10 ∷ 11 ∷ 12 ∷ 13 ∷ 14 ∷ 15 ∷ 16 ∷ 17 ∷ 18 ∷ 19
    ∷ 20 ∷ 21 ∷ 22 ∷ 23 ∷ 24 ∷ 25 ∷ 0 ∷ 0 ∷ 0 ∷ 0 ∷ 0 ∷ 0 ∷ 26 ∷ 27 ∷ 28 ∷ 29 ∷ 30 ∷ 31 ∷ 32 ∷ 33
    ∷ 34 ∷ 35 ∷ 36 ∷ 37 ∷ 38 ∷ 39 ∷ 40 ∷ 41 ∷ 42 ∷ 43 ∷ 44 ∷ 45 ∷ 46 ∷ 47 ∷ 48 ∷ 49 ∷ 50 ∷ 51 ∷ []

unfoldable pub et : ℕ → ℕ
et i = get_or base64et i 0

-- The four characters of three bytes.
unfoldable pub four : ℕ → ℕ → ℕ → List ℕ
unfolding et
four a b c =
    et (a / 4)
    ∷ et (bit_or (bit_and a 3 * 16) (b / 16))
    ∷ et (bit_or (bit_and b 15 * 4) (c / 64))
    ∷ et (bit_and c 63)
    ∷ []

-- The `switch` behind the loop: `una` is 3 less the bytes that are left.
unfoldable pub encode_rest : ℕ → List ℕ → Outcome (List ℕ)
unfolding et
encode_rest (suc zero) (a ∷ b ∷ bytes) =
    done (et (a / 4) ∷ et (bit_or (bit_and a 3 * 16) (b / 16)) ∷ et (bit_and b 15 * 4) ∷ 61 ∷ [])
encode_rest (suc zero) bytes = undefined
encode_rest (suc (suc zero)) (a ∷ bytes) = done (et (a / 4) ∷ et (bit_and a 3 * 16) ∷ 61 ∷ 61 ∷ [])
encode_rest (suc (suc zero)) [] = undefined
encode_rest una bytes = done []

-- `ali` rounds, and the `switch`.
unfoldable pub encode_loop : ℕ → ℕ → List ℕ → Outcome (List ℕ)
unfolding four encode_rest
encode_loop zero una bytes = encode_rest una bytes
encode_loop (suc ali) una (a ∷ b ∷ c ∷ bytes) =
    encode_loop ali una bytes >>= λ t. done (four a b c ++ t)
encode_loop (suc ali) una bytes = undefined

-- `outsize`.
abbrev pub outsize : ℕ → ℕ
outsize size = (size * 4 % size_mod / 3 + 4) % size_mod

-- `malloc n` is whether a block of so many bytes is given; `none` is the result NULL. The text and its 0 are
-- written into the block.
unfoldable pub base64_encode : (ℕ → Bool) → List ℕ → Outcome (Option (List ℕ))
unfolding encode_loop
base64_encode malloc bytes =
    let size = length bytes in
    if malloc ((outsize size + 1) % size_mod)
    then (encode_loop ((size - size % 3) / 3) (3 - size % 3) bytes >>= λ t.
        if leb (length t + 1) ((outsize size + 1) % size_mod) then done (some t) else undefined)
    else done none

-- `base64dt[c - '+']`, which is undefined outside the table.
abbrev pub dt : {A : Type 0} → ℕ → (ℕ → Outcome A) → Outcome A
dt c k =
    if ltb c 43
    then undefined
    else elim (get_elem? base64dt (c - 43)) [ none ↦ undefined | some v ↦ k v ]

-- The bytes of a group: the first, the second and the third.
unfoldable pub first_byte : ℕ → ℕ → ℕ
first_byte p q = bit_or (p * 4) (q / 16) % 256

unfoldable pub second_byte : ℕ → ℕ → ℕ
second_byte q r = bit_or (q * 16) (r / 4) % 256

unfoldable pub third_byte : ℕ → ℕ → ℕ
third_byte r s = bit_or (r * 64) s % 256

-- The `switch` behind the loop, by the number of bytes that it leaves out.
unfoldable pub decode_rest : ℕ → List ℕ → Outcome (List ℕ)
unfolding first_byte second_byte third_byte
decode_rest zero (x ∷ y ∷ z ∷ w ∷ str) = dt x (λ p.
    dt y
      (λ q. dt z (λ r. dt w (λ s. done (first_byte p q ∷ second_byte q r ∷ third_byte r s ∷ [])))))
decode_rest (suc zero) (x ∷ y ∷ z ∷ str) =
    dt x (λ p. dt y (λ q. dt z (λ r. done (first_byte p q ∷ second_byte q r ∷ []))))
decode_rest (suc (suc zero)) (x ∷ y ∷ str) = dt x (λ p. dt y (λ q. done (first_byte p q ∷ [])))
decode_rest una str = undefined

-- `count` rounds, and the `switch`.
unfoldable pub decode_loop : ℕ → ℕ → List ℕ → Outcome (List ℕ)
unfolding decode_rest first_byte second_byte third_byte
decode_loop zero una str = decode_rest una str
decode_loop (suc count) una (x ∷ y ∷ z ∷ w ∷ str) = dt x (λ p. dt y (λ q. dt z (λ r. dt w (λ s.
    decode_loop count una str >>= λ t.
    done (first_byte p q ∷ second_byte q r ∷ third_byte r s ∷ t)))))
decode_loop (suc count) una str = undefined

-- Whether the byte `back` from the end is `=`; in front of the text it is undefined.
abbrev pub is_padding : {A : Type 0} → List ℕ → ℕ → (ℕ → Outcome A) → Outcome A
is_padding str back k =
    if ltb (length str) back
    then undefined
    else k (if get_or str (length str - back) 0 == 61 then 1 else 0)

-- What is written: the bytes, into a block of `countali` bytes.
unfoldable pub base64_decode : (ℕ → Bool) → List ℕ → Outcome (Option (List ℕ))
unfolding decode_loop
base64_decode malloc str =
    let len = length str in
    is_padding str 1 (λ last. is_padding str 2 (λ before.
      let una = last + before in
      let countali = (len / 4 * 3 + size_mod - una) % size_mod in
      if malloc countali
      then (decode_loop ((len / 4 + size_mod - 1) % size_mod) una str >>= λ t.
          if leb (length t) countali then done (some t) else undefined)
      else done none))
