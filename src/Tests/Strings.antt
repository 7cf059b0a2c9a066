-- ===== src/Tests/Strings.antt =====
-- Short strings, their copies and encodings.
use chip.Prelude.{
  ℕ, ◌+◌, ◌-◌, ◌*◌, ◌/◌, ◌≡◌, refl, inl, inr, arith, true, some, List, [], ◌∷◌, length, take,
  replicate,
}
use chip.Outcome.{done, undefined}
use chip.Base64.{base64_encode, base64_decode}
use chip.Base64.RoundTrip.{base64_decode-base64_encode}
use chip.Strings.{str_cpy, str_ncpy, str_swap, optional, quote_printable_decode}
use chip.Strings.Copies.{with_text, str_cpy-str_ncpy, str_cpy-str_ncpy_zero}
use chip.Strings.Swaps.{str_swap_lem}
use chip.Strings.Quoted.{quote_printable_decode-Quoted}
use chip.Strings.Quoted.Quoted.{empty, plain, digits}
use chip.Printing.{text, unsigned}
use chip.Compiler.{stderr, stdout, error_print, error_text}
use chip.Compiler.Caret.{error_print-line, error_print-newline}

abbrev four_bytes : List ℕ
four_bytes = 0 ∷ 255 ∷ 16 ∷ 77 ∷ []

base64_decode-base64_encode_example :
    (str : List ℕ) × (base64_encode (λ n. true) four_bytes ≡ done (some str))
    × (base64_decode (λ n. true) str ≡ done (some four_bytes))
    × (length str ≡ 4 * ((length four_bytes + 2) / 3))
base64_decode-base64_encode_example =
    base64_decode-base64_encode (λ n. true) four_bytes (λ n. refl) (omega arith) (omega arith)
      (omega arith, (omega arith, (omega arith, (omega arith, tt))))

str_cpy-str_ncpy_example :
    (str_cpy (replicate 4 7) 3 four_bytes ≡ done (with_text (take 2 four_bytes) (replicate 4 7)))
    × (str_ncpy (replicate 4 7) 3 four_bytes 1
        ≡ done (with_text (take 2 (take (optional 1 four_bytes) four_bytes)) (replicate 4 7)))
str_cpy-str_ncpy_example =
    str_cpy-str_ncpy (replicate 4 7) four_bytes 3 1 (omega arith) (omega arith) (omega arith)

str_cpy-str_ncpy_zero_example :
    (str_cpy (replicate 4 7) 0 four_bytes ≡ undefined)
    × (str_ncpy (replicate 4 7) 0 four_bytes 0 ≡ undefined)
str_cpy-str_ncpy_zero_example =
    str_cpy-str_ncpy_zero (replicate 4 7) four_bytes (omega arith) (omega arith)

str_swap_lem_example :
    (a' : List ℕ) × (b' : List ℕ) × (str_swap (97 ∷ 0 ∷ 5 ∷ []) (98 ∷ 99 ∷ 0 ∷ [])
      ≡ done (98 ∷ 99 ∷ 0 ∷ a', 97 ∷ 0 ∷ b'))
    × (2 + length a' ≡ 1 + 1)
    × (1 + length b' ≡ 2 + 0)
str_swap_lem_example =
    str_swap_lem (97 ∷ []) (98 ∷ 99 ∷ []) (5 ∷ []) [] ((λ e. omega arith), tt)
      ((λ e. omega arith), ((λ e. omega arith), tt)) (omega arith) (omega arith)

-- The value of two of the digits 0 to 9.
abbrev hex : ℕ → ℕ → ℕ
hex a b = (a - 48) * 16 + (b - 48)

quote_printable_decode-Quoted_example :
    quote_printable_decode hex (λ n. true) (97 ∷ 61 ∷ 51 ∷ 48 ∷ []) ≡ done (some (97 ∷ 48 ∷ [], 2))
quote_printable_decode-Quoted_example =
    quote_printable_decode-Quoted hex (λ n. true) (λ n. refl)
      (plain 97 (λ e. omega arith)
        (digits 51 48 48 (λ e. omega arith) (λ e. omega arith) refl empty))

-- A message at the end of the first of two lines.
error_print-newline_example :
    error_print (some (98 ∷ [])) 1 (97 ∷ 10 ∷ 99 ∷ 100 ∷ []) 1
    ≡ stderr (text (error_text (98 ∷ [])) ∷ unsigned 1 ∷ text (10 ∷ []) ∷ [])
      ∷ stderr (text (99 ∷ 100 ∷ 10 ∷ []) ∷ [])
      ∷ stdout (text (94 ∷ 10 ∷ []) ∷ [])
      ∷ []
error_print-newline_example = error_print-newline [] (97 ∷ []) (99 ∷ 100 ∷ []) (98 ∷ []) 1

error_print-line_example :
    error_print (some (98 ∷ [])) 2 (97 ∷ 10 ∷ 99 ∷ 100 ∷ []) 3
    ≡ stderr (text (error_text (98 ∷ [])) ∷ unsigned 2 ∷ text (10 ∷ []) ∷ [])
      ∷ stderr (text (99 ∷ 100 ∷ 10 ∷ []) ∷ [])
      ∷ stdout (text (32 ∷ 94 ∷ 10 ∷ []) ∷ [])
      ∷ []
error_print-line_example =
    error_print-line (97 ∷ 10 ∷ []) (99 ∷ []) (100 ∷ []) [] (inr (97 ∷ [], refl))
      ((λ e. omega arith), tt) ((λ e. omega arith), tt) (inl refl) (inl (omega arith)) (98 ∷ []) 2
      (omega arith)
