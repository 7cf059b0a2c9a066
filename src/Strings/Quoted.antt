-- ===== src/Strings/Quoted.antt =====
-- `quote_printable_decode` on a text in the quoted-printable encoding.
use chip.Prelude.{
  ==-false, ℕ, ◌+◌, ◌≤◌, ◌≡◌, ◌≢◌, refl, ap, ◌∙◌, arith, Bool, true, List, [], ◌∷◌, length, ◌%◌,
  some, le→leb,
}
use chip.Outcome.{done, ◌>>=◌}
use chip.Strings.{loop, quoted_loop, quote_printable_decode}

module _ (strtoul : ℕ → ℕ → ℕ) where
  -- The texts that encode some bytes: a byte stands for itself, unless it is `=`; any byte is written as `=` and
  -- two digits, the first of which is neither a carriage return nor a newline; `=` at the end of a line joins it
  -- with the next.
  pub data Quoted : List ℕ → List ℕ → Type 0 where
    empty : Quoted [] []
    plain : (c : ℕ) {str bytes : List ℕ} → c ≢ 61 → Quoted str bytes → Quoted (c ∷ str) (c ∷ bytes)
    digits :
        (a b v : ℕ) {str bytes : List ℕ}
        → a ≢ 13
        → a ≢ 10
        → strtoul a b % 256 ≡ v
        → Quoted str bytes
        → Quoted (61 ∷ a ∷ b ∷ str) (v ∷ bytes)
    newline : {str bytes : List ℕ} → Quoted str bytes → Quoted (61 ∷ 10 ∷ str) bytes
    return_newline : {str bytes : List ℕ} → Quoted str bytes → Quoted (61 ∷ 13 ∷ 10 ∷ str) bytes

  loop-Quoted : {str bytes : List ℕ} → Quoted str bytes → quoted_loop strtoul loop str ≡ done bytes
  unfolding quoted_loop
  loop-Quoted empty = refl
  loop-Quoted (plain c {str} {bytes} h q) =
      rw (==-false c 61 h, quoted_loop) (ap (λ o. o >>= λ t. done (c ∷ t)) (loop-Quoted q))
  loop-Quoted (digits a b v {str} {bytes} h k e q) =
      rw (==-false a 13 h, ==-false a 10 k, quoted_loop)
        (ap (λ o. o >>= λ t. done (strtoul a b % 256 ∷ t)) (loop-Quoted q)
          ∙ ap (λ x. done (x ∷ bytes)) e)
  loop-Quoted (newline q) = loop-Quoted q
  loop-Quoted (return_newline q) = loop-Quoted q

  Quoted-length : {str bytes : List ℕ} → Quoted str bytes → length bytes ≤ length str
  Quoted-length empty = omega arith
  Quoted-length (plain c h q) = omega (arith, Quoted-length q)
  Quoted-length (digits a b v h k e q) = omega (arith, Quoted-length q)
  Quoted-length (newline q) = omega (arith, Quoted-length q)
  Quoted-length (return_newline q) = omega (arith, Quoted-length q)

  -- Where memory is given, `quote_printable_decode` of a text that encodes some bytes ends with these bytes and their
  -- number, inside its block.
  pub quote_printable_decode-Quoted :
      (malloc : ℕ → Bool) {str bytes : List ℕ}
      → ((n : ℕ) → malloc n ≡ true)
      → Quoted str bytes
      → quote_printable_decode strtoul malloc str ≡ done (some (bytes, length bytes))
  unfolding quote_printable_decode
  quote_printable_decode-Quoted malloc {str} {bytes} enough q =
      rw (enough (length str + 1), loop-Quoted q, le→leb _ _ (Quoted-length q)) refl
