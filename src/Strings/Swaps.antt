-- ===== src/Strings/Swaps.antt =====
-- `str_swap` exchanges two strings.
use chip.Prelude.{
  ==-false, sym, ℕ, suc, ◌+◌, ◌<◌, ◌≤◌, ◌≡◌, ◌≢◌, refl, ap, arith, List, [], ◌∷◌, ◌++◌, length,
  length-append, length-drop, All, drop, if◌then◌else◌,
}
use chip.Outcome.{done}
use chip.Strings.{strcpy, swap_rest, str_swap}

-- No byte of a string is 0.
abbrev pub IsText : List ℕ → Type 0
IsText = All (λ c. c ≢ 0)

strcpy_lem :
    (t rest dst : List ℕ)
    → IsText t
    → length t < length dst
    → strcpy dst (t ++ (0 ∷ rest)) ≡ done (t ++ (0 ∷ drop (suc (length t)) dst))
unfolding strcpy
strcpy_lem t rest [] h k = absurd (omega arith)
strcpy_lem [] rest (x ∷ dst) h k = refl
strcpy_lem (c ∷ t) rest (x ∷ dst) h k = rw (strcpy_lem t rest dst h.1 (omega arith)) (
    ap (λ b. if b then done (0 ∷ dst) else done (c ∷ (t ++ (0 ∷ drop (suc (length t)) dst))))
      (==-false c 0 h.0))

-- Two blocks with a string and its 0 each and room for the other's: afterwards each holds the other's string with
-- its 0, and is as long as before.
pub str_swap_lem :
    (s t a b : List ℕ)
    → IsText s
    → IsText t
    → length t ≤ length s + length a
    → length s ≤ length t + length b
    → (a' : List ℕ) × (b' : List ℕ) × (str_swap (s ++ (0 ∷ a)) (t ++ (0 ∷ b))
        ≡ done (t ++ (0 ∷ a'), s ++ (0 ∷ b')))
      × (length t + length a' ≡ length s + length a)
      × (length s + length b' ≡ length t + length b)
unfolding str_swap swap_rest
str_swap_lem [] [] a b hs ht ra rb = (a, b, refl, refl, refl)
str_swap_lem [] (y ∷ t) a b hs ht ra rb = (
  drop (suc (length t)) a,
  t ++ (0 ∷ b),
  rw (==-false 0 y (λ e. ht.0 (sym e)), strcpy_lem (y ∷ t) b (0 ∷ a) ht (omega arith)) refl,
  omega (arith, length-drop (suc (length t)) a),
  omega (arith, length-append t (0 ∷ b)),
)
str_swap_lem (x ∷ s) [] a b hs ht ra rb = (
  s ++ (0 ∷ a),
  drop (suc (length s)) b,
  rw (==-false x 0 hs.0, strcpy_lem (x ∷ s) a (0 ∷ b) hs (omega arith)) refl,
  omega (arith, length-append s (0 ∷ a)),
  omega (arith, length-drop (suc (length s)) b),
)
str_swap_lem (x ∷ s) (y ∷ t) a b hs ht ra rb =
    let (a', b', e, la, lb) = str_swap_lem s t a b hs.1 ht.1 (omega arith) (omega arith) in
    (a', b', rw (==-false x 0 hs.0, ==-false y 0 ht.0, e) refl, omega arith, omega arith)
