-- ===== src/Compiler/Caret.antt =====
-- What `chip32_compiler_error_print` shows of the code.
use mathlib.Core.List.{append_assoc}
use mathlib.Core.Path.{subst}
use chip.Prelude.{
  ℕ, zero, suc, ◌+◌, ◌-◌, ◌^◌, ◌%◌, ◌<◌, ◌≤◌, ◌≡◌, ◌≢◌, ◌⊎◌, inl, inr, refl, sym, ap, ◌∙◌, arith,
  some, List, [], ◌∷◌, ◌++◌, length, length-append, ◌==◌, if◌then◌else◌, take, drop, replicate, All,
  get_or, lt→ltb, take-append, drop-append, get_or-append, get_or-drop, drop-suc,
}
use chip.Printing.{text, unsigned}
use chip.Compiler.{
  stderr, stdout, until_newline, back, startline, endline, excerpt, shown, error_print, error_text,
}

-- The beginning of the code, or what stands behind a newline.
abbrev pub StartsLine : List ℕ → Type 0
StartsLine front = (front ≡ []) ⊎ ((f : List ℕ) × (front ≡ f ++ (10 ∷ [])))

-- The end of the code, or a newline.
abbrev pub EndsLine : List ℕ → Type 0
EndsLine rest = (rest ≡ []) ⊎ ((r : List ℕ) × (rest ≡ 10 ∷ r))

abbrev pub OneLine : List ℕ → Type 0
OneLine = All (λ x. x ≢ 10)

until_newline-append : (v rest : List ℕ) → OneLine v → EndsLine rest → until_newline (v ++ rest) ≡ v
until_newline-append [] rest h (inl e) = rw e
until_newline-append [] rest h (inr (r, e)) = rw e
until_newline-append (x ∷ v) rest h e = ground (arith, h.0, until_newline-append v rest h.1 e)

-- A byte that is no newline is passed.
back_step : (code : List ℕ) (s : ℕ) → get_or code (suc s) 0 ≢ 10 → back code (suc s) ≡ back code s
unfolding back
back_step code s h = ground arith

back_skip :
    (code : List ℕ) (a j : ℕ)
    → ((i : ℕ) → i ≤ j → get_or code (a + i) 0 ≢ 10)
    → back code (a + j) ≡ back code a
back_skip code a zero h = ap (back code) (omega arith)
back_skip code a (suc j) h =
    let e : a + suc j ≡ suc (a + j) = omega arith in
    ap (back code) e
    ∙ back_step code (a + j) (subst (λ i. get_or code i 0 ≢ 10) e (h (suc j) (omega arith)))
    ∙ back_skip code a j (λ i k. h i (omega arith))

back_stop : (code : List ℕ) (s : ℕ) → get_or code s 0 ≡ 10 → back code s ≡ s
unfolding back
back_stop code zero h = refl
back_stop code (suc s) h = ground arith

startline_of :
    (code : List ℕ) (s t : ℕ) → back code s ≡ back code t → startline code s ≡ startline code t
unfolding startline
startline_of code s t e = ap (λ r. if get_or code r 0 == 10 then r + 1 else r) e

-- At the first byte of a line, the line begins there.
start_at :
    (code : List ℕ) (n : ℕ)
    → get_or code n 0 ≢ 10
    → (n ≡ 0) ⊎ ((k : ℕ) × (n ≡ suc k) × (get_or code k 0 ≡ 10))
    → startline code n ≡ n
unfolding startline
start_at code zero h first = unfold back in ground arith
start_at code (suc n) h (inl e) = absurd (omega arith)
start_at code (suc n) h (inr (k, e, newline)) =
    let at : get_or code n 0 ≡ 10 = subst (λ i. get_or code i 0 ≡ 10) (omega arith) newline in
    let there = back_step code n h ∙ back_stop code n at in
    ap (λ s. if get_or code s 0 == 10 then s + 1 else s) there ∙ ground arith

-- The bytes up to the one at the pointer are none of them newlines.
inside :
    (u v rest : List ℕ) (i : ℕ)
    → OneLine u
    → OneLine v
    → (0 < length v) ⊎ (rest ≡ [])
    → i ≤ length u
    → get_or (u ++ (v ++ rest)) i 0 ≢ 10
inside [] (x ∷ v) rest zero hu hv more h = hv.0
inside [] [] rest zero hu hv (inl more) h = absurd (omega arith)
inside [] [] rest zero hu hv (inr e) h = rw e (λ z. omega arith)
inside [] v rest (suc i) hu hv more h = absurd (omega arith)
inside (x ∷ u) v rest zero hu hv more h = hu.0
inside (x ∷ u) v rest (suc i) hu hv more h = inside u v rest i hu.1 hv more (omega arith)

module _ (front u v rest : List ℕ) (starts : StartsLine front) (hu : OneLine u) (hv : OneLine v)
    (ends : EndsLine rest) (more : (0 < length v) ⊎ (rest ≡ [])) where
  abbrev code : List ℕ
  code = front ++ (u ++ (v ++ rest))

  no_newline : (i : ℕ) → i ≤ length u → get_or code (length front + i) 0 ≢ 10
  no_newline i h =
      subst (λ b. b ≢ 10) (sym (get_or-append front (u ++ (v ++ rest)) i 0))
        (inside u v rest i hu hv more h)

  first_byte : (length front ≡ 0) ⊎ ((k : ℕ) × (length front ≡ suc k) × (get_or code k 0 ≡ 10))
  first_byte = elim starts [
    | inl e ↦ inl (ap length e)
    | inr (f, e) ↦ inr (
      length f,
      omega (arith, ap length e, length-append f (10 ∷ [])),
      ap (λ l. get_or (l ++ (u ++ (v ++ rest))) (length f) 0) e
          ∙ ap (λ l. get_or l (length f) 0) (append_assoc f (10 ∷ []) (u ++ (v ++ rest)))
          ∙ ap (λ i. get_or (f ++ (10 ∷ (u ++ (v ++ rest)))) i 0) (omega arith)
          ∙ get_or-append f (10 ∷ (u ++ (v ++ rest))) 0 0,
    )
  ]

  startline_lem : startline code (length front + length u) ≡ length front
  startline_lem =
      startline_of code _ _ (back_skip code (length front) (length u) no_newline)
      ∙ start_at code (length front)
          (subst (λ i. get_or code i 0 ≢ 10) (omega arith) (no_newline 0 (omega arith))) first_byte

  behind : drop (length front + length u) code ≡ v ++ rest
  behind =
      ap (λ l. drop (length front + length u) l) (sym (append_assoc front u (v ++ rest)))
      ∙ ap (λ n. drop n ((front ++ u) ++ (v ++ rest))) (sym (length-append front u))
      ∙ drop-append (front ++ u) (v ++ rest)

  endline_lem : endline code (length front + length u) ≡ length front + length u + length v
  unfolding endline
  endline_lem =
      ap (λ l. length front + length u + length (until_newline l)) behind
      ∙ ap (λ l. length front + length u + length l) (until_newline-append v rest hv ends)

  excerpt_lem :
      excerpt code (length front + length u) ≡ (length front, length front + length u + length v)
  unfolding excerpt
  excerpt_lem = rw (startline_lem, endline_lem) (ground arith)

  shown_lem :
      length code < 2 ^ 31 → shown code (length front) (length front + length u + length v) ≡ u ++ v
  unfolding shown
  shown_lem small =
      let total : length u + length v < 2 ^ 31 = omega (
        arith,
        length-append front (u ++ (v ++ rest)),
        length-append u (v ++ rest),
        length-append v rest,
      ) in
      let precision : (length front + length u + length v + 2 ^ 64 - length front) % 2 ^ 32
          ≡ length u + length v =
        omega arith in
      rw (precision, lt→ltb (length u + length v) (2 ^ 31) total)
        (ap (take (length u + length v)) (drop-append front (u ++ (v ++ rest)))
          ∙ ap (take (length u + length v)) (sym (append_assoc u v rest))
          ∙ ap (λ n. take n ((u ++ v) ++ rest)) (sym (length-append u v))
          ∙ take-append (u ++ v) rest)

  -- A message at a byte of a line, which is not the newline behind it, of a code below 2 GiB: behind the text and
  -- the line's number, `chip32_compiler_error_print` shows exactly that line, and below it as many spaces as bytes of
  -- the line come before that byte, and the caret.
  pub error_print-line :
      (message : List ℕ) (line : ℕ)
      → length code < 2 ^ 31
      → error_print (some message) line code (length front + length u)
        ≡ stderr (text (error_text message) ∷ unsigned line ∷ text (10 ∷ []) ∷ [])
          ∷ stderr (text ((u ++ v) ++ (10 ∷ [])) ∷ [])
          ∷ stdout (text (replicate (length u) 32 ++ (94 ∷ 10 ∷ [])) ∷ [])
          ∷ []
  unfolding error_print
  error_print-line message line small =
      let column : length front + length u - length front ≡ length u = omega arith in
      rw (excerpt_lem, shown_lem small, column) refl

module _ (code : List ℕ) (n : ℕ) (rest : List ℕ) (there : drop n code ≡ 10 ∷ rest) where
  newline_at : get_or code n 0 ≡ 10
  newline_at = get_or-drop code n 0 ∙ ap (λ l. get_or l 0 0) there

  excerpt-newline : excerpt code n ≡ (n + 1, n)
  unfolding excerpt startline endline
  excerpt-newline =
      let none_before : endline code n ≡ n =
        ap (λ l. n + length (until_newline l)) there ∙ omega arith in
      let behind : startline code n ≡ n + 1 =
        ap (λ s. if get_or code s 0 == 10 then s + 1 else s) (back_stop code n newline_at)
        ∙ ap (λ b. if b == 10 then n + 1 else n) newline_at in
      rw (none_before, behind) (ground arith)

  shown-newline : shown code (n + 1) n ≡ rest
  unfolding shown
  shown-newline =
      let negative : (n + 2 ^ 64 - (n + 1)) % 2 ^ 32 ≡ 2 ^ 32 - 1 = omega arith in
      rw negative (drop-suc code n there)

-- At a newline, `chip32_compiler_error_print` shows all of the code behind it, and the caret below the first column.
pub error_print-newline :
    (front u rest message : List ℕ) (line : ℕ)
    → error_print (some message) line (front ++ (u ++ (10 ∷ rest))) (length front + length u)
      ≡ stderr (text (error_text message) ∷ unsigned line ∷ text (10 ∷ []) ∷ [])
        ∷ stderr (text (rest ++ (10 ∷ [])) ∷ [])
        ∷ stdout (text (94 ∷ 10 ∷ []) ∷ [])
        ∷ []
unfolding error_print
error_print-newline front u rest message line =
    let n = length front + length u in
    let code = front ++ (u ++ (10 ∷ rest)) in
    let there : drop n code ≡ 10 ∷ rest =
      ap (λ l. drop n l) (sym (append_assoc front u (10 ∷ rest)))
      ∙ ap (λ k. drop k ((front ++ u) ++ (10 ∷ rest))) (sym (length-append front u))
      ∙ drop-append (front ++ u) (10 ∷ rest) in
    let column : n - (n + 1) ≡ 0 = omega arith in
    rw (excerpt-newline code n rest there, shown-newline code n rest there, column) refl
