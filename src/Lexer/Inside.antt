-- ===== src/Lexer/Inside.antt =====
-- The tokens of the lexer lie in the text, and its loops end.
use mathlib.Core.Bool.{◌||◌, not}
use chip.Prelude.{
  ℕ, ◌+◌, ◌-◌, ◌<◌, ◌≤◌, ◌≡◌, refl, arith, Bool, true, false, Option, none, some, List, [], ◌∷◌,
  length, length-append, All-append, ltb, ◌==◌, if◌then◌else◌, Bool-cases, inl, inr,
}
use chip.Outcome.{Outcome, done, undefined, Post, returns, no_value, Post-bind, Post-if}
use chip.Lexer.{
  TokenType, Lexer, max_token, head, advance, skip_while, endl, quote_loop, token_quote, token_of,
  push, keep, skip_comment,
}
use chip.Lexer.Places.{
  IsPart, IsInside, Moves, Moves-refl, Moves-trans, IsInside-Moves, Moves-error, advance-Moves,
  length-advance, skip_while-Moves, if-either,
}

-- What is said of the test for the end of a line: a byte is consumed if there is one.
abbrev pub Ends : Lexer → Bool × Lexer → Type 0
Ends c r = Moves c r.1 × (r.0 ≡ true → length r.1.text ≤ length c.text - 1)

pub endl-Ends : (c : Lexer) → Ends c (endl c)
unfolding endl
endl-Ends c = go c.text refl
  where
    go :
        (t : List ℕ)
        → c.text ≡ t
        → Ends c (elim t [
          | [] ↦ (true, c)
          | x ∷ r ↦
              if x == 10
              then (true, advance c)
              else if x == 59
              then (true, advance (skip_comment c))
              else (false, c)
        ])
    go [] e = (Moves-refl c, λ _. rw e (omega arith))
    go (x ∷ r) e =
        let commented = skip_while-Moves (λ x. not (x == 10)) c in
        if-either (Ends c) (x == 10) (advance-Moves c, λ _. length-advance c)
          (if-either (Ends c) (x == 59)
            (
              Moves-trans commented (advance-Moves (skip_comment c)),
              λ _.
                  omega (
                    arith,
                    length-advance (skip_comment c),
                    commented.same_place,
                    commented.forward,
                  ),
            )
            (Moves-refl c, λ f. cc))

-- What is said of a function that reads a token from `c`.
abbrev pub Reads : Lexer → Option (ℕ × ℕ) × Lexer → Type 0
Reads c (none, d) = Moves c d
Reads c (some b, d) =
    Moves c d
    × (b.0 ≡ c.parse)
    × (c.parse < d.parse)
    × (b.1 ≡ d.parse)
    × (length c.tokens < max_token)

-- A write to `tokens[ntoken]` is one to a command that has room for it.
pub slot-Post :
    {A : Type 0} {P : A → Type 0} (c : Lexer) {k : Outcome A}
    → (length c.tokens < max_token → Post P k)
    → Post P (if ltb (length c.tokens) max_token then k else undefined)
slot-Post {P = P} c {k = k} h = elim (Bool-cases (ltb (length c.tokens) max_token)) [
  | inl t ↦ rw t (h (ground (arith, t)))
  | inr t ↦ rw t no_value
]

pub token_of-Reads : (test : ℕ → Bool) (c : Lexer) → Post (Reads c) (token_of test c)
unfolding token_of
token_of-Reads test c =
    let last = skip_while test c in
    let moved = skip_while-Moves test c in
    slot-Post c (λ room. elim (Bool-cases (c.parse == last.parse)) [
      | inl t ↦ rw t (returns (Moves-trans moved (Moves-error last _)))
      | inr t ↦ rw t (returns (moved, refl, ground (arith, t, moved.forward), refl, room))
    ])

quote_place :
    (quote at : ℕ) (xs : List ℕ)
    → ((quote_loop quote at xs).0 + length (quote_loop quote at xs).1 ≡ at + length xs)
      × (at ≤ (quote_loop quote at xs).0)
unfolding quote_loop
quote_place quote at [] = (refl, omega arith)
quote_place quote at (x ∷ []) = ground arith
quote_place quote at (x ∷ y ∷ r) =
    let one = quote_place quote (at + 1) (y ∷ r) in
    let two = quote_place quote (at + 2) r in ground (arith, one, two)

quote-Moves :
    (quote : ℕ) (c : Lexer)
    → Moves c (let r = quote_loop quote c.parse c.text in record c { text = r.1; parse = r.0 })
quote-Moves quote c =
    let h = quote_place quote c.parse c.text in
    record { same_place = h.0; forward = h.1; same_tokens = refl; same_commands = refl }

pub token_quote-Reads : (c : Lexer) → 0 < length c.text → Post (Reads c) (token_quote c)
unfolding token_quote
token_quote-Reads c some_text =
    let quote = head c.text in
    let first = advance c in
    let r = quote_loop quote first.parse first.text in
    let last = record first { text = r.1; parse = r.0 } in
    let moved : Moves c (advance last) =
      Moves-trans (advance-Moves c) (Moves-trans (quote-Moves quote first) (advance-Moves last)) in
    slot-Post c (λ room.
      Post-if (c.parse == r.0 || not (head r.1 == quote)) (returns (Moves-error c _)) (
        returns (
          moved,
          refl,
          omega (
            arith,
            length-advance c,
            (advance-Moves c).same_place,
            (quote-Moves quote first).forward,
            (advance-Moves last).forward,
          ),
          refl,
          room,
        )))

-- What is said of a function that pushes tokens: its state is inside, and later if it succeeds.
pub record Pushes (n at : ℕ) (r : Bool × Lexer) : Type 0 where
  pub inside : IsInside n r.1
  pub later : r.0 ≡ true → at < r.1.parse

pub push-IsInside :
    (n : ℕ) (type : TokenType) (c : Lexer) (bounds : ℕ × ℕ)
    → IsInside n c
    → length c.tokens < max_token
    → bounds.0 < bounds.1
    → bounds.1 ≤ n
    → IsInside n (push type bounds c)
unfolding push
push-IsInside n type c bounds h room lt le = record {
  place = h.place;
  command = (
    All-append (IsPart n) c.tokens _ h.command.0 (record { nonempty = lt; within = le }, tt),
    omega (
      arith,
      length-append c.tokens
          (record { line = c.line; type = type; start = bounds.0; stop = bounds.1 } ∷ []),
      room,
    ),
  );
  finished = h.finished;
}

pub keep-Pushes :
    (n : ℕ) (type : TokenType) (c : Lexer) (o : Outcome (Option (ℕ × ℕ) × Lexer))
    → IsInside n c
    → Post (Reads c) o
    → Post (Pushes n c.parse) (keep type o)
unfolding keep
keep-Pushes n type c o h post = Post-bind post (λ r. go r.0 r.1)
  where
    go :
        (b : Option (ℕ × ℕ)) (d : Lexer)
        → Reads c (b, d)
        → Post
            (Pushes n c.parse)
            (elim b [ none ↦ done (false, d) | some bounds ↦ done (true, push type bounds d) ])
    go none d m = returns (record { inside = IsInside-Moves h m; later = λ f. cc })
    go (some b) d m =
        let inside = IsInside-Moves h m.0 in
        returns (record {
          inside =
              push-IsInside n type d b inside (rw m.0.same_tokens m.4)
                (omega (arith, m.1, m.2, m.3)) (omega (arith, m.3, inside.place));
          later = λ _. unfold push in m.2;
        })
