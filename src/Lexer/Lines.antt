-- ===== src/Lexer/Lines.antt =====
-- The parts of a line, and the loops over the lines.
use mathlib.Core.Bool.{◌||◌}
use chip.Prelude.{
  ℕ, zero, suc, ◌+◌, ◌<◌, ◌≤◌, ◌≡◌, ◌⊎◌, refl, ap, arith, Bool, true, false, Option, none, some,
  List, [], ◌∷◌, length, All-append, ◌==◌, if◌then◌else◌, inl, inr,
}
use chip.Outcome.{done, ◌>>=◌, Post, returns, Post-bind, Post-map, Post-if, Post-case}
use chip.Lexer.{
  TokenType, Lexer, Libc, Error, max_token, head, advance, endl, push, tk_literal_num,
  tk_literal_char, tk_literal_str, tk_name, tk_label, tk_auto, wrong_separator, wrong_arg_separator,
  slot, prefix_type, token_name_next, token_integer, literal, arg_next, is_name, is_integer,
  is_space, skip_space, labels, arguments, lexcmd_new, lexer_line, lexer_loop, lexer,
}
use chip.Lexer.Inside.{
  endl-Ends, Reads, token_of-Reads, token_quote-Reads, Pushes, push-IsInside, keep-Pushes,
  slot-Post,
}
use chip.Lexer.Places.{
  IsInside, IsLine, Moves-trans, Moves-error, IsInside-Moves, advance-Moves, skip_while-Moves,
}

wrong-Pushes :
    (n at : ℕ) (e : Error) (c : Lexer)
    → IsInside n c
    → Pushes n at (false, record c { error = some e })
wrong-Pushes n at e c h = record { inside = IsInside-Moves h (Moves-error c e); later = λ f. cc }

Pushes-weaken : {n a b : ℕ} {r : Bool × Lexer} → a ≤ b → Pushes n b r → Pushes n a r
Pushes-weaken le h = record { inside = h.inside; later = λ t. omega (arith, le, h.later t) }

module _ (libc : Libc) (n : ℕ) where
  token_name_next-Reads : (c : Lexer) → Post (Reads c) (token_name_next libc c)
  unfolding token_name_next
  token_name_next-Reads c = Post-if _ (returns (Moves-error c _)) (token_of-Reads is_name c)

  token_integer-Reads : (c : Lexer) → Post (Reads c) (token_integer libc c)
  unfolding token_integer
  token_integer-Reads c = Post-if _ (returns (Moves-error c _)) (token_of-Reads is_integer c)

  literal-Pushes :
      (c : Lexer) → 0 < length c.text → IsInside n c → Post (Pushes n c.parse) (literal libc c)
  unfolding literal
  literal-Pushes c some_text h =
      let quote = token_quote-Reads c some_text in
      Post-if _ (keep-Pushes n tk_literal_num c _ h (token_integer-Reads c)) (
        Post-if _ (keep-Pushes n tk_literal_char c _ h quote) (
          Post-if _ (keep-Pushes n tk_literal_str c _ h quote) (
            Post-if _ (keep-Pushes n tk_name c _ h (token_name_next-Reads c))
              (returns (wrong-Pushes n c.parse _ c h)))))

  -- A token of one byte.
  single :
      (type : TokenType) (c : Lexer) (x : ℕ) (r : List ℕ)
      → c.text ≡ x ∷ r
      → IsInside n c
      → length c.tokens < max_token
      → IsInside n (push type (c.parse, c.parse + 1) (record c { text = r; parse = c.parse + 1 }))
  single type c x r e h room =
      let place : c.parse + 1 + length r ≡ n = omega (arith, h.place, ap length e) in
      push-IsInside n type _ _
        (record { place = place; command = h.command; finished = h.finished }) room (omega arith)
        (omega arith)

  arg_next-Pushes :
      (t : List ℕ) (c : Lexer)
      → c.text ≡ t
      → IsInside n c
      → Post (Pushes n c.parse) (arg_next libc t c)
  unfolding arg_next push
  arg_next-Pushes [] c e h = returns (wrong-Pushes n c.parse _ c h)
  arg_next-Pushes (x ∷ r) c e h =
      Post-if (x == 63)
        (slot-Post c (λ room.
          returns (record { inside = single tk_auto c x r e h room; later = λ _. omega arith })))
        (go (prefix_type x) (λ type room.
          Post-map
            (arg_next-Pushes r
              (push type (c.parse, c.parse + 1) (record c { text = r; parse = c.parse + 1 })) refl
              (single type c x r e h room))
            (λ s. Pushes-weaken (omega arith))))
    where
      go :
          (o : Option TokenType)
          → ((type : TokenType)
              → length c.tokens < max_token
              → Post (Pushes n c.parse) (
                  arg_next libc r (
                    push type (c.parse, c.parse + 1) (record c { text = r; parse = c.parse + 1 }))))
          → Post (Pushes n c.parse) (elim o [
            | none ↦ literal libc c
            | some type ↦ slot c (
                arg_next libc r
                  (push type (c.parse, c.parse + 1) (record c { text = r; parse = c.parse + 1 })))
          ])
      go none ih = literal-Pushes c (rw e (omega arith)) h
      go (some type) ih = slot-Post c (ih type)

  labels-Pushes :
      (fuel : ℕ) (c : Lexer)
      → length c.text < fuel
      → IsInside n c
      → Post (Pushes n c.parse) (labels libc fuel c)
  unfolding labels
  labels-Pushes zero c enough h = absurd (omega arith)
  labels-Pushes (suc fuel) c enough h = slot-Post c (λ room.
      Post-bind (token_name_next-Reads c) (λ r. go room (λ d. labels-Pushes fuel d) r.0 r.1))
    where
      go :
          length c.tokens < max_token
          → ((d : Lexer)
              → length d.text < fuel
              → IsInside n d
              → Post (Pushes n d.parse) (labels libc fuel d))
          → (o : Option (ℕ × ℕ)) (d : Lexer) → Reads c (o, d)
          → Post (Pushes n c.parse) (elim o [
            | none ↦ done (false, d)
            | some bounds ↦ elim (head d.text == 58) [
              | true ↦ labels libc fuel (skip_space (advance (push tk_label bounds d)))
              | false ↦
                  if is_space (head d.text) || head d.text == 10 || head d.text == 59
                  then done (true, push tk_name bounds d)
                  else done (false, record d { error = some wrong_separator })
            ]
          ])
      go room ih none d m = returns (record { inside = IsInside-Moves h m; later = λ f. cc })
      go room ih (some b) d m =
          let inside = IsInside-Moves h m.0 in
          let pushed : (push tk_label b d).parse ≡ d.parse = unfold push in refl in
          let later : c.parse < (push tk_name b d).parse = unfold push in m.2 in
          let named : (type : TokenType) → IsInside n (push type b d) = λ type.
            push-IsInside n type d b inside (rw m.0.same_tokens room) (omega (arith, m.1, m.2, m.3))
              (omega (arith, m.3, inside.place)) in
          let colon = advance (push tk_label b d) in
          let moved =
            Moves-trans (advance-Moves (push tk_label b d)) (skip_while-Moves is_space colon) in
          let last = IsInside-Moves (named tk_label) moved in
          Post-case (head d.text == 58)
            (λ _.
              Post-map
                (ih (skip_space colon)
                  (omega (arith, m.2, pushed, moved.forward, last.place, h.place)) last)
                (λ s. Pushes-weaken (omega (arith, m.2, pushed, moved.forward))))
            (λ _.
              Post-if _ (returns (record { inside = named tk_name; later = λ _. later }))
                (returns (wrong-Pushes n c.parse _ d inside)))

  -- As `Pushes`, when nothing need be consumed.
  record Stays (at : ℕ) (r : Bool × Lexer) : Type 0 where
    inside : IsInside n r.1
    later : r.0 ≡ true → at ≤ r.1.parse

  arguments-Stays :
      (fuel : ℕ) (c : Lexer)
      → length c.text < fuel
      → IsInside n c
      → Post (Stays c.parse) (arguments libc fuel c)
  unfolding arguments
  arguments-Stays zero c enough h = absurd (omega arith)
  arguments-Stays (suc fuel) c enough h =
      let spaced = skip_while-Moves is_space c in
      let begin = endl (skip_space c) in
      let ended = endl-Ends (skip_space c) in
      let begun = Moves-trans spaced ended.0 in
      let inside = IsInside-Moves h begun in
      Post-case begin.0 (λ _. returns (record { inside = inside; later = λ _. begun.forward }))
        (λ _.
          Post-bind (arg_next-Pushes begin.1.text begin.1 refl inside)
            (λ r k. go r.0 r.1 (λ d. arguments-Stays fuel d) (Pushes-weaken begun.forward k)))
    where
      go :
          (b : Bool) (d : Lexer)
          → ((d' : Lexer)
              → length d'.text < fuel
              → IsInside n d'
              → Post (Stays d'.parse) (arguments libc fuel d'))
          → Pushes n c.parse (b, d)
          → Post (Stays c.parse) (elim b [
            | false ↦ done (false, d)
            | true ↦
                (let after = endl d in
                  elim after.0 [
                    | true ↦ done (true, after.1)
                    | false ↦ elim (head after.1.text == 44) [
                      | true ↦ arguments libc fuel (advance after.1)
                      | false ↦ done (false, record after.1 { error = some wrong_arg_separator })
                    ]
                  ])
          ])
      go false d ih k = returns (record { inside = k.inside; later = λ f. cc })
      go true d ih k =
          let after = endl d in
          let ended = endl-Ends d in
          let inside = IsInside-Moves k.inside ended.0 in
          let late : c.parse < after.1.parse = omega (arith, k.later refl, ended.0.forward) in
          Post-case after.0
            (λ _. returns (record { inside = inside; later = λ _. omega (arith, late) }))
            (λ _.
              Post-case (head after.1.text == 44)
                (λ _.
                  let comma = advance-Moves after.1 in
                  let last = IsInside-Moves inside comma in
                  Post-map
                    (ih (advance after.1) (omega (arith, late, comma.forward, last.place, h.place))
                      last)
                    (λ s q. record {
                      inside = q.inside;
                      later = λ t. omega (arith, q.later t, late, comma.forward);
                    }))
                (λ _. returns (record {
                  inside = IsInside-Moves inside (Moves-error after.1 _);
                  later = λ f. cc;
                })))

  lexer_line-Pushes :
      (c : Lexer) → 0 < length c.text → IsInside n c → Post (Pushes n c.parse) (lexer_line libc c)
  unfolding lexer_line
  lexer_line-Pushes c some_text h =
      let spaced = skip_while-Moves is_space c in
      let begin = endl (skip_space c) in
      let ended = endl-Ends (skip_space c) in
      let begun = Moves-trans spaced ended.0 in
      let inside = IsInside-Moves h begun in
      let new = lexcmd_new libc begin.1 in
      let created : IsInside n (record new.1 { tokens = [] }) =
        unfold lexcmd_new in
        record { place = inside.place; command = (tt, omega arith); finished = inside.finished } in
      Post-case begin.0
        (λ t. returns (record {
          inside = inside;
          later = λ _. omega (
            arith,
            ended.1 t,
            spaced.forward,
            h.place,
            inside.place,
            (IsInside-Moves h spaced).place,
          );
        }))
        (λ _.
          Post-case new.0
            (λ _.
              Post-bind
                (labels-Pushes (suc (length new.1.text)) (record new.1 { tokens = [] })
                  (omega arith) created)
                (λ r k.
                  Post-case r.0
                    (λ t.
                      Post-bind (arguments-Stays (suc (length r.1.text)) r.1 (omega arith) k.inside)
                        (λ s q.
                          Post-case s.0
                            (λ u. returns (record {
                              inside = record {
                                place = q.inside.place;
                                command = q.inside.command;
                                finished =
                                    All-append (IsLine n) s.1.commands _ q.inside.finished
                                      (q.inside.command, tt);
                              };
                              later = λ _. omega (arith, begun.forward, k.later t, q.later u);
                            }))
                            (λ f. returns (record { inside = q.inside; later = λ x. cc }))))
                    (λ f. returns (record { inside = k.inside; later = λ x. cc }))))
            (λ _. returns (record {
              inside = record {
                place = inside.place;
                command = inside.command;
                finished = inside.finished;
              };
              later = λ f. cc;
            })))

  -- At the end of the lexer: if it succeeds, the whole text is read.
  pub record IsLexed (r : Bool × Lexer) : Type 0 where
    pub inside : IsInside n r.1
    pub whole : (r.0 ≡ false) ⊎ (r.1.text ≡ [])

  lexer_loop-IsLexed :
      (fuel : ℕ) (c : Lexer)
      → length c.text < fuel
      → IsInside n c
      → Post IsLexed (lexer_loop libc fuel c)
  unfolding lexer_loop
  lexer_loop-IsLexed zero c enough h = absurd (omega arith)
  lexer_loop-IsLexed (suc fuel) c enough h = go c.text refl (λ d. lexer_loop-IsLexed fuel d)
    where
      go :
          (t : List ℕ)
          → c.text ≡ t
          → ((d : Lexer)
              → length d.text < fuel
              → IsInside n d
              → Post IsLexed (lexer_loop libc fuel d))
          → Post IsLexed (elim t [
            | [] ↦ done (true, c)
            | x ∷ xs ↦ lexer_line libc c >>= λ r. elim r.0 [
              | false ↦ done (false, r.1)
              | true ↦ lexer_loop libc fuel (record r.1 { line = r.1.line + 1 })
            ]
          ])
      go [] e ih = returns (record { inside = h; whole = inr e })
      go (x ∷ xs) e ih = Post-bind (lexer_line-Pushes c (rw e (omega arith)) h) (λ r k.
          Post-case r.0
            (λ t.
              ih (record r.1 { line = r.1.line + 1 })
                (omega (arith, k.later t, k.inside.place, h.place))
                (record {
                  place = k.inside.place;
                  command = k.inside.command;
                  finished = k.inside.finished;
                }))
            (λ f. returns (record { inside = k.inside; whole = inl refl })))

-- The state that `chip32_compiler_build` starts the lexer in, with room for `size` commands.
abbrev pub begin_state : List ℕ → ℕ → Lexer
begin_state code size = record {
  text = code;
  parse = 0;
  line = 1;
  commands = [];
  cmdsize = size;
  tokens = [];
  error = none;
}

-- The lexer ends on every code, or writes beyond the tokens of a command. When it ends, every command it made
-- has at most 64 tokens, each a nonempty part of the code, and if it succeeds it has read the whole code.
pub lexer-IsLexed :
    (libc : Libc) (code : List ℕ) (size : ℕ)
    → Post (IsLexed libc (length code)) (lexer libc (begin_state code size))
unfolding lexer
lexer-IsLexed libc code size =
    lexer_loop-IsLexed libc (length code) (suc (length code)) (begin_state code size) (omega arith)
      (record { place = omega arith; command = (tt, omega arith); finished = tt })
