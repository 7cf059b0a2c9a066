-- ===== src/Parser/Lines.antt =====
-- The commands that `a32_parse` makes of the lines of a program without declarations.
use mathlib.Core.Path.{sym, ◌∙◌, subst}
use mathlib.Core.List.{append_assoc, append-nil}
use chip.Prelude.{
  ℕ, ◌-◌, ◌≡◌, ◌≢◌, refl, ap, Bool, true, false, Option, none, some, List, [], ◌∷◌, ◌++◌, All, take,
  drop, get_elem?,
}
use chip.Command.{Command}
use chip.Outcome.{
  Outcome, done, undefined, unfinished, Post, returns, no_value, Post-bind, Post-map, ◌>>=◌,
}
use chip.Lexer.{Token}
use chip.Parser.{Symbols, Library, Parser, at_token, unknow_command}
use chip.Parser.Commands.{Action, declare}
use chip.Parser.Declare.{decline}
use chip.Parser.Dispatch.{run_action, name_index, parse_loop}
use chip.Parser.Emits.{Emits, action_code, run_action-Emits}

at_token_lem :
    {A : Type 0} (ts : List Token) (i : ℕ) (k : Token → Outcome A) {t : Token}
    → get_elem? ts i ≡ some t
    → at_token ts i k ≡ k t
at_token_lem ts i k e = ap (λ o. elim o [ none ↦ undefined | some t ↦ k t ]) e

at_token-Post :
    {A : Type 0} {P : A → Type 0} (ts : List Token) (i : ℕ) {k : Token → Outcome A}
    → ((t : Token) → get_elem? ts i ≡ some t → Post P (k t))
    → Post P (at_token ts i k)
at_token-Post {P = P} ts i {k} h = go (get_elem? ts i) refl
  where
    go :
        (o : Option Token)
        → get_elem? ts i ≡ o
        → Post P (elim o [ none ↦ undefined | some t ↦ k t ])
    go none e = no_value
    go (some t) e = h t e

module _ {S : Type 0} (symbols : Symbols S) (library : Library)
    (find_action : List ℕ → Outcome (Option Action)) where
  -- What the search for the name of a line gives: the line's first token, or its second behind a label.
  abbrev pub line_action : List ℕ → List Token → Outcome (Option Action)
  line_action code ts = at_token ts 0 (λ first.
      at_token ts (name_index symbols library first)
        (λ t. find_action (take (t.stop - t.start) (drop t.start code))))

  -- The commands of some lines, in their order: each has the code of its line's action.
  pub data Commands (code : List ℕ) : List (List Token) → List Command → Type 0 where
    none_left : Commands code [] []
    line_of :
        {ts : List Token} {lines : List (List Token)} {m : Command} {l : List Command} (a : Action)
        → line_action code ts ≡ done (some a)
        → m.code ≡ action_code a
        → Commands code lines l
        → Commands code (ts ∷ lines) (m ∷ l)

  -- Behind the commands that were there, there are those of the lines.
  abbrev pub OneEach : List (List Token) → Parser S → Bool × Parser S → Type 0
  OneEach lines c r =
      r.0 ≡ true → (l : List Command) × ((r.1.mc ≡ c.mc ++ l) × Commands c.code lines l)

  abbrev Undeclared : List ℕ → List (List Token) → Type 0
  Undeclared code = All (λ ts. line_action code ts ≢ done (some declare))

  abbrev Rest : List ℕ → List (List Token) → Type 0
  Rest code lines =
      (d : Parser S)
      → d.code ≡ code
      → Post (OneEach lines d) (parse_loop symbols library find_action lines d)

  after :
      (a : Action) (ts : List Token) (lines : List (List Token)) (c : Parser S)
      (r : Bool × Parser S)
      → Rest c.code lines
      → line_action c.code ts ≡ done (some a)
      → Emits symbols library (action_code a) c r
      → Post
          (OneEach (ts ∷ lines) c)
          (elim r.0 [ true ↦ parse_loop symbols library find_action lines r.1 | false ↦ done r ])
  after a ts lines c (false, d) rest found e = returns (λ t. cc)
  after a ts lines c (true, d) rest found e =
      let (m, made, same_code, same_text) = e refl in
      Post-map (rest d same_text) (λ r each t.
        let (l, (more, follow)) = each t in
        (
          m ∷ l,
          (
            more ∙ ap (λ x. x ++ l) made ∙ append_assoc c.mc (m ∷ []) l,
            line_of a found same_code (subst (λ x. Commands x lines l) same_text follow),
          ),
        ))

  found :
      (ts : List Token) (lines : List (List Token)) (c : Parser S) (t : Token)
      (o : Outcome (Option Action))
      → Rest c.code lines
      → line_action c.code ts ≡ o
      → o ≢ unfinished
      → o ≢ done (some declare)
      → Post (OneEach (ts ∷ lines) c) (
          o >>= λ fn. elim fn [
            | none ↦ decline symbols library unknow_command t c
            | some a ↦ run_action symbols library a ts c >>= λ r. elim r.0 [
              | true ↦ parse_loop symbols library find_action lines r.1
              | false ↦ done r
            ]
          ])
  found ts lines c t undefined rest e u n = no_value
  found ts lines c t unfinished rest e u n = absurd (u refl)
  found ts lines c t (done none) rest e u n = returns (λ t. cc)
  found ts lines c t (done (some a)) rest e u n =
      Post-bind (run_action-Emits symbols library a ts c (λ k. n (ap (λ x. done (some x)) k)))
        (λ r h. after a ts lines c r rest e h)

  -- If the search for actions always ends and no line's name is that of `action_declare`, `a32_parse` ends or is
  -- undefined; where its result is 0, it has made one command for each line behind those that were there, in the order
  -- of the lines, and each has the code that belongs to the action that the search gives for its line's name.
  pub parse_loop-OneEach :
      (lines : List (List Token)) (c : Parser S)
      → ((k : List ℕ) → find_action k ≢ unfinished)
      → Undeclared c.code lines
      → Post (OneEach lines c) (parse_loop symbols library find_action lines c)
  unfolding parse_loop
  parse_loop-OneEach [] c ending undeclared =
      returns (λ t. ([], (sym (append-nil c.mc), none_left)))
  parse_loop-OneEach (ts ∷ lines) c ending undeclared = at_token-Post ts 0 (λ first e.
      at_token-Post ts (name_index symbols library first) (λ t h.
        let k : List ℕ = take (t.stop - t.start) (drop t.start c.code) in
        let same : line_action c.code ts ≡ find_action k =
          at_token_lem ts 0 _ e ∙ at_token_lem ts _ _ h in
        found ts lines c t (find_action k)
          (λ d g.
            parse_loop-OneEach lines d ending
              (subst (λ x. Undeclared x lines) (sym g) undeclared.1))
          same (ending k) (λ g. undeclared.0 (same ∙ g))))
