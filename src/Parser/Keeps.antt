-- ===== src/Parser/Keeps.antt =====
-- Labels and operands: reading them makes no command and leaves the code.
use chip.Prelude.{
  ℕ, suc, zero, ◌+◌, ◌%◌, ◌≡◌, refl, Bool, Option, none, some, List, length, leb, get_elem?,
}
use chip.Command.{Command}
use chip.Word.{word_mod}
use chip.Outcome.{Outcome, Post, returns, Post-if}
use chip.Outcome.Post.{no_value as nothing}
use chip.Lexer.{Token}
use chip.Parser.{
  Symbols, Library, Parser, Atom, number, name, neither, RightValue, typed, itself, no_value,
  add_label, parse_label, is_label, missing, left_operand_at, left_type, parse_lvalue,
  right_operand_at, right_value_of, parse_rvalue, name_of, atom_of, DeclaredType, dec_type_label,
  dec_type_literal_num,
}

pub Post-option {ℓ κ} :
    {A : Type ℓ} {B : Type κ} {P : B → Type 0} (o : Option A) {r : Outcome B} {f : A → Outcome B}
    → Post P r
    → ((a : A) → Post P (f a))
    → Post P (elim o [ none ↦ r | some a ↦ f a ])
Post-option none h k = h
Post-option (some a) h k = k a

pub Post-atom :
    {B : Type 0} {P : B → Type 0} (a : Atom) {x y z : Outcome B}
    → Post P x
    → Post P y
    → Post P z
    → Post P (elim a [ number ↦ x | name ↦ y | neither ↦ z ])
Post-atom number h k l = h
Post-atom name h k l = k
Post-atom neither h k l = l

Post-right :
    {B : Type 0} {P : B → Type 0} (v : RightValue) {f : ℕ → Outcome B} {x y : Outcome B}
    → ((n : ℕ) → Post P (f n))
    → Post P x
    → Post P y
    → Post P (elim v [ typed n ↦ f n | itself ↦ x | no_value ↦ y ])
Post-right (typed n) h k l = h n
Post-right itself h k l = k
Post-right no_value h k l = l

Post-declared :
    {B : Type 0} {P : B → Type 0} (d : DeclaredType) {x y : Outcome B}
    → Post P x
    → Post P y
    → Post P (elim d [ dec_type_label ↦ x | dec_type_literal_num ↦ y ])
Post-declared dec_type_label h k = h
Post-declared dec_type_literal_num h k = k

module _ {S : Type 0} (symbols : Symbols S) (library : Library) where
  -- What they leave: the commands made so far, and the code.
  abbrev pub kept : Parser S → List Command × List ℕ
  kept c = (c.mc, c.code)

  abbrev pub Keeps : {A : Type 0} → Parser S → A × Parser S → Type 0
  Keeps c r = kept r.1 ≡ kept c

  pub parse_label-Keeps :
      (ts : List Token) (c : Parser S) → Post (Keeps c) (parse_label symbols library ts c)
  unfolding parse_label add_label
  parse_label-Keeps ts c = Post-option (get_elem? ts 0) nothing (λ t.
      Post-if (is_label symbols library t.type)
        (Post-if library.new_declared
          (Post-option
            (symbols.add_unique (name_of t)
              (record { type = dec_type_label; addr = c.cmdcount % word_mod }) c.declare)
            (returns refl) (λ s. returns refl))
          nothing)
        (returns refl))

  pub missing-Keeps :
      (ts : List Token) (i : ℕ) (c : Parser S) → Post (Keeps c) (missing symbols library ts i c)
  unfolding missing
  missing-Keeps ts zero c = nothing
  missing-Keeps ts (suc i) c = Post-option (get_elem? ts i) nothing (λ t. returns refl)

  left_operand_at-Keeps :
      (ic flags : ℕ) (t : Token) (c : Parser S)
      → Post (Keeps c) (left_operand_at symbols library ic flags t c)
  unfolding left_operand_at
  left_operand_at-Keeps ic flags t c =
      Post-atom (atom_of t.type) (returns refl)
        (Post-option (symbols.find (name_of t) c.declare) nothing
          (λ d. Post-declared d.type (returns refl) (returns refl)))
        (returns refl)

  pub parse_lvalue-Keeps :
      (ts : List Token) (ic flags : ℕ) (c : Parser S)
      → Post (Keeps c) (parse_lvalue symbols library ts ic flags c)
  unfolding parse_lvalue
  parse_lvalue-Keeps ts ic flags c = Post-if (leb (length ts) ic) (missing-Keeps ts ic c) (
      Post-option (get_elem? ts ic) nothing (λ t.
        Post-option (left_type t.type) (returns refl) (λ type.
          Post-if (leb (length ts) (ic + 1)) (missing-Keeps ts (ic + 1) c) (
            Post-option (get_elem? ts (ic + 1)) nothing
              (λ u. left_operand_at-Keeps (ic + 1) _ u c)))))

  right_operand_at-Keeps :
      (ic flags : ℕ) (t : Token) (c : Parser S)
      → Post (Keeps c) (right_operand_at symbols library ic flags t c)
  unfolding right_operand_at
  right_operand_at-Keeps ic flags t c =
      Post-atom (atom_of t.type) (returns refl)
        (Post-option (symbols.find (name_of t) c.declare) (returns refl) (λ d. returns refl))
        (returns refl)

  pub parse_rvalue-Keeps :
      (ts : List Token) (ic flags : ℕ) (second : Bool) (c : Parser S)
      → Post (Keeps c) (parse_rvalue symbols library ts ic flags second c)
  unfolding parse_rvalue
  parse_rvalue-Keeps ts ic flags second c = Post-if (leb (length ts) ic) (missing-Keeps ts ic c) (
      Post-option (get_elem? ts ic) nothing (λ t.
        Post-right (right_value_of t.type)
          (λ type. Post-if (leb (length ts) (ic + 1)) (missing-Keeps ts (ic + 1) c) (
            Post-option (get_elem? ts (ic + 1)) nothing
              (λ u. right_operand_at-Keeps (ic + 1) _ u c)))
          (right_operand_at-Keeps ic flags t c) (returns refl)))
