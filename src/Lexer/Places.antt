-- ===== src/Lexer/Places.antt =====
-- Places in the code: the lexer only moves forward.
use chip.Prelude.{
  ℕ, ◌+◌, ◌-◌, ◌<◌, ◌≤◌, ◌≡◌, refl, ◌∙◌, arith, Bool, true, false, some, List, [], ◌∷◌, length, All,
  if◌then◌else◌, Bool-cases, inl, inr,
}
use chip.Lexer.{Token, Lexer, Error, max_token, advance, skip, skip_while}

-- A token is a nonempty part of a code of `n` bytes.
pub record IsPart (n : ℕ) (t : Token) : Type 0 where
  pub nonempty : t.start < t.stop
  pub within : t.stop ≤ n

-- The tokens of a command: parts of the code, no more than a command has room for.
abbrev pub IsLine : ℕ → List Token → Type 0
IsLine n ts = All (IsPart n) ts × (length ts ≤ max_token)

-- The state of the lexer on a code of `n` bytes.
pub record IsInside (n : ℕ) (c : Lexer) : Type 0 where
  pub place : c.parse + length c.text ≡ n
  pub command : IsLine n c.tokens
  pub finished : All (IsLine n) c.commands

-- From one state to a later one with the same tokens.
pub record Moves (c d : Lexer) : Type 0 where
  pub same_place : d.parse + length d.text ≡ c.parse + length c.text
  pub forward : c.parse ≤ d.parse
  pub same_tokens : d.tokens ≡ c.tokens
  pub same_commands : d.commands ≡ c.commands

pub Moves-refl : (c : Lexer) → Moves c c
Moves-refl c = record {
  same_place = refl;
  forward = omega arith;
  same_tokens = refl;
  same_commands = refl;
}

pub Moves-trans : {c d e : Lexer} → Moves c d → Moves d e → Moves c e
Moves-trans h k = record {
  same_place = k.same_place ∙ h.same_place;
  forward = omega (arith, h.forward, k.forward);
  same_tokens = k.same_tokens ∙ h.same_tokens;
  same_commands = k.same_commands ∙ h.same_commands;
}

pub IsInside-Moves : {n : ℕ} {c d : Lexer} → IsInside n c → Moves c d → IsInside n d
IsInside-Moves {n = n} h m = record {
  place = m.same_place ∙ h.place;
  command = rw m.same_tokens h.command;
  finished = rw m.same_commands h.finished;
}

-- A message moves nothing.
pub Moves-error : (c : Lexer) (e : Error) → Moves c (record c { error = some e })
Moves-error c e = record {
  same_place = refl;
  forward = omega arith;
  same_tokens = refl;
  same_commands = refl;
}

pub advance-Moves : (c : Lexer) → Moves c (advance c)
advance-Moves c = go c.text refl
  where
    go :
        (t : List ℕ)
        → c.text ≡ t
        → Moves c (elim t [ [] ↦ c | x ∷ r ↦ record c { text = r; parse = c.parse + 1 } ])
    go [] e = Moves-refl c
    go (x ∷ r) e = record {
      same_place = rw e (omega arith);
      forward = omega arith;
      same_tokens = refl;
      same_commands = refl;
    }

-- An advance consumes a byte if there is one.
pub length-advance : (c : Lexer) → length (advance c).text ≤ length c.text - 1
length-advance c = go c.text refl
  where
    go :
        (t : List ℕ)
        → c.text ≡ t
        → length
            (elim t as (λ _. Lexer) [
              | [] ↦ c
              | x ∷ r ↦ record c { text = r; parse = c.parse + 1 }
            ]).text
          ≤ length t - 1
    go [] e = rw e (omega arith)
    go (x ∷ r) e = omega arith

pub skip_place :
    (test : ℕ → Bool) (at : ℕ) (xs : List ℕ)
    → ((skip test at xs).0 + length (skip test at xs).1 ≡ at + length xs)
      × (at ≤ (skip test at xs).0)
unfolding skip
skip_place test at [] = (refl, omega arith)
skip_place test at (x ∷ xs) =
    let ih = skip_place test (at + 1) xs in
    elim (Bool-cases (test x)) [
      | inl t ↦ rw t (omega (arith, ih.0), omega (arith, ih.1))
      | inr t ↦ rw t (refl, omega arith)
    ]

pub skip_while-Moves : (test : ℕ → Bool) (c : Lexer) → Moves c (skip_while test c)
unfolding skip_while
skip_while-Moves test c =
    let h = skip_place test c.parse c.text in
    record { same_place = h.0; forward = h.1; same_tokens = refl; same_commands = refl }

-- A choice by a test.
pub if-either :
    {A : Type 0} (P : A → Type 0) (b : Bool) {x y : A} → P x → P y → P (if b then x else y)
if-either P true h k = h
if-either P false h k = k
