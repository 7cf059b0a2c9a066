-- ===== src/HashTable/Calls.antt =====
-- What a call does that can end the process, as in core/rbhash.c and core/main.c: it ends with a value, it ends the process by `exit(1)`, or its
-- behaviour is undefined.
use mathlib.Core.Path.{sym, subst}
use chip.Prelude.{
  ℕ, ◌≡◌, refl, List, get_elem?, none, some, Option, Bool, true, false, if◌then◌else◌,
}

pub data Call {ℓ} (A : Type ℓ) : Type ℓ where
  exits undefined : Call A
  done : A → Call A

infixl 5 ◌>>=◌
abbrev pub ◌>>=◌ {ℓ κ} : {A : Type ℓ} {B : Type κ} → Call A → (A → Call B) → Call B
exits >>= next = exits
undefined >>= next = undefined
done a >>= next = next a

-- A read of an array.
abbrev pub at {ℓ κ} : {A : Type ℓ} {B : Type κ} → List A → ℕ → (A → Call B) → Call B
at xs i f = elim (get_elem? xs i) [ none ↦ undefined | some a ↦ f a ]

-- It ends with a value of which `P` holds.
pub data Ends {ℓ} {A : Type ℓ} (P : A → Type 0) : Call A → Type ℓ where
  ends : {a : A} → P a → Ends P (done a)

module _ {ℓ κ} {A : Type ℓ} {B : Type κ} {Q : B → Type 0} where
  pub Ends-bind :
      {P : A → Type 0} {c : Call A} {next : A → Call B}
      → Ends P c
      → ((a : A) → P a → Ends Q (next a))
      → Ends Q (c >>= next)
  Ends-bind (ends holds) after = after _ holds

  pub Ends-at :
      (xs : List A) (i : ℕ) {a : A} (f : A → Call B)
      → get_elem? xs i ≡ some a
      → Ends Q (f a)
      → Ends Q (at xs i f)
  Ends-at xs i f e h = subst (λ o. Ends Q (elim o [ none ↦ undefined | some a ↦ f a ])) (sym e) h

  pub Ends-option :
      (o : Option A) {c : Call B} {f : A → Call B}
      → (o ≡ none → Ends Q c)
      → ((a : A) → o ≡ some a → Ends Q (f a))
      → Ends Q (elim o [ none ↦ c | some a ↦ f a ])
  Ends-option none missing there = missing refl
  Ends-option (some a) missing there = there a refl

module _ {ℓ} {A : Type ℓ} {P : A → Type 0} where
  pub Ends-map : {Q : A → Type 0} {c : Call A} → Ends P c → ((a : A) → P a → Q a) → Ends Q c
  Ends-map (ends holds) weaken = ends (weaken _ holds)

  pub Ends-case :
      (b : Bool) {c d : Call A}
      → (b ≡ true → Ends P c)
      → (b ≡ false → Ends P d)
      → Ends P (elim b [ true ↦ c | false ↦ d ])
  Ends-case true yes_there no_there = yes_there refl
  Ends-case false yes_there no_there = no_there refl

  pub Ends-if :
      (b : Bool) {c d : Call A}
      → (b ≡ true → Ends P c)
      → (b ≡ false → Ends P d)
      → Ends P (if b then c else d)
  Ends-if true yes_there no_there = yes_there refl
  Ends-if false yes_there no_there = no_there refl
