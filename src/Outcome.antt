-- ===== src/Outcome.antt =====
-- What a piece of C code does: it ends with a value, its behaviour is undefined, or the rounds that
-- the model grants its loops are used up.
use chip.Prelude.{◌≡◌, ◌≢◌, refl, Bool, true, false, if◌then◌else◌}

pub data Outcome {ℓ} (A : Type ℓ) : Type ℓ where
  done : A → Outcome A
  undefined : Outcome A
  unfinished : Outcome A

infixl 5 ◌>>=◌
abbrev pub ◌>>=◌ {ℓ κ} : {A : Type ℓ} {B : Type κ} → Outcome A → (A → Outcome B) → Outcome B
done a >>= f = f a
undefined >>= f = undefined
unfinished >>= f = unfinished

-- It ends, and `P` holds of its value if its behaviour is defined.
pub data Post {ℓ} {A : Type ℓ} (P : A → Type 0) : Outcome A → Type ℓ where
  returns : {a : A} → P a → Post P (done a)
  no_value : Post P undefined

pub Post-done {ℓ} : {A : Type ℓ} {P : A → Type 0} {a : A} → Post P (done a) → P a
Post-done (returns h) = h

pub Post-ne-unfinished {ℓ} :
    {A : Type ℓ} {P : A → Type 0} {r : Outcome A} → Post P r → r ≢ unfinished
Post-ne-unfinished (returns h) e = cc
Post-ne-unfinished no_value e = cc

pub Post-bind {ℓ κ} :
    {A : Type ℓ} {B : Type κ} {P : A → Type 0} {Q : B → Type 0} {r : Outcome A} {f : A → Outcome B}
    → Post P r
    → ((a : A) → P a → Post Q (f a))
    → Post Q (r >>= f)
Post-bind (returns h) k = k _ h
Post-bind no_value k = no_value

pub Post-map {ℓ} :
    {A : Type ℓ} {P Q : A → Type 0} {r : Outcome A} → Post P r → ((a : A) → P a → Q a) → Post Q r
Post-map (returns h) k = returns (k _ h)
Post-map no_value k = no_value

pub Post-if {ℓ} :
    {A : Type ℓ} {P : A → Type 0} (b : Bool) {m n : Outcome A}
    → Post P m
    → Post P n
    → Post P (if b then m else n)
Post-if true h k = h
Post-if false h k = k

pub Post-case {ℓ} :
    {A : Type ℓ} {P : A → Type 0} (b : Bool) {m n : Outcome A}
    → (b ≡ true → Post P m)
    → (b ≡ false → Post P n)
    → Post P (elim b [ true ↦ m | false ↦ n ])
Post-case true h k = h refl
Post-case false h k = k refl

-- A value that is computed only if a test holds.
pub Post-test {ℓ} :
    {A : Type ℓ} {P : A → Type 0} (b : Bool) (a : A)
    → (b ≡ true → P a)
    → Post P (if b then done a else undefined)
Post-test true a h = returns (h refl)
Post-test false a h = no_value

pub Post-intro {ℓ} :
    {A : Type ℓ} {P : A → Type 0} (r : Outcome A)
    → r ≢ unfinished
    → ((a : A) → r ≡ done a → P a)
    → Post P r
Post-intro (done a) n h = returns (h a refl)
Post-intro undefined n h = no_value
Post-intro unfinished n h = absurd (n refl)

-- `P` holds of the value, if there is one.
pub data Partial {ℓ} {A : Type ℓ} (P : A → Type 0) : Outcome A → Type ℓ where
  value : {a : A} → P a → Partial P (done a)
  no_meaning : Partial P undefined
  no_end : Partial P unfinished

pub Partial-of {ℓ} : {A : Type ℓ} {P : A → Type 0} {r : Outcome A} → Post P r → Partial P r
Partial-of (returns h) = value h
Partial-of no_value = no_meaning

pub Partial-bind {ℓ κ} :
    {A : Type ℓ} {B : Type κ} {P : A → Type 0} {Q : B → Type 0} {r : Outcome A} {f : A → Outcome B}
    → Partial P r
    → ((a : A) → P a → Partial Q (f a))
    → Partial Q (r >>= f)
Partial-bind (value h) k = k _ h
Partial-bind no_meaning k = no_meaning
Partial-bind no_end k = no_end

pub Partial-if {ℓ} :
    {A : Type ℓ} {P : A → Type 0} (b : Bool) {m n : Outcome A}
    → Partial P m
    → Partial P n
    → Partial P (if b then m else n)
Partial-if true h k = h
Partial-if false h k = k
