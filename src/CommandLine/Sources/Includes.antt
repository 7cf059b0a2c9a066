-- ===== src/CommandLine/Sources/Includes.antt =====
-- What `preprocessing_code` does with a `#`.
use chip.Prelude.{
  ℕ, zero, suc, ◌+◌, ◌≡◌, ◌≢◌, refl, ap, ◌∙◌, sym, arith, true, false, Bool-cases, inl, inr, Option,
  none, some, List, [], ◌∷◌, drop, if◌then◌else◌, ◌==◌,
}
use chip.HashTable.{same}
use chip.HashTable.Scan.{same_sound}
use chip.HashTable.Calls.{Call, exits, done}
use chip.Strings.{position, occurs}
use chip.CommandLine.Sources.{include, included, preprocessing_code}

position-none : (code : List ℕ) (c : ℕ) → c ≢ 0 → occurs c code ≡ false → position code c ≡ none
unfolding position
position-none [] c n h = ground arith
position-none (x ∷ code) c n h = ground (arith, position-none code c n)

position-some :
    (code : List ℕ) (c : ℕ) → occurs c code ≡ true → (i : ℕ) × (position code c ≡ some i)
unfolding position
position-some [] c h = cc
position-some (x ∷ code) c h = elim (Bool-cases (x == c)) [
  | inl e ↦ (0, rw e refl)
  | inr e ↦
      let later : occurs c code ≡ true = ground arith in
      let (i, found) = position-some code c later in (i + 1, rw (e, found) refl)
]

-- A text that is "#include" has nothing behind these letters.
drop_eight : (l : List ℕ) → same l include ≡ true → (n : ℕ) → n ≡ 8 → drop n l ≡ []
drop_eight l h n e = ap (λ n. drop n l) e ∙ ap (drop 8) (same_sound l include h)

drop-nil : (n : ℕ) → drop {A = ℕ} n [] ≡ []
drop-nil zero = refl
drop-nil (suc n) = refl

drop-drop : (l : List ℕ) (n m : ℕ) → drop (n + m) l ≡ drop m (drop n l)
drop-drop l zero m = ap (λ k. drop k l) (omega arith)
drop-drop [] (suc n) m = drop-nil (suc n + m) ∙ sym (drop-nil m)
drop-drop (x ∷ l) (suc n) m =
    let e : suc n + m ≡ suc (n + m) = omega arith in ap (λ k. drop k (x ∷ l)) e ∙ drop-drop l n m

position-nil : position [] 34 ≡ none
unfolding position
position-nil = refl

-- Whatever stands behind the `#`, the process ends.
included-exits :
    (load next : List ℕ → Call (List ℕ)) (code : List ℕ) (prest : ℕ)
    → included load next code prest ≡ exits
unfolding included
included-exits load next code prest = elim (Bool-cases (same (drop prest code) include)) [
  | inr other ↦ rw other refl
  | inl alike ↦
      let behind : drop (prest + 8) code ≡ [] =
        drop-drop code prest 8 ∙ drop_eight (drop prest code) alike 8 refl in
      rw (alike, behind, position-nil) refl
]

-- With one round or more, `preprocessing_code` leaves a code without `#` as it is; of any other it ends the process,
-- whatever `#include` names, so that no file is ever included.
pub preprocessing_code_lem :
    (load : List ℕ → Call (List ℕ)) (fuel : ℕ) (code : List ℕ)
    → preprocessing_code load (suc fuel) code ≡ (if occurs 35 code then exits else done code)
unfolding preprocessing_code
preprocessing_code_lem load fuel code =
    let outcome : Option ℕ → Call (List ℕ) = λ o. elim o [
      | none ↦ done code
      | some prest ↦ included load (preprocessing_code load fuel) code prest
    ] in
    elim (Bool-cases (occurs 35 code)) [
      | inr absent ↦
          ap outcome (position-none code 35 (λ e. omega arith) absent)
          ∙ ap (λ b. if b then exits else done code) (sym absent)
      | inl present ↦
          let (i, found) = position-some code 35 present in
          ap outcome found
          ∙ included-exits load (preprocessing_code load fuel) code i
          ∙ ap (λ b. if b then exits else done code) (sym present)
    ]
