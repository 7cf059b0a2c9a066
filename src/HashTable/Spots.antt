-- ===== src/HashTable/Spots.antt =====
-- Where `rbhash_find` looks for an element, and the slots of a table whose elements all stand there.
use mathlib.Core.Path.{sym, ◌∙◌, subst}
use native.Mathlib.Nat.{mod-add-mod, mod-eq_of_lt}
use chip.Prelude.{
  ℕ, ◌+◌, ◌%◌, ◌^◌, ◌≤◌, ◌<◌, ◌≡◌, ap, ◌⊎◌, inl, inr, arith, List, false, some, length, get_elem?,
  set, get_elem?-set_self, get_elem?-set_ne, if◌then◌else◌, ltb, eq-cases, lt-cases,
}
use chip.Word.{word_mod}
use chip.HashTable.{Element, is_empty}

pub raised : (md d : ℕ) → let r = if ltb md d then d else md in (md ≤ r) × (d ≤ r)
raised md d = (ground arith, ground arith)

pub raised-lt : (md d : ℕ) → md < word_mod → d < word_mod → (if ltb md d then d else md) < word_mod
raised-lt md d h l = ground arith

module _ {D : Type 0} where
  -- A key buffer of `room` bytes or more.
  abbrev pub Fits : ℕ → Element D → Type 0
  Fits room e = (e.len ≤ room) × (room ≤ length e.key)

  -- `rbhash_find` scans every slot, or it comes to slot `s` after `j` others.
  abbrev pub Near : ℕ → ℕ → ℕ → Element D → Type 0
  Near m max_distance s e =
      (m ≤ max_distance + 1)
      ⊎ ((j : ℕ) × ((e.hash + j) % m ≡ s) × (j ≤ e.distance) × (e.distance ≤ max_distance))

  abbrev pub Spots : ℕ → ℕ → ℕ → List (Element D) → Type 0
  Spots m room max_distance cells =
      (s : ℕ) (e : Element D)
      → get_elem? cells s ≡ some e
      → Fits room e × (is_empty e ≡ false → Near m max_distance s e)

  pub Near-mono : (m a b s : ℕ) (e : Element D) → a ≤ b → Near m a s e → Near m b s e
  Near-mono m a b s e h (inl n) = inl (omega arith)
  Near-mono m a b s e h (inr (j, p, q, r)) = inr (j, p, q, omega arith)

  -- One slot further, at the distance that `++distance` stores.
  pub Near-next :
      (m md s : ℕ) (e : Element D)
      → m ≤ 2 ^ 31
      → Near m md s e
      → let d = (e.distance + 1) % word_mod in
        Near m (if ltb md d then d else md) ((s + 1) % m) (record e { distance = d })
  Near-next m md s e h (inl n) =
      let up = raised md ((e.distance + 1) % word_mod) in inl (omega (arith, up.0))
  Near-next m md s e h (inr (j, p, q, r)) =
      let up = raised md ((e.distance + 1) % word_mod) in
      elim (lt-cases (e.distance + 1) word_mod) [
        | inl small ↦
            let same : (e.distance + 1) % word_mod ≡ e.distance + 1 = mod-eq_of_lt small in
            let further : (e.hash + (j + 1)) % m ≡ (s + 1) % m =
              ap (λ n. n % m) {x = e.hash + (j + 1)} {y = e.hash + j + 1} (omega arith)
              ∙ sym (mod-add-mod (e.hash + j) m 1)
              ∙ ap (λ n. (n + 1) % m) p in
            inr (j + 1, further, omega (arith, same), up.1)
        | inr big ↦ inl (omega (arith, up.0))
      ]

  pub Spots-set :
      (m room md : ℕ) (cells : List (Element D)) (i : ℕ) (v : Element D)
      → i < length cells
      → Spots m room md cells
      → Fits room v
      → (is_empty v ≡ false → Near m md i v)
      → Spots m room md (set cells i v)
  Spots-set m room md cells i v bound spots fits near s e h = elim (eq-cases i s) [
    | inl same ↦
        let written = get_elem?-set_self cells i v bound in
        let read = ap (λ t. get_elem? (set cells i v) t) same in
        let value : v ≡ e = cc in
        subst (λ x. Fits room x × (is_empty x ≡ false → Near m md s x)) value
          (fits, λ k. subst (λ t. Near m md t v) same (near k))
    | inr other ↦ spots s e (sym (get_elem?-set_ne cells v other) ∙ h)
  ]
