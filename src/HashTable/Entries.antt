-- ===== src/HashTable/Entries.antt =====
-- What a table holds, in the order of its slots: the hash, key and data of each element that is not empty.
use mathlib.Core.Path.{sym, ◌∙◌, subst}
use mathlib.Core.List.{append_assoc}
use mathlib.Core.List.{Permᴰ}
use mathlib.Core.List.Permᴰ
use mathlib.Core.List.{Memᴰ}
use mathlib.Core.List.Memᴰ
use chip.Prelude.{
  ℕ, zero, suc, ◌≤◌, ◌<◌, ◌≡◌, ap, inl, inr, refl, arith, List, [], ◌∷◌, ◌++◌, Bool, true, false,
  Option, some, length, get_elem?, set, take, All, length-append, if◌then◌else◌, Bool-cases,
}
use chip.HashTable.{Element, is_empty}

-- The elements of lists that differ in their order.
module _ {ℓ} {A : Type ℓ} where
  pub Permᴰ-length : {xs ys : List A} → Permᴰ xs ys → length xs ≡ length ys
  Permᴰ-length Permᴰ.nil = refl
  Permᴰ-length (Permᴰ.cons e p) = ap suc (Permᴰ-length p)
  Permᴰ-length (Permᴰ.swap e f) = refl
  Permᴰ-length (Permᴰ.trans p q) = Permᴰ-length p ∙ Permᴰ-length q

  pub Permᴰ-Memᴰ : {xs ys : List A} {a : A} → Permᴰ xs ys → Memᴰ a xs → Memᴰ a ys
  Permᴰ-Memᴰ Permᴰ.nil m = m
  Permᴰ-Memᴰ (Permᴰ.cons e p) (Memᴰ.head f) = Memᴰ.head (f ∙ e)
  Permᴰ-Memᴰ (Permᴰ.cons e p) (Memᴰ.tail m) = Memᴰ.tail (Permᴰ-Memᴰ p m)
  Permᴰ-Memᴰ (Permᴰ.swap e f) (Memᴰ.head g) = Memᴰ.tail (Memᴰ.head (g ∙ e))
  Permᴰ-Memᴰ (Permᴰ.swap e f) (Memᴰ.tail (Memᴰ.head g)) = Memᴰ.head (g ∙ f)
  Permᴰ-Memᴰ (Permᴰ.swap e f) (Memᴰ.tail (Memᴰ.tail m)) = Memᴰ.tail (Memᴰ.tail m)
  Permᴰ-Memᴰ (Permᴰ.trans p q) m = Permᴰ-Memᴰ q (Permᴰ-Memᴰ p m)

  pub Permᴰ-All {κ} : (P : A → Type κ) {xs ys : List A} → Permᴰ xs ys → All P xs → All P ys
  Permᴰ-All P Permᴰ.nil h = h
  Permᴰ-All P (Permᴰ.cons e p) h = (subst P e h.0, Permᴰ-All P p h.1)
  Permᴰ-All P (Permᴰ.swap e f) h = (subst P f h.1.0, (subst P e h.0, h.1.1))
  Permᴰ-All P (Permᴰ.trans p q) h = Permᴰ-All P q (Permᴰ-All P p h)

  pub swap_fronts : (xs ys zs : List A) → Permᴰ (xs ++ (ys ++ zs)) (ys ++ (xs ++ zs))
  swap_fronts xs ys zs =
      subst (λ l. Permᴰ l (ys ++ (xs ++ zs))) (append_assoc xs ys zs)
        (subst (λ l. Permᴰ ((xs ++ ys) ++ zs) l) (append_assoc ys xs zs)
          (Permᴰ.append_right zs (Permᴰ.append_comm xs ys)))

abbrev pub Entry : Type 0 → Type 0
Entry D = ℕ × List ℕ × Option D

module _ {D : Type 0} where
  abbrev pub entry : Element D → Entry D
  entry e = (e.hash, take e.len e.key, e.data_of)

  abbrev pub entry_of : Element D → List (Entry D)
  entry_of e = if is_empty e then [] else entry e ∷ []

  abbrev pub entries : List (Element D) → List (Entry D)
  entries [] = []
  entries (e ∷ es) = entry_of e ++ entries es

  pub entry_of_empty : (e : Element D) → is_empty e ≡ true → entry_of e ≡ []
  entry_of_empty e h = ap (λ b. if b then [] else entry e ∷ []) h

  pub entry_of_live : (e : Element D) → is_empty e ≡ false → entry_of e ≡ entry e ∷ []
  entry_of_live e h = ap (λ b. if b then [] else entry e ∷ []) h

  -- A write takes the place of what the slot held.
  pub entries-set :
      (es : List (Element D)) (i : ℕ) (new : Element D) {old : Element D}
      → get_elem? es i ≡ some old
      → Permᴰ (entry_of old ++ entries (set es i new)) (entry_of new ++ entries es)
  entries-set [] i new e = cc
  entries-set (x ∷ es) zero new {old} e =
      let same : x ≡ old = cc in
      subst
        (λ o.
          Permᴰ (entry_of o ++ (entry_of new ++ entries es))
            (entry_of new ++ (entry_of x ++ entries es)))
        same (swap_fronts (entry_of x) (entry_of new) (entries es))
  entries-set (x ∷ es) (suc i) new {old} e =
      Permᴰ.trans (swap_fronts (entry_of old) (entry_of x) _) (
        Permᴰ.trans (Permᴰ.append_left (entry_of x) (entries-set es i new e))
          (swap_fronts (entry_of x) (entry_of new) _))

  pub entries-le : (es : List (Element D)) → length (entries es) ≤ length es
  entries-le [] = omega arith
  entries-le (e ∷ es) =
      omega (arith, most e (is_empty e), length-append (entry_of e) (entries es), entries-le es)
    where
      most : (e : Element D) (b : Bool) → length (if b then [] else entry e ∷ []) ≤ 1
      most e true = omega arith
      most e false = omega arith

  -- Where there are fewer entries than slots, a slot is empty.
  pub empty_slot :
      (es : List (Element D))
      → length (entries es) < length es
      → (i : ℕ) × (e : Element D) × (get_elem? es i ≡ some e) × (is_empty e ≡ true)
  empty_slot [] h = absurd (omega arith)
  empty_slot (e ∷ es) h = elim (Bool-cases (is_empty e)) [
    | inl full ↦ (0, e, refl, full)
    | inr full ↦
        let size : length (entry_of e ++ entries es) ≡ suc (length (entries es)) =
          ap (λ l. length (l ++ entries es)) (entry_of_live e full) in
        let rest = empty_slot es (omega (arith, size)) in (suc rest.0, rest.1, rest.2, rest.3)
  ]

  pub Memᴰ-entries :
      (es : List (Element D)) (i : ℕ) {e : Element D}
      → get_elem? es i ≡ some e
      → is_empty e ≡ false
      → Memᴰ (entry e) (entries es)
  Memᴰ-entries [] i h k = cc
  Memᴰ-entries (x ∷ es) zero {e} h k =
      let same : e ≡ x = cc in
      let listed : Memᴰ (entry e) (entry_of e ++ entries es) =
        subst (λ l. Memᴰ (entry e) (l ++ entries es)) (sym (entry_of_live e k)) (Memᴰ.head refl) in
      subst (λ y. Memᴰ (entry e) (entry_of y ++ entries es)) same listed
  Memᴰ-entries (x ∷ es) (suc i) h k = Memᴰ.append_right (entry_of x) (Memᴰ-entries es i h k)

  pub entries-Memᴰ :
      (es : List (Element D)) {x : Entry D}
      → Memᴰ x (entries es)
      → (i : ℕ) × (e : Element D) × (get_elem? es i ≡ some e) × (is_empty e ≡ false) × (x ≡ entry e)
  entries-Memᴰ [] m = absurd (Memᴰ.not-nil m)
  entries-Memᴰ (y ∷ es) {x} m = elim (Memᴰ.append_cases (entry_of y) m) [
    | inl here ↦ elim (Bool-cases (is_empty y)) [
      | inl k ↦ absurd (Memᴰ.not-nil (subst (λ l. Memᴰ x l) (entry_of_empty y k) here))
      | inr k ↦
          (0, y, refl, k, Memᴰ.eq_of_singleton (subst (λ l. Memᴰ x l) (entry_of_live y k) here))
    ]
    | inr there ↦ let rest = entries-Memᴰ es there in (suc rest.0, rest.1, rest.2, rest.3, rest.4)
  ]
