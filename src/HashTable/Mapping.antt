-- ===== src/HashTable/Mapping.antt =====
-- The table as a map from keys to data.
use mathlib.Core.Path.{sym, ◌∙◌, subst}
use mathlib.Core.List.{Memᴰ}
use mathlib.Core.List.Permᴰ
use mathlib.Core.List.Memᴰ
use chip.Prelude.{
  ℕ, ◌+◌, ◌-◌, ◌^◌, ◌≤◌, ◌<◌, ◌≡◌, ◌≢◌, ap, ◌⊎◌, inl, inr, refl, List, Option, none, some, length,
  get_elem?, Bool-cases, if◌then◌else◌,
}
use chip.HashTable.{Element, HashTable, same, find}
use chip.HashTable.Grow.{Memory, Added, added, failed, spare, add, add_unique}
use chip.HashTable.Calls.{Call, Ends, ends, Ends-map, done, ◌>>=◌}
use chip.HashTable.Entries.{Entry, entries, Permᴰ-Memᴰ, Permᴰ-All}
use chip.HashTable.Scan.{same_sound, same_complete}
use chip.HashTable.Lookup.{IsTable, Held, find_hash-Held}
use chip.HashTable.Resize.{NonZero, IsWide}
use chip.HashTable.Adding.{Adds, add_hash-Adds}

module _ {D : Type 0} where
  -- A table that is a map: its data are not NULL, no key has two, none starts with a byte 0, and each entry
  -- stands under the hash of its key.
  pub record IsMap (t : HashTable D) : Type 0 where
    pub table : IsTable t
    pub not_null : (h : ℕ) (k : List ℕ) → Memᴰ (h, k, none) (entries t.table) → ⊥
    pub one_each :
        (h : ℕ) (k : List ℕ) (d e : Option D)
        → Memᴰ (h, k, d) (entries t.table)
        → Memᴰ (h, k, e) (entries t.table)
        → d ≡ e
    pub starts : NonZero (entries t.table)

  pub find-Held :
      (t : HashTable D) (key : List ℕ)
      → IsTable t
      → 0 < length key
      → (o : Option D) × ((find t key ≡ done o) × Held t (t.hashing key) key o)
  unfolding find
  find-Held t key v h = value (find_hash-Held t (t.hashing key) key v h)
    where
      value : {A : Type 0} {P : A → Type 0} {r : Call A} → Ends P r → (a : A) × ((r ≡ done a) × P a)
      value (ends {a = a} p) = (a, (refl, p))

  Held-find :
      (t : HashTable D) (key : List ℕ) (o : Option D)
      → IsTable t
      → 0 < length key
      → find t key ≡ done o
      → Held t (t.hashing key) key o
  Held-find t key o v h e =
      let (q, (again, held)) = find-Held t key v h in
      let value : q ≡ o = cc in subst (λ x. Held t (t.hashing key) key x) value held

  -- What is found after an entry has come in under a key that held nothing.
  abbrev pub Finds : HashTable D → HashTable D → List ℕ → D → Type 0
  Finds t u key d =
      (k : List ℕ) (o : Option D)
      → 0 < length k
      → find t k ≡ done o
      → find u k ≡ done (if same k key then some d else o)

  absent :
      (t : HashTable D) (key k : List ℕ) (e : Option D)
      → IsMap t
      → 0 < length key
      → find t key ≡ done none
      → Memᴰ (t.hashing k, k, e) (entries t.table)
      → k ≢ key
  absent t key k e v h f m same =
      let here : Memᴰ (t.hashing key, key, e) (entries t.table) =
        subst (λ x. Memᴰ (t.hashing x, x, e) (entries t.table)) same m in
      elim (Held-find t key none v.table h f) [
        | inl (z, no_entry) ↦ no_entry e here
        | inr n ↦ v.not_null _ _ n
      ]

  choose :
      (k key : List ℕ) (n o : Option D) (d : D)
      → (k ≡ key → n ≡ some d)
      → (k ≢ key → n ≡ o)
      → n ≡ (if same k key then some d else o)
  choose k key n o d yes_key no_key = elim (Bool-cases (same k key)) [
    | inl e ↦ yes_key (same_sound k key e) ∙ sym (ap (λ b. if b then some d else o) e)
    | inr e ↦
        no_key (λ h. let t = same_complete key in let s = ap (λ x. same x key) h in absurd cc)
        ∙ sym (ap (λ b. if b then some d else o) e)
  ]

  pub adds-Finds :
      (memory : Memory D) (t : HashTable D) (key : List ℕ) (d : D) (r : Added × HashTable D)
      → IsMap t
      → 0 < length key
      → find t key ≡ done none
      → Adds memory t (t.hashing key, key, some d) r
      → Finds t r.1 key d
  adds-Finds memory t key d r v h f (table, p, c, g, status, un, size) k o l old =
      let (n, (new, held)) = find-Held r.1 k table l in
      let was = Held-find t k o v.table l old in
      let place : r.1.hashing k ≡ t.hashing k = ap (λ f. f k) g in
      let inside : Memᴰ (t.hashing key, key, some d) (entries r.1.table) =
        Permᴰ-Memᴰ (Permᴰ.symm p) (Memᴰ.head refl) in
      new
      ∙ ap done (elim held [
        | inl (z, no_entry) ↦
            choose k key n o d
              (λ e. absurd (
                no_entry (some d) (
                  subst (λ x. Memᴰ (x, k, some d) (entries r.1.table)) (sym place)
                    (subst (λ x. Memᴰ (t.hashing x, x, some d) (entries r.1.table)) (sym e)
                      inside))))
              (λ ne. elim was [
                | inl (y, none_there) ↦ z ∙ sym y
                | inr m ↦ absurd (
                    no_entry o (
                      subst (λ x. Memᴰ (x, k, o) (entries r.1.table)) (sym place)
                        (Permᴰ-Memᴰ (Permᴰ.symm p) (Memᴰ.tail m))))
              ])
        | inr m ↦ elim (Memᴰ.cases_cons (Permᴰ-Memᴰ p m)) [
          | inl e ↦ choose k key n o d (λ _. ap (λ x. x.2) e) (λ ne. absurd (ne (ap (λ x. x.1) e)))
          | inr there ↦
              let there2 = subst (λ x. Memᴰ (x, k, n) (entries t.table)) place there in
              choose k key n o d (λ e. absurd (absent t key k n v h f there2 e))
                (λ ne. elim was [
                  | inl (y, none_there) ↦ absurd (none_there n there2)
                  | inr w ↦ v.one_each _ _ n o there2 w
                ])
        ]
      ])

  clash :
      (t : HashTable D) (key k : List ℕ) (a : ℕ) (d : D) (x y : Option D)
      → IsMap t
      → 0 < length key
      → find t key ≡ done none
      → Memᴰ (a, k, y) (entries t.table)
      → ◌≡◌ {A = Entry D} (a, k, x) (t.hashing key, key, some d)
      → ⊥
  clash t key k a d x y v h f m e =
      let keys : k ≡ key = ap (λ z. z.1) e in
      let place : a ≡ t.hashing k = ap (λ z. z.0) e ∙ sym (ap t.hashing keys) in
      absent t key k y v h f (subst (λ z. Memᴰ (z, k, y) (entries t.table)) place m) keys

  pub adds-IsMap :
      (memory : Memory D) (t : HashTable D) (key : List ℕ) (d : D) (r : Added × HashTable D)
      → IsMap t
      → 0 < length key
      → get_elem? key 0 ≢ some 0
      → find t key ≡ done none
      → Adds memory t (t.hashing key, key, some d) r
      → IsMap r.1
  adds-IsMap memory t key d r v h starts f (table, p, c, g, status, un, size) = record {
    table = table;
    not_null = λ a k m. elim (Memᴰ.cases_cons (Permᴰ-Memᴰ p m)) [
      | inl e ↦ let z = ap (λ x. x.2) e in cc
      | inr m ↦ v.not_null a k m
    ];
    one_each = λ a k x y m n. elim (Memᴰ.cases_cons (Permᴰ-Memᴰ p m)) [
      | inl e ↦ elim (Memᴰ.cases_cons (Permᴰ-Memᴰ p n)) [
        | inl w ↦ ap (λ z. z.2) e ∙ sym (ap (λ z. z.2) w)
        | inr w ↦ absurd (clash t key k a d x y v h f w e)
      ]
      | inr e ↦ elim (Memᴰ.cases_cons (Permᴰ-Memᴰ p n)) [
        | inl w ↦ absurd (clash t key k a d y x v h f e w)
        | inr w ↦ v.one_each a k x y e w
      ]
    ];
    starts = Permᴰ-All _ (Permᴰ.symm p) (starts, v.starts);
  }

  -- Either the key was there, or it is now; all other keys are as before.
  abbrev pub Stores : Memory D → HashTable D → List ℕ → D → Added × HashTable D → Type 0
  Stores memory t key d r =
      ((e : D) × ((find t key ≡ done (some e)) × (r.0 ≡ failed) × (r.1 ≡ t)))
      ⊎ ((find t key ≡ done none)
          × IsMap r.1
          × Finds t r.1 key d
          × (((r.0 ≡ added) × (t.min ≢ 0 → r.1.count < r.1.size))
              ⊎ ((r.0 ≡ failed) × (n : ℕ) × (memory.elements n ≡ none))))

  -- For a key of 1 to `keySize` bytes that does not start with 0, and a map with a free slot that does not grow beyond
  -- 2 ^ 31, `rbhash_add_unique` ends, if there is memory for an element. It finds the key, or it leaves a map that gives the
  -- new data for the key and for each other key what the old one gives; a free slot is left if `min` is not 0
  -- and there is memory to grow.
  pub add_unique-Stores :
      (memory : Memory D) (t : HashTable D) (key : List ℕ) (d : D) (m : Element D)
      → memory.element ≡ some m
      → IsWide (t.element_size - 20) memory
      → IsMap t
      → t.count < t.size
      → 0 < length key
      → length key ≤ t.key_size
      → get_elem? key 0 ≢ some 0
      → (t.min ≢ 0 → t.size + spare t ≤ 2 ^ 31)
      → Ends (Stores memory t key d) (add_unique memory t key (some d))
  unfolding add_unique add
  add_unique-Stores memory t key d m given wide v space h fit starts bound =
      let (o, (e, held)) = find-Held t key v.table h in
      subst
        (λ f.
          Ends (Stores memory t key d)
            (f >>= λ o. elim o [ none ↦ add memory t key (some d) | some d ↦ done (failed, t) ]))
        (sym e) (stored o e)
    where
      stored :
          (o : Option D)
          → find t key ≡ done o
          → Ends
              (Stores memory t key d)
              (elim o [ none ↦ add memory t key (some d) | some d ↦ done (failed, t) ])
      stored (some x) e = ends (inl (x, (e, refl, refl)))
      stored none e =
          Ends-map
            (add_hash-Adds memory t (t.hashing key) key (some d) m given wide v.table space h fit
              bound (starts, v.starts))
            (λ r a. inr (
              e,
              adds-IsMap memory t key d r v h starts e a,
              adds-Finds memory t key d r v h e a,
              a.4,
            ))
