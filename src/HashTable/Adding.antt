-- ===== src/HashTable/Adding.antt =====
-- `rbhash_add_hash`: the table holds the new entry and all that it held.
use mathlib.Core.Path.{◌∙◌, subst}
use mathlib.Core.List.{Permᴰ}
use mathlib.Core.List.Permᴰ
use native.Mathlib.Nat.{mod-eq_of_lt}
use chip.Prelude.{
  ℕ, ◌+◌, ◌-◌, ◌%◌, ◌^◌, ◌≤◌, ◌<◌, ◌≡◌, ◌≢◌, ap, ◌⊎◌, inl, inr, refl, arith, List, [], ◌∷◌, ◌++◌,
  Bool, false, Option, none, some, length, take, drop, length-drop, length-append, ==_iff, ◌==◌,
  ltb, ltb→lt, if◌then◌else◌,
}
use chip.Word.{word_mod}
use chip.HashTable.{Element, HashTable, is_empty}
use chip.HashTable.Grow.{Memory, Added, added, failed, spare, new_element, add_hash}
use chip.HashTable.Calls.{Ends, ends, Ends-bind, Ends-if, Ends-option, Ends-case}
use chip.HashTable.Entries.{Entry, entry_of, entries, entry_of_live, Permᴰ-length, Permᴰ-All}
use chip.HashTable.Spots.{Fits}
use chip.HashTable.Swapdown.{swapdown-Settled}
use chip.HashTable.Lookup.{IsTable}
use chip.HashTable.Resize.{NonZero, IsWide, Resized, Unchanged, upsize-Resized}

take-length-append : (xs ys : List ℕ) → take (length xs) (xs ++ ys) ≡ xs
take-length-append [] ys = refl
take-length-append (x ∷ xs) ys = ap (λ l. x ∷ l) (take-length-append xs ys)

module _ {D : Type 0} where
  abbrev Made : ℕ → Entry D → Element D → Type 0
  Made room x e = Fits room e × (e.distance ≡ 0) × (entry_of e ≡ x ∷ [])

  new_element-Made :
      (room : ℕ) (m : Element D) (hash : ℕ) (key : List ℕ) (data_of : Option D)
      → room ≤ length m.key
      → 0 < length key
      → length key ≤ room
      → length key < word_mod
      → Ends (Made room (hash, key, data_of)) (new_element m hash key data_of)
  unfolding new_element
  new_element-Made room m hash key data_of wide some_key fit short =
      Ends-if (ltb (length m.key) (length key))
        (λ e. let less = ltb→lt (length m.key) (length key) e in absurd (omega arith))
        (λ e.
          let len : length key % word_mod ≡ length key = mod-eq_of_lt short in
          let buffer = length-append key (drop (length key) m.key) in
          let rest = length-drop (length key) m.key in
          let el : Element D = record {
            data_of = data_of;
            hash = hash;
            len = length key % word_mod;
            distance = 0;
            key = key ++ drop (length key) m.key;
          } in
          let live : is_empty el ≡ false = ground (arith, len) in
          let bytes : take el.len el.key ≡ key =
            ap (λ n. take n el.key) len ∙ take-length-append key (drop (length key) m.key) in
          ends (
            (omega arith, omega arith),
            refl,
            entry_of_live el live ∙ ap (λ k. (hash, k, data_of) ∷ []) bytes,
          ))

  -- The new entry is there besides the others. Where the table has to grow it has room again, or there was no
  -- memory for that.
  abbrev pub Adds : Memory D → HashTable D → Entry D → Added × HashTable D → Type 0
  Adds memory t x r =
      IsTable r.1
      × Permᴰ (entries r.1.table) (x ∷ entries t.table)
      × (r.1.count ≡ t.count + 1)
      × (r.1.hashing ≡ t.hashing)
      × (((r.0 ≡ added) × (t.min ≢ 0 → r.1.count < r.1.size))
          ⊎ ((r.0 ≡ failed) × (n : ℕ) × (memory.elements n ≡ none)))
      × Unchanged t r.1
      × (t.count + 1 + spare t < t.size → r.1.size ≡ t.size)

  grown :
      (memory : Memory D) (t u : HashTable D) (x : Entry D) (r : Bool × HashTable D)
      → u.count ≡ t.count + 1
      → u.hashing ≡ t.hashing
      → Permᴰ (entries u.table) (x ∷ entries t.table)
      → Unchanged t u
      → ((u.count + spare u < u.size → r.1.size ≡ u.size)
          → t.count + 1 + spare t < t.size
          → r.1.size ≡ t.size)
      → Resized memory u r
      → Adds memory t x (if r.0 then added else failed, r.1)
  grown memory t u x r c h q same still (table, p, d, g, status, un, size) = (
    table,
    Permᴰ.trans p q,
    d ∙ c,
    g ∙ h,
    elim status [
      | inl (e, l) ↦ inl (ap (λ b. if b then added else failed) e, λ n. l)
      | inr (e, n, gone) ↦ inr (ap (λ b. if b then added else failed) e, n, gone)
    ],
    (un.0 ∙ same.0, un.1 ∙ same.1, un.2 ∙ same.2),
    λ l. still size l,
  )

  pub add_hash-Adds :
      (memory : Memory D) (t : HashTable D) (hash : ℕ) (key : List ℕ) (data_of : Option D)
      (m : Element D)
      → memory.element ≡ some m
      → IsWide (t.element_size - 20) memory
      → IsTable t
      → t.count < t.size
      → 0 < length key
      → length key ≤ t.key_size
      → (t.min ≢ 0 → t.size + spare t ≤ 2 ^ 31)
      → NonZero ((hash, key, data_of) ∷ entries t.table)
      → Ends (Adds memory t (hash, key, data_of)) (add_hash memory t hash key data_of)
  unfolding add_hash
  add_hash-Adds memory t hash key data_of m given wide v space some_key fit bound kept =
      Ends-case (ltb t.key_size (length key))
        (λ e. let less = ltb→lt t.key_size (length key) e in absurd (omega arith))
        (λ e.
          Ends-option memory.element (λ none. absurd cc)
            (λ n there.
              let x : Entry D = (hash, key, data_of) in
              Ends-bind
                (new_element-Made (t.element_size - 20) n hash key data_of
                  (wide.element-wide n there) some_key (omega (arith, v.key_room))
                  (omega (arith, v.narrow)))
                (λ el (fits, start, held).
                  Ends-bind
                    (swapdown-Settled t.size (t.element_size - 20)
                      (record { cells = t.table; max_distance = t.max_distance; dnswap = t.dnswap })
                      el v.power v.cells-size v.spots v.small fits start (omega (arith, v.counted)))
                    (λ s (l, spots, md, p).
                      let u : HashTable D = record t {
                        table = s.cells;
                        max_distance = s.max_distance;
                        dnswap = s.dnswap;
                        count = t.count + 1;
                      } in
                      let q : Permᴰ (entries u.table) (x ∷ entries t.table) =
                        subst (λ y. Permᴰ (entries s.cells) (y ++ entries t.table)) held p in
                      let table : IsTable u = record {
                        power = v.power;
                        cells-size = l;
                        spots = spots;
                        small = md;
                        key_room = v.key_room;
                        narrow = v.narrow;
                        counted = omega (arith, Permᴰ-length q, v.counted);
                      } in
                      Ends-case (t.min == 0)
                        (λ z. ends (
                          table,
                          q,
                          refl,
                          refl,
                          inl (refl, λ ne. absurd (ne ((==_iff t.min 0).0 z))),
                          (refl, refl, refl),
                          λ l. refl,
                        ))
                        (λ z.
                          Ends-bind
                            (upsize-Resized memory u table wide (omega arith)
                              (bound (λ e. let c = (==_iff t.min 0).1 e in absurd cc))
                              (Permᴰ-All _ (Permᴰ.symm q) kept))
                            (λ r h. ends (
                              grown memory t u x r refl refl q (refl, refl, refl) (λ f l. f l)
                                h)))))))
