-- ===== src/HashTable/Fresh.antt =====
-- `rbhash_new` makes an empty map.
use mathlib.Core.Path.{sym, ◌∙◌, subst}
use mathlib.Core.List.{Memᴰ}
use mathlib.Core.List.Memᴰ
use chip.Prelude.{
  ℕ, ◌+◌, ◌-◌, ◌^◌, ◌≤◌, ◌<◌, ◌≡◌, ◌≢◌, ap, inl, inr, refl, arith, List, [], Bool, Option, none,
  some, length, All, get_elem?,
}
use chip.HashTable.{Element, HashTable, find}
use chip.HashTable.Grow.{Memory, clear, new, round_up_pow_two, round_up}
use chip.HashTable.Calls.{done}
use chip.HashTable.Sizes.{IsSize, round_up_pow_two-least}
use chip.HashTable.Entries.{entries}
use chip.HashTable.Spots.{Spots}
use chip.HashTable.Lookup.{IsTable}
use chip.HashTable.Resize.{IsWide, clear-length, clear-entries, clear-Spots}
use chip.HashTable.Mapping.{IsMap, find-Held}

module _ {D : Type 0} where
  empty-IsMap : (t : HashTable D) → IsTable t → entries t.table ≡ [] → IsMap t
  empty-IsMap t v e = record {
    table = v;
    not_null = λ h k m. Memᴰ.not-nil (subst (λ l. Memᴰ (h, k, none) l) e m);
    one_each = λ h k d x m n. absurd (Memᴰ.not-nil (subst (λ l. Memᴰ (h, k, d) l) e m));
    starts = subst (λ l. All (λ x. get_elem? x.1 0 ≢ some 0) l) (sym e) tt;
  }

  -- No entries.
  abbrev pub Empty : ℕ → HashTable D → Type 0
  Empty size t =
      IsMap t
      × (t.count ≡ 0)
      × (size ≤ t.size)
      × ((k : List ℕ) → 0 < length k → find t k ≡ done none)

  none_found :
      (t : HashTable D)
      → IsTable t
      → entries t.table ≡ []
      → (k : List ℕ) → 0 < length k
      → find t k ≡ done none
  none_found t v e k h =
      let (o, (f, held)) = find-Held t k v h in
      elim held [
        | inl (z, no_entry) ↦ f ∙ ap done z
        | inr m ↦ absurd (Memᴰ.not-nil (subst (λ l. Memᴰ (t.hashing k, k, o) l) e m))
      ]

  empty-IsTable :
      (t : HashTable D) (f : ℕ → Element D)
      → IsSize t.size
      → t.table ≡ clear f 0 t.size
      → t.max_distance ≡ 0
      → ((i : ℕ) → t.element_size - 20 ≤ length (f i).key)
      → t.key_size < t.element_size - 20
      → t.key_size < 2 ^ 32
      → IsTable t
  empty-IsTable t f power cells md wide room narrow = record {
    power = power;
    cells-size = ap length cells ∙ clear-length f 0 t.size;
    spots =
        subst (λ l. Spots t.size (t.element_size - 20) t.max_distance l) (sym cells)
          (clear-Spots t.size (t.element_size - 20) t.max_distance f 0 t.size wide);
    small = omega (arith, md);
    key_room = room;
    narrow = narrow;
    counted = omega (arith, ap length (ap entries cells ∙ clear-entries f 0 t.size));
  }

  -- For 1 to 2 ^ 31 slots and keys below 2 ^ 32 bytes, where the memory has the length asked for, the table that `rbhash_new` makes is a map without entries, of that size or more.
  pub new-IsMap :
      (memory : Memory D) (size min key_size : ℕ) (hashing : List ℕ → ℕ) (del : Bool) (dnswap : ℕ)
      (t : HashTable D)
      → 0 < size
      → size ≤ 2 ^ 31
      → key_size < 2 ^ 32
      → new memory size min key_size hashing del dnswap ≡ some t
      → IsWide (t.element_size - 20) memory
      → Empty size t
  unfolding new round_up
  new-IsMap memory size min key_size hashing del dnswap t positive bound keys e wide =
      go (memory.elements (round_up_pow_two size)) refl e
    where
      made : (ℕ → Element D) → HashTable D
      made f = record {
        table = clear f 0 (round_up_pow_two size);
        size = round_up_pow_two size;
        element_size = round_up (round_up 24 8 + key_size + 1) 8;
        count = 0;
        min = min;
        max_distance = 0;
        key_size = key_size;
        del = del;
        hashing = hashing;
        dnswap = dnswap;
      }

      go :
          (o : Option (ℕ → Element D))
          → memory.elements (round_up_pow_two size) ≡ o
          → elim o [ none ↦ none | some f ↦ some (made f) ] ≡ some t
          → Empty size t
      go none h e = cc
      go (some f) h e =
          let value : made f ≡ t = cc in
          let room = ap (λ u. u.element_size) value in
          let (k, (small, power, above, least)) = round_up_pow_two-least size positive bound in
          let v : IsTable (made f) =
            empty-IsTable (made f) f (k, (small, power)) refl refl
              (λ i. let w = wide.elements-wide _ f h i in omega (arith, w, room)) (omega arith)
              keys in
          let nothing = clear-entries f 0 (round_up_pow_two size) in
          subst (Empty size) value (
            empty-IsMap (made f) v nothing,
            refl,
            omega (arith, above, power),
            none_found (made f) v nothing,
          )
