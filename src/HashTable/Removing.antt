-- ===== src/HashTable/Removing.antt =====
-- `rbhash_remove_hash` on a table whose elements have their true distances.
use mathlib.Core.Path.{sym, ◌∙◌, subst}
use mathlib.Core.List.{Permᴰ, Memᴰ}
use chip.Prelude.{
  ℕ, ◌+◌, ◌-◌, ◌%◌, ◌≤◌, ◌<◌, ◌≡◌, ap, ◌⊎◌, inl, inr, refl, arith, List, [], ◌∷◌, ◌++◌, Bool, true,
  false, Option, none, some, length, take, get_elem?, get_elem?-lt, get_elem?-set_self,
  get_elem?-set_ne, set, length-set, eq-cases,
}
use chip.Hash.{size_mod}
use chip.HashTable.{Element, HashTable, is_empty}
use chip.HashTable.Removal.{Deleted, cleared, swapup, calls, remove_hash}
use chip.HashTable.Calls.{Ends, ends, Ends-bind, Ends-at, done, at, ◌>>=◌}
use chip.HashTable.Sizes.{IsSize-bounds}
use chip.HashTable.Entries.{entry_of, entries, entries-set, entry_of_live, Permᴰ-length}
use chip.HashTable.Spots.{Spots-set}
use chip.HashTable.Lookup.{IsTable, Bucket, find_bucket-Bucket, bucket_entry}
use chip.HashTable.Swapup.{Exact, swapup-Kept}

module _ {D : Type 0} where
  Exact-cleared :
      (m : ℕ) (cells : List (Element D)) (i : ℕ) (e : Element D)
      → i < length cells
      → Exact m cells
      → Exact m (set cells i (cleared e))
  Exact-cleared m cells i e b exact s x h live = elim (eq-cases i s) [
    | inl same ↦
        let written = get_elem?-set_self cells i (cleared e) b in
        let read = ap (λ t. get_elem? (set cells i (cleared e)) t) same in
        let value : cleared e ≡ x = cc in let state = ap is_empty value in absurd cc
    | inr other ↦ exact s x (sym (get_elem?-set_ne cells (cleared e) other) ∙ h) live
  ]

  -- Nothing was there, or one entry of that hash and key has gone and `del` was called on it.
  abbrev pub Removes : HashTable D → ℕ → List ℕ → Bool × HashTable D × List (Deleted D) → Type 0
  Removes t hash key r =
      ((r ≡ (false, t, []))
        × ((data_of : Option D) → Memᴰ (hash, key, data_of) (entries t.table) → ⊥))
      ⊎ ((e : Element D) × (r.0 ≡ true)
          × IsTable r.1
          × Permᴰ ((hash, key, e.data_of) ∷ entries r.1.table) (entries t.table)
          × (r.1.count + 1 ≡ t.count)
          × (r.2 ≡ calls t.del e))

  -- On a table whose elements all have their true distance, and for a key that is not empty, `rbhash_remove_hash`
  -- takes out one entry of the hash and key, keeps all others, and calls `del` on it; without such an entry it changes
  -- nothing and gives -1.
  pub remove_hash-Removes :
      (t : HashTable D) (hash : ℕ) (key : List ℕ)
      → IsTable t
      → Exact t.size t.table
      → t.count ≤ t.size
      → 0 < length key
      → Ends (Removes t hash key) (remove_hash t hash key)
  unfolding remove_hash
  remove_hash-Removes t hash key v exact few h =
      Ends-bind (find_bucket-Bucket t hash key v) (λ o b. removed o b)
    where
      Goal : Bool × HashTable D × List (Deleted D) → Type 0
      Goal = Removes t hash key

      removed :
          (o : Option ℕ)
          → Bucket t hash key o
          → Ends Goal (elim o [
            | none ↦ done (false, t, [])
            | some bucket ↦ at t.table bucket (λ e.
                swapup (set t.table bucket (cleared e)) t.size bucket >>= λ cells. done (
                  true,
                  record t { table = cells; count = (t.count + (size_mod - 1)) % size_mod },
                  calls t.del e,
                ))
          ])
      removed none b = ends (inl (refl, b))
      removed (some s) (e, (there, match)) =
          let m = bucket_entry t hash key s h (e, (there, match)) in
          let room = t.element_size - 20 in
          let bound = get_elem?-lt t.table s there in
          let inside : s < t.size = omega (arith, bound, v.cells-size) in
          let first = set t.table s (cleared e) in
          let sized = length-set t.table s (cleared e) in
          let (fits, near) = v.spots s e there in
          let spots =
            Spots-set t.size room t.max_distance t.table s (cleared e) bound v.spots
              (omega arith, fits.1) (λ f. absurd cc) in
          let live : is_empty e ≡ false = ground arith in
          let lens : take e.len e.key ≡ key = ap (λ n. take n e.key) match.0 ∙ match.2 in
          let listed : entry_of e ≡ (hash, key, e.data_of) ∷ [] =
            entry_of_live e live
            ∙ ap (λ x. (x, take e.len e.key, e.data_of) ∷ []) match.1
            ∙ ap (λ x. (hash, x, e.data_of) ∷ []) lens in
          let lost : Permᴰ ((hash, key, e.data_of) ∷ entries first) (entries t.table) =
            subst (λ x. Permᴰ (x ++ entries first) (entries t.table)) listed
              (entries-set t.table s (cleared e) there) in
          Ends-at t.table s _ there (
            Ends-bind
              (swapup-Kept t.size room t.max_distance s first (cleared e) v.power inside
                (sized ∙ v.cells-size) spots (Exact-cleared t.size t.table s e bound exact)
                (get_elem?-set_self t.table s (cleared e) bound) refl)
              (λ cells (l, sp, p).
                let q = Permᴰ.trans (Permᴰ.cons refl p) lost in
                let counts = Permᴰ-length q in
                let full = IsSize-bounds t.size v.power in
                ends (
                  inr (
                    e,
                    refl,
                    record {
                      power = v.power;
                      cells-size = l;
                      spots = sp;
                      small = v.small;
                      key_room = v.key_room;
                      narrow = v.narrow;
                      counted = omega (arith, counts, v.counted, few, full.1);
                    },
                    q,
                    omega (arith, counts, v.counted, few, full.1),
                    refl,
                  ))))
