-- ===== src/HashTable/Lookup.antt =====
-- `rbhash_find` against what the table holds.
use mathlib.Core.Path.{sym, ◌∙◌, subst}
use mathlib.Core.List.{Memᴰ}
use native.Mathlib.Nat.{mod-add-mod, mod-lt}
use chip.Prelude.{
  ℕ, ◌+◌, ◌-◌, ◌%◌, ◌≤◌, ◌<◌, ◌≡◌, ap, ◌⊎◌, inl, inr, refl, arith, List, false, Option, none, some,
  length, take, length-take, get_elem?, get_elem?-lt,
}
use chip.Word.{word_mod}
use chip.Hash.{size_mod}
use chip.HashTable.{
  Element, HashTable, data_at, is_empty, same, slot_of, find_loop, find_bucket, find_hash_raw,
  find_hash,
}
use chip.HashTable.Calls.{Ends, ends, Ends-bind, Ends-at, Ends-map, done, at}
use chip.HashTable.Sizes.{IsSize, IsSize-bounds, slot_of-mod}
use chip.HashTable.Entries.{entry, entries, Memᴰ-entries, entries-Memᴰ}
use chip.HashTable.Spots.{Fits, Near, Spots}
use chip.HashTable.Swapdown.{offset}
use chip.HashTable.Scan.{Matches, Scanned, find_loop-Scanned}

module _ {D : Type 0} where
  -- A table as its operations leave it. Keys of length 0 are counted and not held.
  pub record IsTable (t : HashTable D) : Type 0 where
    pub power : IsSize t.size
    pub cells-size : length t.table ≡ t.size
    pub spots : Spots t.size (t.element_size - 20) t.max_distance t.table
    pub small : t.max_distance < word_mod
    pub key_room : t.key_size < t.element_size - 20
    pub narrow : t.key_size < word_mod
    pub counted : length (entries t.table) ≤ t.count

  abbrev pub Bucket : HashTable D → ℕ → List ℕ → Option ℕ → Type 0
  Bucket t hash key none = (data_of : Option D) → Memᴰ (hash, key, data_of) (entries t.table) → ⊥
  Bucket t hash key (some s) =
      (e : Element D) × ((get_elem? t.table s ≡ some e) × Matches hash key e)

  within_scan :
      (m md s : ℕ) (e : Element D)
      → 0 < m
      → s < m
      → Near m md s e
      → (j : ℕ) × ((j < md + 1) × ((e.hash % m + j) % m ≡ s))
  within_scan m md s e p b (inl all) =
      let (t, (l, r)) = offset m (e.hash % m) s (mod-lt e.hash p) b in (t, (omega arith, r))
  within_scan m md s e p b (inr (j, r, d, l)) = (j, (omega arith, mod-add-mod e.hash m j ∙ r))

  taken : (e : Element D) (room : ℕ) → Fits room e → length (take e.len e.key) ≡ e.len
  taken e room fits = omega (arith, length-take e.len e.key)

  absent_of_none :
      (t : HashTable D) (hash : ℕ) (key : List ℕ)
      → IsTable t
      → Scanned t.size (t.max_distance + 1) (slot_of hash t.size) hash key t.table none
      → Bucket t hash key none
  absent_of_none t hash key v scan data_of m =
      let (i, e, there, live, same) = entries-Memᴰ t.table m in
      let (fits, near) = v.spots i e there in
      let (positive, bound) = IsSize-bounds t.size v.power in
      let inside : i < t.size = omega (arith, v.cells-size, get_elem?-lt t.table i there) in
      let hashes : hash ≡ e.hash = ap (λ x. x.0) same in
      let keys : key ≡ take e.len e.key = ap (λ x. x.1) same in
      let lens : e.len ≡ length key = sym (ap length keys ∙ taken e _ fits) in
      let (j, (l, r)) = within_scan t.size t.max_distance i e positive inside (near live) in
      let home : slot_of hash t.size ≡ e.hash % t.size =
        slot_of-mod hash t.size v.power ∙ ap (λ h. h % t.size) hashes in
      scan j e l
        (ap (λ s. get_elem? t.table ((s + j) % t.size)) home
          ∙ ap (λ s. get_elem? t.table s) r
          ∙ there)
        (lens, sym hashes, ap (λ n. take n e.key) (sym lens) ∙ sym keys)

  pub find_bucket-Bucket :
      (t : HashTable D) (hash : ℕ) (key : List ℕ)
      → IsTable t
      → Ends (Bucket t hash key) (find_bucket t hash key)
  unfolding find_bucket
  find_bucket-Bucket t hash key v =
      let (positive, bound) = IsSize-bounds t.size v.power in
      let rounds : (t.max_distance + 1) % size_mod ≡ t.max_distance + 1 = omega (arith, v.small) in
      let home : slot_of hash t.size < t.size =
        omega (arith, slot_of-mod hash t.size v.power, mod-lt hash positive) in
      subst
        (λ n. Ends (Bucket t hash key) (find_loop t.table t.size n (slot_of hash t.size) hash key))
        (sym rounds)
        (Ends-map
          (find_loop-Scanned t.size (t.element_size - 20) (t.max_distance + 1) (slot_of hash t.size)
            hash key t.table v.power v.cells-size home (λ s e h. (v.spots s e h).0))
          (λ o. found o))
    where
      found :
          (o : Option ℕ)
          → Scanned t.size (t.max_distance + 1) (slot_of hash t.size) hash key t.table o
          → Bucket t hash key o
      found none s = absent_of_none t hash key v s
      found (some i) s = s

  pub bucket_entry :
      (t : HashTable D) (hash : ℕ) (key : List ℕ) (s : ℕ)
      → 0 < length key
      → (b : Bucket t hash key (some s)) → Memᴰ (hash, key, b.0.data_of) (entries t.table)
  bucket_entry t hash key s h (e, (there, (l, k, bytes))) =
      let live : is_empty e ≡ false = ground arith in
      let bytes2 : take e.len e.key ≡ key = ap (λ n. take n e.key) l ∙ bytes in
      let value : entry e ≡ (hash, key, e.data_of) =
        ap (λ x. (x, take e.len e.key, e.data_of)) k ∙ ap (λ x. (hash, x, e.data_of)) bytes2 in
      subst (λ x. Memᴰ x (entries t.table)) value (Memᴰ-entries t.table s there live)

  -- What the table holds under the key, or NULL where it holds nothing.
  abbrev pub Held : HashTable D → ℕ → List ℕ → Option D → Type 0
  Held t hash key o =
      ((o ≡ none) × ((data_of : Option D) → Memᴰ (hash, key, data_of) (entries t.table) → ⊥))
      ⊎ Memᴰ (hash, key, o) (entries t.table)

  -- For a key that is not empty `rbhash_find_hash` ends: with data that the table holds under the hash and key,
  -- or with NULL if it holds none under them.
  pub find_hash-Held :
      (t : HashTable D) (hash : ℕ) (key : List ℕ)
      → IsTable t
      → 0 < length key
      → Ends (Held t hash key) (find_hash t hash key)
  unfolding find_hash find_hash_raw
  find_hash-Held t hash key v h =
      Ends-bind
        (Ends-bind {Q = λ o. Held t hash key (data_at o)} (find_bucket-Bucket t hash key v)
          (λ o b. found o b))
        (λ o p. ends p)
    where
      found :
          (o : Option ℕ)
          → Bucket t hash key o
          → Ends
              (λ e. Held t hash key (data_at e))
              (elim o [ none ↦ done none | some bucket ↦ at t.table bucket (λ e. done (some e)) ])
      found none b = ends (inl (refl, b))
      found (some s) b = Ends-at t.table s _ b.1.0 (ends (inr (bucket_entry t hash key s h b)))
