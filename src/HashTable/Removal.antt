-- ===== src/HashTable/Removal.antt =====
-- The operations of core/rbhash.c that remove, search on and count.
use chip.Prelude.{
  ℕ, zero, suc, ◌+◌, ◌-◌, ◌*◌, ◌%◌, List, [], ◌∷◌, ◌++◌, Bool, true, false, not, ◌&&◌, ◌==◌,
  if◌then◌else◌, Option, none, some, length, set,
}
use chip.Hash.{size_mod}
use chip.HashTable.{
  Element, HashTable, is_empty, fast_mod_pow_two, slot_of, slot_next, memcmp, find_bucket,
}
use chip.HashTable.Calls.{Call, done, undefined, ◌>>=◌, at}

-- The slot after one that a `size_t` holds.
unfoldable pub wide_slot_next : ℕ → ℕ → ℕ
unfolding fast_mod_pow_two
wide_slot_next slot size = fast_mod_pow_two ((slot + 1) % size_mod) size

-- A call of `del`.
pub record Deleted (D : Type 0) : Type 0 where
  pub hash : ℕ
  pub key : List ℕ
  pub data_of : Option D

-- A search, by the slot that its `table` points to.
pub record Search : Type 0 where
  pub slot : ℕ
  pub hash : ℕ
  pub key : List ℕ
  pub max_scan : ℕ

module _ {D : Type 0} where
  -- `len` and `data` are cleared.
  abbrev pub cleared : Element D → Element D
  cleared e = record e { len = 0; data_of = none }

  -- The loop, with `n` rounds left to the model. It moves `table` in place of `tbl`, which stays at `slot`.
  unfoldable pub swapup_loop : ℕ → ℕ → List (Element D) → ℕ → ℕ → ℕ → Call (List (Element D))
  unfolding wide_slot_next
  swapup_loop size zero cells slot bucket_fit bucket = undefined
  swapup_loop size (suc n) cells slot bucket_fit bucket = at cells slot (λ tbl.
      elim (not (is_empty tbl) && not (tbl.distance == 0)) [
        | true ↦
            swapup_loop size n (set (set cells bucket_fit tbl) slot (cleared tbl)) slot bucket
              (wide_slot_next bucket size)
        | false ↦ done cells
      ])

  -- Two rounds are enough, since the first leaves nothing at `tbl`.
  unfoldable pub swapup : List (Element D) → ℕ → ℕ → Call (List (Element D))
  unfolding swapup_loop
  swapup cells size bucket =
      let next = wide_slot_next bucket size in swapup_loop size 2 cells next bucket next

  -- What `del` is called with for an element.
  abbrev pub calls : Bool → Element D → List (Deleted D)
  calls del e = elim e.data_of [
    | none ↦ []
    | some d ↦ if del then record { hash = e.hash; key = e.key; data_of = some d } ∷ [] else []
  ]

  -- `true` is the result 0, `false` the result -1.
  unfoldable pub remove_hash :
      HashTable D → ℕ → List ℕ → Call (Bool × HashTable D × List (Deleted D))
  unfolding find_bucket swapup
  remove_hash t hash key = find_bucket t hash key >>= λ o. elim o [
    | none ↦ done (false, t, [])
    | some bucket ↦ at t.table bucket (λ e.
        swapup (set t.table bucket (cleared e)) t.size bucket >>= λ cells. done (
          true,
          record t { table = cells; count = (t.count + (size_mod - 1)) % size_mod },
          calls t.del e,
        ))
  ]

  unfoldable pub remove : HashTable D → List ℕ → Call (Bool × HashTable D × List (Deleted D))
  unfolding remove_hash
  remove t key = remove_hash t (t.hashing key) key

  -- `rbhash_free`: the calls of `del`, in the order of the slots.
  unfoldable pub free_loop : Bool → List (Element D) → Call (List (Deleted D))
  free_loop del [] = done []
  free_loop del (e ∷ es) =
      at e.key 0
        (λ x. free_loop del es >>= λ rest. done (if x == 0 then rest else calls del e ++ rest))

  unfoldable pub free : HashTable D → Call (List (Deleted D))
  unfolding free_loop
  free t = free_loop t.del t.table

  -- The loop of `rbhash_search_bucket`: the slot that it ends, and the search after it.
  unfoldable pub search_loop : HashTable D → ℕ → Search → Call (Option ℕ × Search)
  unfolding memcmp slot_next
  search_loop t zero s = done (none, record s { max_scan = size_mod - 1 })
  search_loop t (suc n) s = at t.table s.slot (λ e.
      let after = record s { slot = slot_next s.slot t.size; max_scan = n } in
      (if e.len == length s.key && e.hash == s.hash
        then memcmp s.key e.key (length s.key)
        else done false)
      >>= λ b. elim b [ true ↦ done (some s.slot, after) | false ↦ search_loop t n after ])

  -- `NEW` gives memory.
  unfoldable pub search_new : HashTable D → List ℕ → Search
  unfolding slot_of
  search_new t key = record {
    slot = slot_of (t.hashing key) t.size;
    hash = t.hashing key;
    key = key;
    max_scan = (t.max_distance + 1) % size_mod;
  }

  unfoldable pub search_continue : HashTable D → Search → Call (Option D × Search)
  unfolding search_loop
  search_continue t s = search_loop t s.max_scan s >>= λ r. elim r.0 [
    | none ↦ done (none, r.1)
    | some bucket ↦ at t.table bucket (λ e. done (e.data_of, r.1))
  ]

  -- `sizeof(rbhash_s)` is 72.
  unfoldable pub mem_total : HashTable D → ℕ
  mem_total t = 72 + t.element_size * t.size

  unfoldable pub bucket_used : HashTable D → ℕ
  bucket_used t = t.count

  abbrev pub collision_loop : List (Element D) → ℕ
  collision_loop [] = 0
  collision_loop (e ∷ es) =
      (if not (is_empty e) && not (e.distance == 0) then 1 else 0) + collision_loop es

  unfoldable pub collision : HashTable D → ℕ
  collision t = collision_loop t.table

  unfoldable pub distance_max : HashTable D → ℕ
  distance_max t = t.max_distance

  unfoldable pub slot_key : HashTable D → ℕ → Call (Option (List ℕ))
  slot_key t slot = at t.table slot (λ e. done (if is_empty e then none else some e.key))

  unfoldable pub slot_data : HashTable D → ℕ → Call (Option D)
  slot_data t slot = at t.table slot (λ e. done (if is_empty e then none else e.data_of))

  unfoldable pub hash_of : HashTable D → List ℕ → ℕ
  hash_of t key = t.hashing key

  unfoldable pub dnswap_of : HashTable D → ℕ
  dnswap_of t = t.dnswap
