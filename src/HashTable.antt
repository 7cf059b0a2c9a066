-- ===== src/HashTable.antt =====
-- The hash table of core/rbhash.c: Robin Hood hashing with open addresses. The array of elements is a list,
-- a key buffer the list of its bytes; the global counter `dnswap` stands beside the table.
pub mod Calls
pub mod Grow
pub mod Sizes
pub mod Entries
pub mod Spots
pub mod Exchange
pub mod Swapdown
pub mod Scan
pub mod Lookup
pub mod Resize
pub mod Adding
pub mod Mapping
pub mod Fresh
pub mod Removal
pub mod Swapup
pub mod Removing
use chip.Prelude.{
  ℕ, zero, suc, ◌+◌, ◌-◌, ◌*◌, ◌/◌, ◌%◌, ◌^◌, List, [], ◌∷◌, ◌++◌, Bool, true, false, ◌&&◌, ltb,
  leb, ◌==◌, if◌then◌else◌, Option, none, some, length, set, take, drop, bit_and,
}
use chip.Word.{word_mod}
use chip.Hash.{size_mod}
use Calls.{Call, done, exits, undefined, ◌>>=◌, at}

-- `data` is `none` where it is NULL.
pub record Element (D : Type 0) : Type 0 where
  pub data_of : Option D
  pub hash : ℕ
  pub len : ℕ
  pub distance : ℕ
  pub key : List ℕ

-- `del` is whether there is such a function.
pub record HashTable (D : Type 0) : Type 0 where
  pub table : List (Element D)
  pub size : ℕ
  pub element_size : ℕ
  pub count : ℕ
  pub min : ℕ
  pub max_distance : ℕ
  pub key_size : ℕ
  pub del : Bool
  pub hashing : List ℕ → ℕ
  pub dnswap : ℕ

-- What a call of `rbhash_swapdown` changes, but for `nw`.
pub record Slots (D : Type 0) : Type 0 where
  pub cells : List (Element D)
  pub max_distance : ℕ
  pub dnswap : ℕ

-- FAST_MOD_POW_TWO on `size_t`.
unfoldable pub fast_mod_pow_two : ℕ → ℕ → ℕ
fast_mod_pow_two n m = bit_and n ((m + (size_mod - 1)) % size_mod)

-- The slots that `uint32_t` variables hold.
unfoldable pub slot_of : ℕ → ℕ → ℕ
unfolding fast_mod_pow_two
slot_of n size = fast_mod_pow_two n size % word_mod

unfoldable pub slot_next : ℕ → ℕ → ℕ
unfolding slot_of
slot_next slot size = slot_of ((slot + 1) % word_mod) size

-- The first `n` bytes of two buffers change places.
unfoldable pub memswap : List ℕ → List ℕ → ℕ → Call (List ℕ × List ℕ)
memswap a b zero = done (a, b)
memswap [] b (suc n) = undefined
memswap (x ∷ a) [] (suc n) = undefined
memswap (x ∷ a) (y ∷ b) (suc n) = memswap a b n >>= λ r. done (y ∷ r.0, x ∷ r.1)

abbrev pub same : List ℕ → List ℕ → Bool
same [] [] = true
same [] (y ∷ b) = false
same (x ∷ a) [] = false
same (x ∷ a) (y ∷ b) = x == y && same a b

-- `!memcmp(a, b, n)`, which reads `n` bytes of both.
unfoldable pub memcmp : List ℕ → List ℕ → ℕ → Call Bool
memcmp a b n =
    if leb n (length a) && leb n (length b) then done (same (take n a) (take n b)) else undefined

module _ {D : Type 0} where
  abbrev pub is_empty : Element D → Bool
  is_empty e = e.len == 0

  -- The exchange in a round: what `tbl` and `nw` hold after it.
  unfoldable pub exchange : Element D → Element D → Call (Element D × Element D)
  unfolding memswap
  exchange tbl nw =
      memswap tbl.key nw.key (if ltb nw.len tbl.len then tbl.len else nw.len) >>= λ keys.
      done (record nw { key = keys.0 }, record tbl { key = keys.1 })

module _ {D : Type 0} where
  -- The exchange where `tbl` is nearer to its home.
  unfoldable pub settle : ℕ → Element D → Slots D → Element D → Call (Slots D × Element D)
  unfolding exchange
  settle bucket tbl s nw = elim (ltb tbl.distance nw.distance) [
    | true ↦ exchange tbl nw >>= λ r.
        done (record s { cells = set s.cells bucket r.0; dnswap = s.dnswap + 1 }, r.1)
    | false ↦ done (s, nw)
  ]

  -- A round at a bucket that holds `tbl`.
  unfoldable pub swap_round : ℕ → Element D → Slots D → Element D → Call (Slots D × Element D)
  unfolding settle
  swap_round bucket tbl s nw = settle bucket tbl s nw >>= λ r.
      let distance = (r.1.distance + 1) % word_mod in
      let max_distance = if ltb r.0.max_distance distance then distance else r.0.max_distance in
      done (record r.0 { max_distance = max_distance }, record r.1 { distance = distance })

  -- The loop, with `size - i` rounds left, and what follows it.
  unfoldable pub swapdown_loop : ℕ → ℕ → ℕ → Slots D → Element D → Call (Slots D)
  unfolding swap_round slot_next
  swapdown_loop size zero bucket s nw =
      at s.cells bucket
        (λ tbl. if is_empty tbl then done (record s { cells = set s.cells bucket nw }) else exits)
  swapdown_loop size (suc n) bucket s nw = at s.cells bucket (λ tbl. elim (is_empty tbl) [
    | true ↦ done (record s { cells = set s.cells bucket nw })
    | false ↦
        swap_round bucket tbl s nw >>= λ r. swapdown_loop size n (slot_next bucket size) r.0 r.1
  ])

  unfoldable pub swapdown : ℕ → Slots D → Element D → Call (Slots D)
  unfolding swapdown_loop slot_of
  swapdown size s nw = swapdown_loop size size (slot_of nw.hash size) s nw

  -- The loop of `rbhash_find_bucket`, with `maxscan` rounds left.
  unfoldable pub find_loop : List (Element D) → ℕ → ℕ → ℕ → ℕ → List ℕ → Call (Option ℕ)
  unfolding memcmp slot_next
  find_loop cells size zero slot hash key = done none
  find_loop cells size (suc n) slot hash key = at cells slot (λ e.
      (if e.len == length key && e.hash == hash then memcmp key e.key (length key) else done false)
      >>= λ b. elim b [
        | true ↦ done (some slot)
        | false ↦ find_loop cells size n (slot_next slot size) hash key
      ])

  unfoldable pub find_bucket : HashTable D → ℕ → List ℕ → Call (Option ℕ)
  unfolding find_loop slot_of
  find_bucket t hash key =
      find_loop t.table t.size ((t.max_distance + 1) % size_mod) (slot_of hash t.size) hash key

  unfoldable pub find_hash_raw : HashTable D → ℕ → List ℕ → Call (Option (Element D))
  unfolding find_bucket
  find_hash_raw t hash key = find_bucket t hash key >>= λ o. elim o [
    | none ↦ done none
    | some bucket ↦ at t.table bucket (λ e. done (some e))
  ]

  -- `el ? el->data : NULL`.
  abbrev pub data_at : Option (Element D) → Option D
  data_at none = none
  data_at (some e) = e.data_of

  unfoldable pub find_hash : HashTable D → ℕ → List ℕ → Call (Option D)
  unfolding find_hash_raw
  find_hash t hash key = find_hash_raw t hash key >>= λ o. done (data_at o)

  unfoldable pub find : HashTable D → List ℕ → Call (Option D)
  unfolding find_hash
  find t key = find_hash t (t.hashing key) key
