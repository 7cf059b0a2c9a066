-- ===== src/HashTable/Grow.antt =====
-- The operations of core/rbhash.c that make a table and add to it.
use chip.Prelude.{
  ℕ, zero, suc, ◌+◌, ◌-◌, ◌*◌, ◌/◌, ◌%◌, ◌^◌, List, [], ◌∷◌, ◌++◌, Bool, true, false, ltb, ◌==◌,
  if◌then◌else◌, Option, none, some, length, drop, bit_or,
}
use chip.Word.{word_mod}
use chip.Hash.{size_mod}
use chip.HashTable.{Element, HashTable, Slots, swapdown, find}
use chip.HashTable.Calls.{Call, done, undefined, ◌>>=◌, at}

-- What `malloc` gives for a number of elements, and for one: `none`, or memory of any content.
pub record Memory (D : Type 0) : Type 0 where
  pub elements : ℕ → Option (ℕ → Element D)
  pub element : Option (Element D)

-- The results of the functions that add: 0, -1 with `errno` set to EFBIG, and -1.
pub data Added : Type 0 where
  added too_big failed : Added

-- A step of ROUND_UP_POW_TWO32.
abbrev pub smear : ℕ → ℕ → ℕ
smear k r = bit_or r (r / 2 ^ k)

unfoldable pub round_up_pow_two : ℕ → ℕ
round_up_pow_two n =
    let r0 = (n % word_mod + (word_mod - 1)) % word_mod in
    (smear 16 (smear 8 (smear 4 (smear 2 (smear 1 r0)))) + 1) % word_mod

unfoldable pub round_up : ℕ → ℕ → ℕ
round_up n s = (n + s - 1) / s * s

module _ {D : Type 0} where
  -- New memory for `n` elements from index `i` on, each made empty.
  abbrev pub clear : (ℕ → Element D) → ℕ → ℕ → List (Element D)
  clear memory i zero = []
  clear memory i (suc n) = record (memory i) { len = 0 } ∷ clear memory (suc i) n

  -- The elements of the old table whose first byte is not 0 move to the new one.
  unfoldable pub move_all : ℕ → List (Element D) → Slots D → Call (Slots D)
  unfolding swapdown
  move_all size [] s = done s
  move_all size (e ∷ es) s = at e.key 0 (λ x.
      (if x == 0 then done s else swapdown size s (record e { distance = 0 })) >>= λ t.
      move_all size es t)

  -- The number of slots to keep free.
  unfoldable pub spare : HashTable D → ℕ
  spare t = t.size * t.min % size_mod / 100 + 1

  -- `true` is the result 0, `false` the result -1.
  unfoldable pub upsize : Memory D → HashTable D → Call (Bool × HashTable D)
  unfolding move_all spare round_up_pow_two
  upsize memory t =
      let new_size = round_up_pow_two (t.size + spare t) in
      if ltb (t.count + spare t) t.size then done (true, t) else elim (memory.elements new_size) [
        | none ↦ done (false, t)
        | some new ↦
            move_all new_size t.table
              (record { cells = clear new 0 new_size; max_distance = 0; dnswap = t.dnswap })
            >>= λ s. done (
              true,
              record t {
                table = s.cells;
                size = new_size;
                max_distance = s.max_distance;
                dnswap = s.dnswap;
              },
            )
      ]

  -- The copy of the key leaves the rest of the new buffer as it is.
  unfoldable pub new_element : Element D → ℕ → List ℕ → Option D → Call (Element D)
  new_element memory hash key data_of =
      if ltb (length memory.key) (length key)
      then undefined
      else done (record {
        data_of = data_of;
        hash = hash;
        len = length key % word_mod;
        distance = 0;
        key = key ++ drop (length key) memory.key;
      })

  unfoldable pub add_hash :
      Memory D → HashTable D → ℕ → List ℕ → Option D → Call (Added × HashTable D)
  unfolding upsize new_element swapdown
  add_hash memory t hash key data_of = elim (ltb t.key_size (length key)) [
    | true ↦ done (too_big, t)
    | false ↦ elim memory.element [
      | none ↦ done (failed, t)
      | some m ↦ new_element m hash key data_of >>= λ el.
          swapdown t.size
            (record { cells = t.table; max_distance = t.max_distance; dnswap = t.dnswap }) el
          >>= λ s.
              let u = record t {
                table = s.cells;
                max_distance = s.max_distance;
                dnswap = s.dnswap;
                count = t.count + 1;
              } in
              elim (t.min == 0) [
                | true ↦ done (added, u)
                | false ↦ upsize memory u >>= λ r. done (if r.0 then added else failed, r.1)
              ]
    ]
  ]

  unfoldable pub add : Memory D → HashTable D → List ℕ → Option D → Call (Added × HashTable D)
  unfolding add_hash
  add memory t key data_of = add_hash memory t (t.hashing key) key data_of

  unfoldable pub add_unique :
      Memory D → HashTable D → List ℕ → Option D → Call (Added × HashTable D)
  unfolding add find
  add_unique memory t key data_of =
      find t key >>= λ o. elim o [ none ↦ add memory t key data_of | some d ↦ done (failed, t) ]

  -- `sizeof(rbhashElement_s)` is 24, of which the last 4 bytes are the first of the key. The memory for the
  -- table itself is there.
  unfoldable pub new : Memory D → ℕ → ℕ → ℕ → (List ℕ → ℕ) → Bool → ℕ → Option (HashTable D)
  unfolding round_up_pow_two round_up
  new memory size min key_size hashing del dnswap =
      let size2 = round_up_pow_two size in
      elim (memory.elements size2) [
        | none ↦ none
        | some m ↦ some (record {
          table = clear m 0 size2;
          size = size2;
          element_size = round_up (round_up 24 8 + key_size + 1) 8;
          count = 0;
          min = min;
          max_distance = 0;
          key_size = key_size;
          del = del;
          hashing = hashing;
          dnswap = dnswap;
        })
      ]
