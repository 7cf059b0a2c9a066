-- ===== src/Tests/Tables.antt =====
-- Hash tables of two or four slots, with keys of up to four bytes.
use mathlib.Core.Path.{subst}
use chip.Prelude.{
  ℕ, zero, suc, ◌+◌, ◌≤◌, ◌≡◌, ◌%◌, refl, arith, List, [], ◌∷◌, Bool, true, false, Option, none,
  some, length, get_elem?, replicate, ◌≢◌, inl,
}
use chip.HashTable.{Element, HashTable, find_hash, is_empty}
use chip.HashTable.Calls.{Call, Ends, done, exits, undefined, ◌>>=◌}
use chip.HashTable.Grow.{Memory, new, add_unique, upsize, spare}
use chip.HashTable.Entries.{Entry, entries}
use chip.HashTable.Spots.{Fits, Near}
use chip.HashTable.Lookup.{IsTable, Held, find_hash-Held}
use chip.HashTable.Resize.{IsWide, Resized, upsize-Resized}
use chip.HashTable.Mapping.{Stores, add_unique-Stores, IsMap}
use chip.HashTable.Fresh.{new-IsMap}
use chip.HashTable.Removal.{remove_hash}
use chip.HashTable.Removing.{Removes, remove_hash-Removes}

abbrev garbage : Element ℕ
garbage = record { data_of = some 99; hash = 3; len = 7; distance = 5; key = replicate 12 255 }

abbrev memory : Memory ℕ
memory = record { elements = λ n. some (λ i. garbage); element = some garbage }

-- An option of a function or element whose buffers have 12 bytes.
abbrev Wide : Option (ℕ → Element ℕ) → Type 0
Wide none = Unit
Wide (some f) = (i : ℕ) → 12 ≤ length (f i).key

abbrev WideOne : Option (Element ℕ) → Type 0
WideOne none = Unit
WideOne (some e) = 12 ≤ length e.key

memory-IsWide : IsWide 12 memory
memory-IsWide = record {
  elements-wide = λ n f e. subst Wide e (λ i. omega arith);
  element-wide = λ m e. subst WideOne e (omega arith);
}

-- The hash of a text is its first byte.
abbrev first : List ℕ → ℕ
first [] = 0
first (x ∷ xs) = x

abbrev two_slots : HashTable ℕ
two_slots = record {
  table = record garbage { len = 0 } ∷ record garbage { len = 0 } ∷ [];
  size = 2;
  element_size = 32;
  count = 0;
  min = 10;
  max_distance = 0;
  key_size = 4;
  del = true;
  hashing = first;
  dnswap = 0;
}

made : new memory 2 10 4 first true 0 ≡ some two_slots
unfolding new
made = refl

abbrev key : List ℕ
key = 65 ∷ 66 ∷ []

start_ne_zero : get_elem? key 0 ≢ some 0
start_ne_zero e = cc

two_slots-IsMap : IsMap two_slots
two_slots-IsMap =
    (new-IsMap memory 2 10 4 first true 0 two_slots (omega arith) (omega arith) (omega arith) made
      memory-IsWide).0

add_unique-Stores_example :
    Ends (Stores memory two_slots key 7) (add_unique memory two_slots key (some 7))
unfolding spare
add_unique-Stores_example =
    add_unique-Stores memory two_slots key 7 garbage refl memory-IsWide two_slots-IsMap
      (omega arith) (omega arith) (omega arith) start_ne_zero (λ n. omega arith)

-- The key stands behind its home, with the distance of it.
abbrev behind : Element ℕ
behind = record {
  data_of = some 7;
  hash = 64;
  len = 2;
  distance = 1;
  key = 65 ∷ 66 ∷ replicate 10 0;
}

abbrev one_entry : HashTable ℕ
one_entry = record two_slots {
  table = record garbage { len = 0 } ∷ behind ∷ [];
  count = 1;
  max_distance = 1;
}

spot_cases :
    (P : ℕ → Element ℕ → Type 0)
    → P 0 (record garbage { len = 0 })
    → P 1 behind
    → (s : ℕ) (e : Element ℕ) → get_elem? one_entry.table s ≡ some e
    → P s e
spot_cases P a b zero e h = let v : record garbage { len = 0 } ≡ e = cc in subst (P 0) v a
spot_cases P a b (suc zero) e h = let v : behind ≡ e = cc in subst (P 1) v b
spot_cases P a b (suc (suc s)) e h = cc

one_entry-IsTable : IsTable one_entry
one_entry-IsTable = record {
  power = (1, (omega arith, refl));
  cells-size = refl;
  spots =
      spot_cases (λ s e. Fits 12 e × (is_empty e ≡ false → Near 2 1 s e))
        ((omega arith, omega arith), λ h. cc) ((omega arith, omega arith), λ h. inl (omega arith));
  small = omega arith;
  key_room = omega arith;
  narrow = omega arith;
  counted = omega arith;
}

find_hash-Held_example : Ends (Held one_entry 64 key) (find_hash one_entry 64 key)
find_hash-Held_example = find_hash-Held one_entry 64 key one_entry-IsTable (omega arith)

remove_hash-Removes_example : Ends (Removes one_entry 64 key) (remove_hash one_entry 64 key)
remove_hash-Removes_example =
    remove_hash-Removes one_entry 64 key one_entry-IsTable
      (spot_cases (λ s e. is_empty e ≡ false → (e.hash + e.distance) % 2 ≡ s) (λ h. cc) (λ h. refl))
      (omega arith) (omega arith)

-- One entry in two slots leaves no slot to spare, and the table grows to four.
upsize-Resized_example : Ends (Resized memory one_entry) (upsize memory one_entry)
unfolding spare
upsize-Resized_example =
    upsize-Resized memory one_entry one_entry-IsTable memory-IsWide (omega arith) (omega arith)
      (start_ne_zero, tt)

abbrev grown : Call (Bool × HashTable ℕ) → List (Entry ℕ)
grown (done (b, t)) = entries t.table
grown exits = []
grown undefined = []

after_growth : grown (upsize memory one_entry) ≡ (64, key, some 7) ∷ []
unfolding upsize
after_growth = refl

-- A key that starts with a byte 0 is not moved.
abbrev zero_key : HashTable ℕ
zero_key = record one_entry {
  table = record garbage { len = 0 } ∷ record behind { key = replicate 12 0 } ∷ [];
}

lost_by_growth : grown (upsize memory zero_key) ≡ []
unfolding upsize
lost_by_growth = refl

-- Two keys of home 0 and one of home 3 in four slots: when the first and the last have been removed, the second
-- stands behind all the slots that are scanned for it.
abbrev four_slots : HashTable ℕ
four_slots = record two_slots {
  table =
      record { data_of = some 1; hash = 0; len = 1; distance = 0; key = 65 ∷ replicate 11 0 }
      ∷ record { data_of = some 2; hash = 0; len = 1; distance = 1; key = 66 ∷ replicate 11 0 }
      ∷ record garbage { len = 0 }
      ∷ record { data_of = some 3; hash = 3; len = 1; distance = 0; key = 67 ∷ replicate 11 0 }
      ∷ [];
  size = 4;
  count = 3;
  max_distance = 1;
}

before_removals : find_hash four_slots 0 (66 ∷ []) ≡ done (some 2)
unfolding find_hash
before_removals = refl

lost_by_removals :
    (remove_hash four_slots 0 (65 ∷ []) >>= λ r.
    remove_hash r.1 3 (67 ∷ []) >>= λ q. find_hash q.1 0 (66 ∷ []))
    ≡ done none
unfolding remove_hash find_hash
lost_by_removals = refl
