-- ===== src/Parser/Naming.antt =====
-- The table of actions after `a32_parser_init`.
use mathlib.Core.Path.{sym, ◌∙◌, subst}
use chip.Prelude.{
  ℕ, ◌+◌, ◌-◌, ◌≤◌, ◌<◌, ◌≡◌, ◌≢◌, ap, refl, arith, ◌^◌, List, [], ◌∷◌, Bool, true, false, Option,
  none, some, length, get_elem?, All, if◌then◌else◌, not, ◌&&◌, &&_iff, ltb, leb, ltb→lt, leb→le,
}
use chip.HashTable.{HashTable, Element, same, find}
use chip.HashTable.Grow.{Memory, Added, add, spare}
use chip.HashTable.Calls.{done, Ends, ends, Ends-bind, Ends-map}
use chip.HashTable.Resize.{IsWide}
use chip.HashTable.Adding.{Adds, add_hash-Adds}
use chip.HashTable.Mapping.{IsMap, Finds, adds-Finds, adds-IsMap}
use chip.Parser.Commands.{Action, actions, add_actions, parser_init}

-- The last action of a name in a list, or a default.
abbrev pub named : List (List ℕ × Action) → List ℕ → Option Action → Option Action
named [] k o = o
named (a ∷ rest) k o = named rest k (if same k a.0 then some a.1 else o)

spare_eq : (t u : HashTable Action) → u.size ≡ t.size → u.min ≡ t.min → spare u ≡ spare t
unfolding spare
spare_eq t u e f = rw (e, f) refl

add-Adds :
    (memory : Memory Action) (t : HashTable Action) (key : List ℕ) (a : Action) (m : Element Action)
    → memory.element ≡ some m
    → IsWide (t.element_size - 20) memory
    → IsMap t
    → t.count < t.size
    → 0 < length key
    → length key ≤ t.key_size
    → (t.min ≢ 0 → t.size + spare t ≤ 2 ^ 31)
    → get_elem? key 0 ≢ some 0
    → Ends (Adds memory t (t.hashing key, key, some a)) (add memory t key (some a))
unfolding add
add-Adds memory t key a m given wide v space h fit bound start =
    add_hash-Adds memory t (t.hashing key) key (some a) m given wide v.table space h fit bound
      (start, v.starts)

abbrev pub Distinct : List (List ℕ × Action) → Type 0
Distinct [] = Unit
Distinct (a ∷ rest) = All (λ b. same b.0 a.0 ≡ false) rest × Distinct rest

abbrev pub IsKey : ℕ → List ℕ × Action → Type 0
IsKey size a = (0 < length a.0) × (length a.0 ≤ size) × (get_elem? a.0 0 ≢ some 0)

abbrev pub IsAbsent : HashTable Action → List ℕ × Action → Type 0
IsAbsent t a = find t a.0 ≡ done none

-- A map with room for more actions, under new names.
pub record IsReady (memory : Memory Action) (l : List (List ℕ × Action)) (t : HashTable Action)
    : Type 0 where
  pub map : IsMap t
  pub wide : IsWide (t.element_size - 20) memory
  pub room : t.count + length l + spare t < t.size
  pub bound : t.min ≢ 0 → t.size + spare t ≤ 2 ^ 31
  pub keys : All (IsKey t.key_size) l
  pub distinct : Distinct l
  pub absent : All (IsAbsent t) l

still-IsAbsent :
    (t u : HashTable Action) (a : List ℕ × Action) (l : List (List ℕ × Action))
    → Finds t u a.0 a.1
    → All (IsKey t.key_size) l
    → All (λ b. same b.0 a.0 ≡ false) l
    → All (IsAbsent t) l
    → All (IsAbsent u) l
still-IsAbsent t u a [] f k d n = tt
still-IsAbsent t u a (b ∷ l) f k d n = (
  f b.0 none k.0.0 n.0 ∙ ap (λ c. done (if c then some a.1 else none)) d.0,
  still-IsAbsent t u a l f k.1 d.1 n.1,
)

add-IsReady :
    (memory : Memory Action) (a : List ℕ × Action) (l : List (List ℕ × Action))
    (t : HashTable Action) {r : Added × HashTable Action}
    → IsReady memory (a ∷ l) t
    → Adds memory t (t.hashing a.0, a.0, some a.1) r
    → IsReady memory l r.1 × Finds t r.1 a.0 a.1
add-IsReady memory a l t {r} v adds =
    let still : r.1.size ≡ t.size = adds.6 (omega (arith, v.room)) in
    let spares = spare_eq t r.1 still adds.5.0 in
    let finds = adds-Finds memory t a.0 a.1 r v.map v.keys.0.0 v.absent.0 adds in
    (
      record {
        map = adds-IsMap memory t a.0 a.1 r v.map v.keys.0.0 v.keys.0.2 v.absent.0 adds;
        wide = subst (λ n. IsWide (n - 20) memory) (sym adds.5.2) v.wide;
        room = omega (arith, v.room, still, spares, adds.2);
        bound = λ n. let old = v.bound (λ e. n (adds.5.0 ∙ e)) in omega (arith, old, still, spares);
        keys = subst (λ n. All (IsKey n) l) (sym adds.5.1) v.keys.1;
        distinct = v.distinct.1;
        absent = still-IsAbsent t r.1 a l finds v.keys.1 v.distinct.0 v.absent.1;
      },
      finds,
    )

abbrev pub Names : List (List ℕ × Action) → HashTable Action → HashTable Action → Type 0
Names l t u =
    IsMap u
    × ((k : List ℕ) (o : Option Action)
        → 0 < length k
        → find t k ≡ done o
        → find u k ≡ done (named l k o))

add_actions-Names :
    (memory : Memory Action) (m : Element Action) (l : List (List ℕ × Action))
    (t : HashTable Action)
    → memory.element ≡ some m
    → IsReady memory l t
    → Ends (Names l t) (add_actions memory l t)
unfolding add_actions
add_actions-Names memory m [] t given v = ends (v.map, λ k o h f. f)
add_actions-Names memory m (a ∷ l) t given v =
    Ends-bind
      (add-Adds memory t a.0 a.1 m given v.wide v.map (omega (arith, v.room)) v.keys.0.0 v.keys.0.1
        v.bound v.keys.0.2)
      (λ r adds.
        let next = add-IsReady memory a l t v adds in
        Ends-map (add_actions-Names memory m l r.1 given next.0)
          (λ u names. (names.0, λ k o h f. names.1 k _ h (next.1 k o h f))))

-- The names of the actions are tried out.
abbrev not_among : List ℕ → List (List ℕ × Action) → Bool
not_among k [] = true
not_among k (b ∷ l) = not (same b.0 k) && not_among k l

abbrev all_differ : List (List ℕ × Action) → Bool
all_differ [] = true
all_differ (a ∷ l) = not_among a.0 l && all_differ l

not_true : (b : Bool) → not b ≡ true → b ≡ false
not_true true h = cc
not_true false h = refl

not_among_sound :
    (k : List ℕ) (l : List (List ℕ × Action))
    → not_among k l ≡ true
    → All (λ b. same b.0 k ≡ false) l
not_among_sound k [] h = tt
not_among_sound k (b ∷ l) h =
    let t = (&&_iff (not (same b.0 k)) (not_among k l)).0 h in
    (not_true (same b.0 k) t.0, not_among_sound k l t.1)

all_differ-Distinct : (l : List (List ℕ × Action)) → all_differ l ≡ true → Distinct l
all_differ-Distinct [] h = tt
all_differ-Distinct (a ∷ l) h =
    let t = (&&_iff (not_among a.0 l) (all_differ l)).0 h in
    (not_among_sound a.0 l t.0, all_differ-Distinct l t.1)

abbrev is_key : List ℕ → Bool
is_key [] = false
is_key (x ∷ k) = ltb 0 x && leb (length k) 6

abbrev all_keys : List (List ℕ × Action) → Bool
all_keys [] = true
all_keys (a ∷ l) = is_key a.0 && all_keys l

is_key-IsKey : (n : ℕ) (k : List ℕ) (a : Action) → 7 ≤ n → is_key k ≡ true → IsKey n (k, a)
is_key-IsKey n [] a h e = cc
is_key-IsKey n (x ∷ k) a h e =
    let t = (&&_iff (ltb 0 x) (leb (length k) 6)).0 e in
    let positive = ltb→lt 0 x t.0 in
    let short = leb→le (length k) 6 t.1 in
    (omega arith, omega arith, λ f. let zero_there : x ≡ 0 = cc in omega arith)

all_keys-IsKey : (n : ℕ) (l : List (List ℕ × Action)) → 7 ≤ n → all_keys l ≡ true → All (IsKey n) l
all_keys-IsKey n [] h e = tt
all_keys-IsKey n (a ∷ l) h e =
    let t = (&&_iff (is_key a.0) (all_keys l)).0 e in
    (is_key-IsKey n a.0 a.1 h t.0, all_keys-IsKey n l h t.1)

All-IsAbsent :
    (t : HashTable Action) (l : List (List ℕ × Action))
    → All (IsKey t.key_size) l
    → ((k : List ℕ) → 0 < length k → find t k ≡ done none)
    → All (IsAbsent t) l
All-IsAbsent t [] k n = tt
All-IsAbsent t (a ∷ l) k n = (n a.0 k.0.0, All-IsAbsent t l k.1 n)

-- In an empty map whose keys have 7 bytes or more and that keeps room for the 36 names, if there is memory for the
-- elements, `a32_parser_init` ends with a map in which `rbhash_find` gives each of the 36 names its action and every
-- other key NULL.
pub parser_init-named :
    (memory : Memory Action) (m : Element Action) (t : HashTable Action)
    → memory.element ≡ some m
    → IsWide (t.element_size - 20) memory
    → IsMap t
    → ((k : List ℕ) → 0 < length k → find t k ≡ done none)
    → t.count + 36 + spare t < t.size
    → (t.min ≢ 0 → t.size + spare t ≤ 2 ^ 31)
    → 7 ≤ t.key_size
    → Ends
        (λ u. IsMap u × ((k : List ℕ) → 0 < length k → find u k ≡ done (named actions k none)))
        (parser_init memory t)
unfolding parser_init
parser_init-named memory m t given wide v nothing room bound long =
    let keys = all_keys-IsKey t.key_size actions long refl in
    Ends-map
      (add_actions-Names memory m actions t given (record {
        map = v;
        wide = wide;
        room = room;
        bound = bound;
        keys = keys;
        distinct = all_differ-Distinct actions refl;
        absent = All-IsAbsent t actions keys nothing;
      }))
      (λ u names. (names.0, λ k h. names.1 k none h (nothing k h)))
