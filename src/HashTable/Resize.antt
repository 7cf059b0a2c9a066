-- ===== src/HashTable/Resize.antt =====
-- `rbhash_upsize`: it keeps every entry whose key does not start with a byte 0.
use mathlib.Core.Path.{sym, ◌∙◌, subst}
use mathlib.Core.List.{Permᴰ, append_assoc, append-nil}
use mathlib.Core.List.Permᴰ
use chip.Prelude.{
  ℕ, zero, suc, ◌+◌, ◌-◌, ◌^◌, ◌≤◌, ◌<◌, ◌≡◌, ◌≢◌, ap, ◌⊎◌, inl, inr, refl, arith, List, [], ◌∷◌,
  ◌++◌, Bool, true, false, none, some, length, take, get_elem?, get_elem?-some, length-append, All,
  All-parts, ==_iff, ◌==◌, ltb, Bool-cases, ltb→lt, lt→ltb,
}
use chip.Word.{word_mod}
use chip.HashTable.{Element, HashTable, Slots, is_empty}
use chip.HashTable.Grow.{Memory, clear, move_all, spare, upsize, round_up_pow_two}
use chip.HashTable.Calls.{Ends, ends, Ends-bind, Ends-at, Ends-if, Ends-option, Ends-map}
use chip.HashTable.Sizes.{IsSize, round_up_pow_two-least}
use chip.HashTable.Entries.{
  Entry, entry_of, entries, entry_of_empty, entry_of_live, entries-le, swap_fronts, Permᴰ-length,
}
use chip.HashTable.Spots.{Fits, Spots}
use chip.HashTable.Swapdown.{Settled, swapdown-Settled}
use chip.HashTable.Lookup.{IsTable}

first-take : (n : ℕ) (xs : List ℕ) → 0 < n → get_elem? (take n xs) 0 ≡ get_elem? xs 0
first-take zero xs h = absurd (omega arith)
first-take (suc n) [] h = refl
first-take (suc n) (x ∷ xs) h = refl

module _ {D : Type 0} where
  pub clear-length : (f : ℕ → Element D) (i n : ℕ) → length (clear f i n) ≡ n
  clear-length f i zero = refl
  clear-length f i (suc n) = ap suc (clear-length f (suc i) n)

  pub clear-entries : (f : ℕ → Element D) (i n : ℕ) → entries (clear f i n) ≡ []
  clear-entries f i zero = refl
  clear-entries f i (suc n) = clear-entries f (suc i) n

  pub clear-Spots :
      (m room md : ℕ) (f : ℕ → Element D) (i n : ℕ)
      → ((j : ℕ) → room ≤ length (f j).key)
      → Spots m room md (clear f i n)
  clear-Spots m room md f i n wide s e h =
      let both = cleared f i n s wide h in (both.1, λ live. let empty = both.0 in absurd cc)
    where
      cleared :
          (f : ℕ → Element D) (i n s : ℕ)
          → ((j : ℕ) → room ≤ length (f j).key)
          → get_elem? (clear f i n) s ≡ some e
          → (is_empty e ≡ true) × Fits room e
      cleared f i zero s wide h = cc
      cleared f i (suc n) zero wide h =
          let value : record (f i) { len = 0 } ≡ e = cc in
          subst (λ x. (is_empty x ≡ true) × Fits room x) value (refl, (omega arith, wide i))
      cleared f i (suc n) (suc s) wide h = cleared f (suc i) n s wide h

  -- Keys that do not start with a byte 0.
  abbrev pub NonZero : List (Entry D) → Type 0
  NonZero = All (λ x. get_elem? x.1 0 ≢ some 0)

  abbrev Moved : ℕ → ℕ → List (Element D) → Slots D → Slots D → Type 0
  Moved m room es s r =
      (length r.cells ≡ m)
      × Spots m room r.max_distance r.cells
      × (r.max_distance < word_mod)
      × Permᴰ (entries r.cells) (entries es ++ entries s.cells)

  -- An element whose first byte is 0 is empty.
  zero_first :
      (e : Element D) (es : List (Entry D))
      → get_elem? e.key 0 ≡ some 0
      → NonZero (entry_of e)
      → Permᴰ es (entry_of e ++ es)
  zero_first e es h k = elim (Bool-cases (is_empty e)) [
    | inl empty ↦ subst (λ l. Permᴰ es (l ++ es)) (sym (entry_of_empty e empty)) (Permᴰ.refl es)
    | inr live ↦
        let nonzero = (subst NonZero (entry_of_live e live) k).0 in
        absurd (nonzero (first-take e.len e.key (ground arith) ∙ h))
  ]

  move_all-Moved :
      (m room : ℕ) (es : List (Element D)) (s : Slots D)
      → IsSize m
      → 0 < room
      → length s.cells ≡ m
      → Spots m room s.max_distance s.cells
      → s.max_distance < word_mod
      → ((i : ℕ) (e : Element D) → get_elem? es i ≡ some e → Fits room e)
      → NonZero (entries es)
      → length (entries es) + length (entries s.cells) < m
      → Ends (Moved m room es s) (move_all m es s)
  unfolding move_all
  move_all-Moved m room [] s size p l spots small fits kept space =
      ends (l, spots, small, Permᴰ.refl _)
  move_all-Moved m room (e ∷ es) s size p l spots small fits kept space =
      let fit = fits 0 e refl in
      let (mine, rest) = All-parts _ (entry_of e) (entries es) kept in
      let sizes = length-append (entry_of e) (entries es) in
      let (x, first) = get_elem?-some e.key 0 (omega (arith, fit.1)) in
      Ends-at e.key 0 _ first (
        Ends-bind {P = Settled m room s e}
          (Ends-if (x == 0)
            (λ z.
              let start : x ≡ 0 = (==_iff x 0).0 z in
              ends (l, spots, small, zero_first e (entries s.cells) (first ∙ ap some start) mine))
            (λ z.
              swapdown-Settled m room s (record e { distance = 0 }) size l spots small fit refl
                (omega (arith, sizes))))
          (λ t (tl, ts, tm, tp).
            Ends-map
              (move_all-Moved m room es t size p tl ts tm (λ i. fits (suc i)) rest
                (omega
                  (arith, sizes, Permᴰ-length tp, length-append (entry_of e) (entries s.cells))))
              (λ r (rl, rs, rm, rp). (
                rl,
                rs,
                rm,
                Permᴰ.trans rp (
                    Permᴰ.trans (Permᴰ.append_left (entries es) tp) (
                      Permᴰ.trans (swap_fronts (entries es) (entry_of e) (entries s.cells)) (
                        subst (λ l. Permᴰ (entry_of e ++ (entries es ++ entries s.cells)) l)
                          (sym (append_assoc (entry_of e) (entries es) (entries s.cells)))
                          (Permᴰ.refl _)))),
              ))))

  -- What the allocator gives has buffers of the size that it is asked for.
  pub record IsWide (room : ℕ) (memory : Memory D) : Type 0 where
    pub elements-wide :
        (n : ℕ) (f : ℕ → Element D) → memory.elements n ≡ some f → (i : ℕ) → room ≤ length (f i).key
    pub element-wide : (m : Element D) → memory.element ≡ some m → room ≤ length m.key

  -- What no operation changes.
  abbrev pub Unchanged : HashTable D → HashTable D → Type 0
  Unchanged t u = (u.min ≡ t.min) × (u.key_size ≡ t.key_size) × (u.element_size ≡ t.element_size)

  -- The size, the array and the distance may change, the size only where slots are wanting, and the size leaves a slot free where there was memory.
  abbrev pub Resized : Memory D → HashTable D → Bool × HashTable D → Type 0
  Resized memory t r =
      IsTable r.1
      × Permᴰ (entries r.1.table) (entries t.table)
      × (r.1.count ≡ t.count)
      × (r.1.hashing ≡ t.hashing)
      × ((r.0 ≡ true × (r.1.count < r.1.size))
          ⊎ (r.0 ≡ false × (n : ℕ) × (memory.elements n ≡ none)))
      × Unchanged t r.1
      × (t.count + spare t < t.size → r.1.size ≡ t.size)

  -- Where the keys do not start with a byte 0 and the size asked for is at most 2 ^ 31, `rbhash_upsize` ends with a
  -- table of the same entries, and it leaves a slot free unless there is no memory for a larger one.
  pub upsize-Resized :
      (memory : Memory D) (t : HashTable D)
      → IsTable t
      → IsWide (t.element_size - 20) memory
      → t.count ≤ t.size
      → t.size + spare t ≤ 2 ^ 31
      → NonZero (entries t.table)
      → Ends (Resized memory t) (upsize memory t)
  unfolding upsize spare
  upsize-Resized memory t v w full bound kept =
      let (k, (small, power, above, least)) =
        round_up_pow_two-least (t.size + spare t) (omega arith) bound in
      let new_size = round_up_pow_two (t.size + spare t) in
      let old_wide = entries-le t.table in
      Ends-if (ltb (t.count + spare t) t.size)
        (λ e.
          let room = ltb→lt (t.count + spare t) t.size e in
          ends
            (v, Permᴰ.refl _, refl, refl, inl (refl, omega arith), (refl, refl, refl), λ l. refl))
        (λ e.
          Ends-option (memory.elements new_size)
            (λ none. ends (
              v,
              Permᴰ.refl _,
              refl,
              refl,
              inr (refl, new_size, none),
              (refl, refl, refl),
              λ l. refl,
            ))
            (λ f h.
              let wide = w.elements-wide new_size f h in
              let fresh = clear-entries f 0 new_size in
              Ends-bind
                (move_all-Moved new_size (t.element_size - 20) t.table
                  (record { cells = clear f 0 new_size; max_distance = 0; dnswap = t.dnswap })
                  (k, (small, power)) (omega (arith, v.key_room)) (clear-length f 0 new_size)
                  (clear-Spots new_size (t.element_size - 20) 0 f 0 new_size wide) (omega arith)
                  (λ i x g. (v.spots i x g).0) kept
                  (omega (arith, ap length fresh, old_wide, v.cells-size, power, above)))
                (λ s (l, spots, md, p).
                  let same : Permᴰ (entries s.cells) (entries t.table) =
                    subst (λ x. Permᴰ (entries s.cells) x)
                      (ap (λ x. entries t.table ++ x) fresh ∙ append-nil (entries t.table)) p in
                  ends (
                    record {
                      power = (k, (small, power));
                      cells-size = l;
                      spots = spots;
                      small = md;
                      key_room = v.key_room;
                      narrow = v.narrow;
                      counted = omega (arith, Permᴰ-length same, v.counted);
                    },
                    same,
                    refl,
                    refl,
                    inl (refl, omega (arith, power, above)),
                    (refl, refl, refl),
                    λ l. let roomy = lt→ltb (t.count + spare t) t.size l in absurd cc,
                  ))))
