-- ===== src/HashTable/Swapdown.antt =====
-- `rbhash_swapdown`: it finds room, and the table then holds the new entry besides the others.
use mathlib.Core.Path.{sym, ◌∙◌, subst}
use mathlib.Core.List.{Permᴰ}
use native.Mathlib.Nat.{mod-add-mod, mod-eq_of_lt, mod-lt, add-mod_left}
use chip.Prelude.{
  ℕ, zero, suc, ◌+◌, ◌-◌, ◌%◌, ◌≤◌, ◌<◌, ◌≡◌, ◌≢◌, ap, inl, inr, refl, arith, List, ◌++◌, true,
  false, some, length, get_elem?, set, length-set, get_elem?-lt, get_elem?-some, lt-cases,
  if◌then◌else◌,
}
use chip.Word.{word_mod}
use chip.HashTable.{Element, Slots, is_empty, swapdown_loop, swapdown, slot_of}
use chip.HashTable.Calls.{Ends, ends, Ends-bind, Ends-at, Ends-case, Ends-map, done, exits}
use chip.HashTable.Sizes.{IsSize, IsSize-bounds, slot_of-mod, slot_next-mod}
use chip.HashTable.Entries.{entry_of, entries, entries-set, entry_of_empty, empty_slot}
use chip.HashTable.Spots.{Fits, Spots, Spots-set}
use chip.HashTable.Exchange.{Carried, swap_round-After}

-- An offset from one slot to another.
pub offset : (m a s : ℕ) → a < m → s < m → (t : ℕ) × ((t < m) × ((a + t) % m ≡ s))
offset m a s h l = elim (lt-cases s a) [
  | inl before ↦ (
    m + s - a,
    (
      omega arith,
      ap (λ n. n % m) {x = a + (m + s - a)} {y = m + s} (omega arith)
          ∙ add-mod_left m s
          ∙ mod-eq_of_lt l,
    ),
  )
  | inr after ↦ (
    s - a,
    (omega arith, ap (λ n. n % m) {x = a + (s - a)} {y = s} (omega arith) ∙ mod-eq_of_lt l),
  )
]

pub no_offset : (m s : ℕ) → s < m → (s + 0) % m ≡ s
no_offset m s h = ap (λ n. n % m) {x = s + 0} {y = s} (omega arith) ∙ mod-eq_of_lt h

module _ {D : Type 0} where
  -- What a call leaves.
  abbrev pub Settled : ℕ → ℕ → Slots D → Element D → Slots D → Type 0
  Settled m room s nw r =
      (length r.cells ≡ m)
      × Spots m room r.max_distance r.cells
      × (r.max_distance < word_mod)
      × Permᴰ (entries r.cells) (entry_of nw ++ entries s.cells)

  -- A slot that is empty, `t` slots after the bucket.
  abbrev Free : ℕ → ℕ → ℕ → List (Element D) → Type 0
  Free m bucket t cells =
      (e : Element D) × ((get_elem? cells ((bucket + t) % m) ≡ some e) × (is_empty e ≡ true))

  placed :
      (m room bucket : ℕ) (tbl nw : Element D) (s : Slots D)
      → Carried m room bucket s nw
      → get_elem? s.cells bucket ≡ some tbl
      → is_empty tbl ≡ true
      → Settled m room s nw (record s { cells = set s.cells bucket nw })
  placed m room bucket tbl nw s c h e = (
    length-set s.cells bucket nw ∙ c.cells-size,
    Spots-set m room s.max_distance s.cells bucket nw (get_elem?-lt s.cells bucket h) c.spots c.fits
        c.near,
    c.small,
    subst (λ l. Permᴰ (l ++ entries (set s.cells bucket nw)) (entry_of nw ++ entries s.cells))
        (entry_of_empty tbl e) (entries-set s.cells bucket nw h),
  )

  -- A bucket that is not empty brings the empty slot one nearer.
  closer :
      (m bucket t : ℕ) (before after : List (Element D)) (tbl : Element D)
      → bucket < m
      → get_elem? before bucket ≡ some tbl
      → is_empty tbl ≡ false
      → ((i : ℕ) → bucket ≢ i → get_elem? after i ≡ get_elem? before i)
      → Free m bucket t before
      → (u : ℕ) × ((suc u ≡ t) × Free m ((bucket + 1) % m) u after)
  closer m bucket zero before after tbl b found live o (e, (there, empty)) =
      let here = no_offset m bucket b in
      let same = ap (λ i. get_elem? before i) here in
      let held : tbl ≡ e = cc in let state = ap is_empty held in absurd cc
  closer m bucket (suc u) before after tbl b found live o (e, (there, empty)) =
      let step : ((bucket + 1) % m + u) % m ≡ (bucket + suc u) % m =
        mod-add-mod (bucket + 1) m u
        ∙ ap (λ n. n % m) {x = bucket + 1 + u} {y = bucket + suc u} (omega arith) in
      let apart : bucket ≢ (bucket + suc u) % m = λ h.
        let same = ap (λ i. get_elem? before i) h in
        let held : tbl ≡ e = cc in let state = ap is_empty held in cc in
      (u, (refl, (e, (ap (λ i. get_elem? after i) step ∙ o _ apart ∙ there, empty))))

  swapdown_loop-Settled :
      (m room n bucket t : ℕ) (s : Slots D) (nw : Element D)
      → IsSize m
      → bucket < m
      → Carried m room bucket s nw
      → t ≤ n
      → Free m bucket t s.cells
      → Ends (Settled m room s nw) (swapdown_loop m n bucket s nw)
  unfolding swapdown_loop
  swapdown_loop-Settled m room zero bucket (suc t) s nw size b c h free = absurd (omega arith)
  swapdown_loop-Settled m room zero bucket zero s nw size b c h (free, (there, empty)) =
      let here = no_offset m bucket b in
      let found = sym (ap (λ i. get_elem? s.cells i) here) ∙ there in
      Ends-at s.cells bucket _ found (
        subst
          (λ k.
            Ends (Settled m room s nw)
              (if k then done (record s { cells = set s.cells bucket nw }) else exits))
          (sym empty) (ends (placed m room bucket free nw s c found empty)))
  swapdown_loop-Settled m room (suc n) bucket t s nw size b c h free =
      let (tbl, found) = get_elem?-some s.cells bucket (omega (arith, c.cells-size)) in
      Ends-at s.cells bucket _ found (
        Ends-case (is_empty tbl) (λ e. ends (placed m room bucket tbl nw s c found e))
          (λ live.
            Ends-bind (swap_round-After m room bucket tbl nw s (IsSize-bounds m size).1 c found)
              (λ r (k, p, o, l).
                let (u, (g, free_there)) =
                  closer m bucket t s.cells r.0.cells tbl b found live o free in
                subst (λ i. Ends (Settled m room s nw) (swapdown_loop m n i r.0 r.1))
                  (sym (slot_next-mod bucket m size b))
                  (Ends-map
                    (swapdown_loop-Settled m room n ((bucket + 1) % m) u r.0 r.1 size
                      (mod-lt _ (IsSize-bounds m size).0) k (omega (arith, g)) free_there)
                    (λ q (x, y, z, w). (x, y, z, Permᴰ.trans w p))))))

  -- There is room in a table with fewer entries than slots.
  pub swapdown-Settled :
      (m room : ℕ) (s : Slots D) (nw : Element D)
      → IsSize m
      → length s.cells ≡ m
      → Spots m room s.max_distance s.cells
      → s.max_distance < word_mod
      → Fits room nw
      → nw.distance ≡ 0
      → length (entries s.cells) < m
      → Ends (Settled m room s nw) (swapdown m s nw)
  unfolding swapdown
  swapdown-Settled m room s nw size cells spots small fits start space =
      let (positive, bound) = IsSize-bounds m size in
      let home = slot_of-mod nw.hash m size in
      let inside : slot_of nw.hash m < m = omega (arith, home, mod-lt nw.hash positive) in
      let (i, e, there, empty) = empty_slot s.cells (omega (arith, cells)) in
      let (t, (short, reach)) =
        offset m (slot_of nw.hash m) i inside
          (omega (arith, cells, get_elem?-lt s.cells i there)) in
      swapdown_loop-Settled m room m (slot_of nw.hash m) t s nw size inside
        (record {
          cells-size = cells;
          spots = spots;
          fits = fits;
          near = λ live. inr (
            0,
            ap (λ n. n % m) {x = nw.hash + 0} {y = nw.hash} (omega arith) ∙ sym home,
            omega arith,
            omega (arith, start),
          );
          small = small;
        })
        (omega arith) (e, (ap (λ j. get_elem? s.cells j) reach ∙ there, empty))
