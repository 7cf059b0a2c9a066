-- ===== src/HashTable/Swapup.antt =====
-- `rbhash_swapup` on a table whose elements have their true distances.
use mathlib.Core.Path.{sym, ◌∙◌, subst}
use mathlib.Core.List.{Permᴰ}
use mathlib.Core.List.Permᴰ
use native.Mathlib.Nat.{mod-add-mod, mod-eq_of_lt, mod-lt, mod_self}
use chip.Prelude.{
  ℕ, ◌+◌, ◌-◌, ◌%◌, ◌^◌, ◌<◌, ◌≡◌, ◌≢◌, ap, inl, inr, refl, arith, List, ◌++◌, Bool, true, false,
  not, ◌&&◌, some, length, get_elem?, get_elem?-some, get_elem?-set_self, get_elem?-set_ne, set,
  set_comm, length-set, lt-cases, ==_iff, ◌==◌, &&_iff,
}
use chip.Hash.{size_mod}
use chip.HashTable.{Element, is_empty, fast_mod_pow_two}
use chip.HashTable.Removal.{cleared, wide_slot_next, swapup_loop, swapup}
use chip.HashTable.Calls.{Ends, ends, Ends-at, Ends-case}
use chip.HashTable.Sizes.{IsSize, IsSize-bounds}
use chip.HashTable.Entries.{entry_of, entries, entries-set, entry_of_empty}
use chip.HashTable.Spots.{Near, Spots, Spots-set}
use chip.Word.Digits.{bit_and-mask}

wide_slot_next-mod : (s m : ℕ) → IsSize m → s < m → wide_slot_next s m ≡ (s + 1) % m
unfolding wide_slot_next fast_mod_pow_two
wide_slot_next-mod s m (k, (h, e)) l =
    let bounds = IsSize-bounds m (k, (h, e)) in
    let minus : (m + (size_mod - 1)) % size_mod ≡ 2 ^ k - 1 = omega (arith, bounds.0, bounds.1) in
    let small : (s + 1) % size_mod ≡ s + 1 = omega (arith, bounds.1) in
    rw (small, minus, bit_and-mask (s + 1) k, sym e) refl

not_true : (b : Bool) → not b ≡ true → b ≡ false
not_true true h = cc
not_true false h = refl

step_back : (m x b : ℕ) → b < m → (x + 1) % m ≡ (b + 1) % m → x % m ≡ b
step_back m x b l e = back (x % m) (mod-lt x (omega arith)) (mod-add-mod x m 1 ∙ e)
  where
    back : (y : ℕ) → y < m → (y + 1) % m ≡ (b + 1) % m → y ≡ b
    back y k f = elim (lt-cases (y + 1) m) [
      | inl i ↦ elim (lt-cases (b + 1) m) [
        | inl j ↦ omega (arith, sym (mod-eq_of_lt i) ∙ f ∙ mod-eq_of_lt j)
        | inr j ↦
            let last : b + 1 ≡ m = omega arith in
            let zero_there = ap (λ n. n % m) last ∙ mod_self m in
            absurd (omega (arith, sym (mod-eq_of_lt i) ∙ f ∙ zero_there))
      ]
      | inr i ↦ elim (lt-cases (b + 1) m) [
        | inl j ↦
            let last : y + 1 ≡ m = omega arith in
            let zero_there = ap (λ n. n % m) last ∙ mod_self m in
            absurd (omega (arith, sym zero_there ∙ f ∙ mod-eq_of_lt j))
        | inr j ↦ omega arith
      ]
    ]

module _ {D : Type 0} where
  -- Every element is `distance` slots from its home.
  abbrev pub Exact : ℕ → List (Element D) → Type 0
  Exact m cells =
      (s : ℕ) (e : Element D)
      → get_elem? cells s ≡ some e
      → is_empty e ≡ false
      → (e.hash + e.distance) % m ≡ s

  abbrev pub Kept : ℕ → ℕ → ℕ → List (Element D) → List (Element D) → Type 0
  Kept m room md cells after =
      (length after ≡ m) × Spots m room md after × Permᴰ (entries after) (entries cells)

  moved :
      (m room md bucket next : ℕ) (cells : List (Element D)) (gone tbl : Element D)
      → bucket < m
      → next < m
      → next ≡ (bucket + 1) % m
      → length cells ≡ m
      → Spots m room md cells
      → Exact m cells
      → get_elem? cells bucket ≡ some gone
      → is_empty gone ≡ true
      → get_elem? cells next ≡ some tbl
      → is_empty tbl ≡ false
      → tbl.distance ≢ 0
      → let after = set (set cells bucket tbl) next (cleared tbl) in
        Kept m room md cells after × (get_elem? after next ≡ some (cleared tbl))
  moved m room md bucket next cells gone tbl b n place l spots exact there empty found live away =
      let apart : next ≢ bucket = λ e.
        let same = ap (λ i. get_elem? cells i) e in
        let held : tbl ≡ gone = cc in let state = ap is_empty held in cc in
      let (fits, near) = spots next tbl found in
      let first = set cells bucket tbl in
      let sized = length-set cells bucket tbl in
      let nearer : Near m md bucket tbl = elim (near live) [
        | inl all ↦ inl all
        | inr (j, p, q, r) ↦
            let whole : (tbl.hash + (tbl.distance - 1) + 1) % m ≡ (bucket + 1) % m =
              ap (λ x. x % m) {x = tbl.hash + (tbl.distance - 1) + 1} {y = tbl.hash + tbl.distance}
                (omega arith)
              ∙ exact next tbl found live
              ∙ place in
            inr (tbl.distance - 1, step_back m _ bucket b whole, omega arith, r)
      ] in
      let spots1 =
        Spots-set m room md cells bucket tbl (omega (arith, l)) spots fits (λ _. nearer) in
      let spots2 =
        Spots-set m room md first next (cleared tbl) (omega (arith, sized, l)) spots1
          (omega arith, fits.1) (λ h. absurd cc) in
      let other = set cells next (cleared tbl) in
      let lost = entries-set cells next (cleared tbl) found in
      let found_gone = get_elem?-set_ne cells (cleared tbl) apart ∙ there in
      let back = entries-set other bucket tbl found_gone in
      let nothing = entry_of_empty gone empty in
      let perm : Permᴰ (entries (set other bucket tbl)) (entries cells) =
        Permᴰ.trans
          (subst (λ x. Permᴰ (x ++ entries (set other bucket tbl)) (entry_of tbl ++ entries other))
            nothing back)
          lost in
      (
        (
          length-set first next (cleared tbl) ∙ sized ∙ l,
          spots2,
          subst (λ x. Permᴰ (entries x) (entries cells))
              (set_comm cells next bucket (cleared tbl) tbl apart) perm,
        ),
        get_elem?-set_self first next (cleared tbl) (omega (arith, sized, l)),
      )

  pub swapup-Kept :
      (m room md bucket : ℕ) (cells : List (Element D)) (gone : Element D)
      → IsSize m
      → bucket < m
      → length cells ≡ m
      → Spots m room md cells
      → Exact m cells
      → get_elem? cells bucket ≡ some gone
      → is_empty gone ≡ true
      → Ends (Kept m room md cells) (swapup cells m bucket)
  unfolding swapup swapup_loop
  swapup-Kept m room md bucket cells gone size b l spots exact there empty =
      let next = wide_slot_next bucket m in
      let place = wide_slot_next-mod bucket m size b in
      let inside : next < m = omega (arith, place, mod-lt (bucket + 1) (IsSize-bounds m size).0) in
      let (tbl, found) = get_elem?-some cells next (omega (arith, l)) in
      Ends-at cells next _ found (
        Ends-case (not (is_empty tbl) && not (tbl.distance == 0))
          (λ t.
            let (full, far) = (&&_iff (not (is_empty tbl)) (not (tbl.distance == 0))).0 t in
            let live = not_true (is_empty tbl) full in
            let away : tbl.distance ≢ 0 = λ e.
              let z = (==_iff tbl.distance 0).1 e in
              let f = not_true (tbl.distance == 0) far in cc in
            let (kept, left) =
              moved m room md bucket next cells gone tbl b inside place l spots exact there empty
                found live away in
            Ends-at (set (set cells bucket tbl) next (cleared tbl)) next _ left (ends kept))
          (λ f. ends (l, spots, Permᴰ.refl _)))
