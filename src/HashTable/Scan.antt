-- ===== src/HashTable/Scan.antt =====
-- The scan of `rbhash_find_bucket`: it meets the elements of the slots that follow the home of a hash.
use mathlib.Core.Path.{sym, ◌∙◌, subst}
use native.Mathlib.Nat.{mod-add-mod, mod-lt}
use chip.Prelude.{
  ℕ, zero, suc, ◌+◌, ◌%◌, ◌<◌, ◌≡◌, ap, refl, arith, List, [], ◌∷◌, true, false, Option, none, some,
  length, take, get_elem?, get_elem?-some, leb, ◌==◌, ◌&&◌, ==_iff, if◌then◌else◌, &&_iff,
}
use chip.HashTable.{Element, same, memcmp, find_loop}
use chip.HashTable.Calls.{Ends, ends, Ends-bind, Ends-at, Ends-if, Ends-case, Ends-map, done}
use chip.HashTable.Sizes.{IsSize, IsSize-bounds, slot_next-mod}
use chip.HashTable.Spots.{Fits}
use chip.HashTable.Swapdown.{no_offset}

pub same_sound : (a b : List ℕ) → same a b ≡ true → a ≡ b
same_sound [] [] h = refl
same_sound [] (y ∷ b) h = cc
same_sound (x ∷ a) [] h = cc
same_sound (x ∷ a) (y ∷ b) h =
    let (e, r) = (&&_iff (x == y) (same a b)).0 h in
    let front = (==_iff x y).0 e in let rest = same_sound a b r in cc

pub same_complete : (a : List ℕ) → same a a ≡ true
same_complete [] = refl
same_complete (x ∷ a) = rw ((==_iff x x).1 refl) (same_complete a)

take_all : (a : List ℕ) → take (length a) a ≡ a
take_all [] = refl
take_all (x ∷ a) = ap (λ l. x ∷ l) (take_all a)

module _ {D : Type 0} where
  abbrev pub Matches : ℕ → List ℕ → Element D → Type 0
  Matches hash key e = (e.len ≡ length key) × (e.hash ≡ hash) × (take (length key) e.key ≡ key)

  test :
      (room hash : ℕ) (key : List ℕ) (e : Element D)
      → Fits room e
      → Ends
          (λ b. (b ≡ true → Matches hash key e) × (Matches hash key e → b ≡ true))
          (if e.len == length key && e.hash == hash
            then memcmp key e.key (length key)
            else done false)
  unfolding memcmp
  test room hash key e fits =
      let lens = e.len == length key in
      let hashes = e.hash == hash in
      Ends-if (lens && hashes)
        (λ t.
          let (l, h) = (&&_iff lens hashes).0 t in
          let l = (==_iff e.len (length key)).0 l in
          let h = (==_iff e.hash hash).0 h in
          let enough : leb (length key) (length e.key) ≡ true = ground arith in
          let itself : leb (length key) (length key) ≡ true = ground arith in
          Ends-if (leb (length key) (length key) && leb (length key) (length e.key))
            (λ _. ends (
              (λ s. (l, h, sym (sym (take_all key) ∙ same_sound _ _ s))),
              (λ (m, n, k).
                  subst (λ b. same (take (length key) key) b ≡ true) (take_all key ∙ sym k)
                    (same_complete (take (length key) key))),
            ))
            (λ f.
              let t =
                (&&_iff (leb (length key) (length key)) (leb (length key) (length e.key))).1
                  (itself, enough) in
              absurd cc))
        (λ f. ends (
          (λ t. absurd cc),
          (λ (l, h, k).
              let t =
                (&&_iff lens hashes).1
                  ((==_iff e.len (length key)).1 l, (==_iff e.hash hash).1 h) in
              absurd cc),
        ))

  -- What a scan of `n` slots finds.
  abbrev pub Scanned : ℕ → ℕ → ℕ → ℕ → List ℕ → List (Element D) → Option ℕ → Type 0
  Scanned m n slot hash key cells none =
      (i : ℕ) (e : Element D)
      → i < n
      → get_elem? cells ((slot + i) % m) ≡ some e
      → Matches hash key e
      → ⊥
  Scanned m n slot hash key cells (some s) =
      (e : Element D) × ((get_elem? cells s ≡ some e) × Matches hash key e)

  later_none :
      (m n slot hash : ℕ) (key : List ℕ) (cells : List (Element D)) (e : Element D)
      → slot < m
      → get_elem? cells slot ≡ some e
      → (Matches hash key e → ⊥)
      → Scanned m n ((slot + 1) % m) hash key cells none
      → Scanned m (suc n) slot hash key cells none
  later_none m n slot hash key cells e b h unmet t zero x l g k =
      let here = ap (λ i. get_elem? cells i) (no_offset m slot b) in
      let value : x ≡ e = cc in unmet (subst (λ y. Matches hash key y) value k)
  later_none m n slot hash key cells e b h unmet t (suc i) x l g k =
      let step : ((slot + 1) % m + i) % m ≡ (slot + suc i) % m =
        mod-add-mod (slot + 1) m i
        ∙ ap (λ n. n % m) {x = slot + 1 + i} {y = slot + suc i} (omega arith) in
      t i x (omega arith) (ap (λ j. get_elem? cells j) step ∙ g) k

  later :
      (m n slot hash : ℕ) (key : List ℕ) (cells : List (Element D)) (e : Element D) (o : Option ℕ)
      → slot < m
      → get_elem? cells slot ≡ some e
      → (Matches hash key e → ⊥)
      → Scanned m n ((slot + 1) % m) hash key cells o
      → Scanned m (suc n) slot hash key cells o
  later m n slot hash key cells e (some s) b h unmet t = t
  later m n slot hash key cells e none b h unmet t =
      later_none m n slot hash key cells e b h unmet t

  pub find_loop-Scanned :
      (m room n slot hash : ℕ) (key : List ℕ) (cells : List (Element D))
      → IsSize m
      → length cells ≡ m
      → slot < m
      → ((s : ℕ) (e : Element D) → get_elem? cells s ≡ some e → Fits room e)
      → Ends (Scanned m n slot hash key cells) (find_loop cells m n slot hash key)
  unfolding find_loop
  find_loop-Scanned m room zero slot hash key cells size l b fits =
      ends (λ i e h. absurd (omega arith))
  find_loop-Scanned m room (suc n) slot hash key cells size l b fits =
      let (e, found) = get_elem?-some cells slot (omega (arith, l)) in
      Ends-at cells slot _ found (
        Ends-bind (test room hash key e (fits slot e found)) (λ t (met, unmet).
          Ends-case t (λ h. ends (e, (found, met h)))
            (λ h.
              subst
                (λ s. Ends (Scanned m (suc n) slot hash key cells) (find_loop cells m n s hash key))
                (sym (slot_next-mod slot m size b))
                (Ends-map
                  (find_loop-Scanned m room n ((slot + 1) % m) hash key cells size l
                    (mod-lt _ (IsSize-bounds m size).0) fits)
                  (λ o s.
                    later m n slot hash key cells e o b found (λ k. let t = unmet k in cc) s)))))
