-- ===== src/HashTable/Exchange.antt =====
-- A round of `rbhash_swapdown`: the elements stay where `rbhash_find` looks for them, and none is lost.
use mathlib.Core.Path.{sym, ◌∙◌, subst}
use mathlib.Core.List.{Permᴰ}
use mathlib.Core.List.Permᴰ
use chip.Prelude.{
  ℕ, zero, suc, ◌+◌, ◌%◌, ◌^◌, ◌≤◌, ◌<◌, ◌≡◌, ◌≢◌, ap, refl, arith, List, [], ◌∷◌, ◌++◌, false,
  some, length, take, get_elem?, set, length-set, get_elem?-lt, get_elem?-set_ne, if◌then◌else◌,
  ltb,
}
use chip.Word.{word_mod}
use chip.HashTable.{Element, Slots, is_empty, memswap, settle, exchange, swap_round}
use chip.HashTable.Calls.{Ends, ends, Ends-bind, Ends-case}
use chip.HashTable.Entries.{entry_of, entries, entries-set}
use chip.HashTable.Spots.{Fits, Near, Spots, Spots-set, Near-next, Near-mono, raised, raised-lt}

-- The buffers keep their lengths, and the bytes that are exchanged are all of them that matter.
abbrev Swapped : List ℕ → List ℕ → ℕ → List ℕ × List ℕ → Type 0
Swapped a b n r =
    (length r.0 ≡ length a)
    × (length r.1 ≡ length b)
    × ((k : ℕ) → k ≤ n → (take k r.0 ≡ take k b) × (take k r.1 ≡ take k a))

memswap-Swapped :
    (a b : List ℕ) (n : ℕ) → n ≤ length a → n ≤ length b → Ends (Swapped a b n) (memswap a b n)
unfolding memswap
memswap-Swapped a b zero h l = ends (refl, refl, λ k e. none_taken k e)
  where
    none_taken : (k : ℕ) → k ≤ 0 → (take k a ≡ take k b) × (take k b ≡ take k a)
    none_taken zero e = (refl, refl)
    none_taken (suc k) e = absurd (omega arith)
memswap-Swapped [] b (suc n) h l = absurd (omega arith)
memswap-Swapped (x ∷ a) [] (suc n) h l = absurd (omega arith)
memswap-Swapped (x ∷ a) (y ∷ b) (suc n) h l =
    Ends-bind (memswap-Swapped a b n (omega arith) (omega arith))
      (λ r s. ends (ap suc s.0, ap suc s.1, λ k e. prefix r s k e))
  where
    prefix :
        (r : List ℕ × List ℕ)
        → Swapped a b n r
        → (k : ℕ) → k ≤ suc n
        → (take k (y ∷ r.0) ≡ take k (y ∷ b)) × (take k (x ∷ r.1) ≡ take k (x ∷ a))
    prefix r s zero e = (refl, refl)
    prefix r s (suc k) e = let t = s.2 k (omega arith) in (ap (λ l. y ∷ l) t.0, ap (λ l. x ∷ l) t.1)

longest :
    (a b room : ℕ)
    → a ≤ room
    → b ≤ room
    → let n = if ltb b a then a else b in (a ≤ n) × (b ≤ n) × (n ≤ room)
longest a b room h l = (ground arith, ground arith, ground arith)

module _ {D : Type 0} where
  -- The slots, and the element in hand on its way to a bucket.
  pub record Carried (m room bucket : ℕ) (s : Slots D) (nw : Element D) : Type 0 where
    pub cells-size : length s.cells ≡ m
    pub spots : Spots m room s.max_distance s.cells
    pub fits : Fits room nw
    pub near : is_empty nw ≡ false → Near m s.max_distance bucket nw
    pub small : s.max_distance < word_mod

  -- After it: nothing is lost, and no other slot has changed.
  abbrev pub After : ℕ → ℕ → ℕ → ℕ → Slots D → Element D → Slots D × Element D → Type 0
  After m room bucket next s nw r =
      Carried m room next r.0 r.1
      × Permᴰ (entry_of r.1 ++ entries r.0.cells) (entry_of nw ++ entries s.cells)
      × ((i : ℕ) → bucket ≢ i → get_elem? r.0.cells i ≡ get_elem? s.cells i)
      × (s.max_distance ≤ r.0.max_distance)

  -- The entries of elements that have exchanged their keys.
  entry_of-key :
      (e : Element D) (key : List ℕ)
      → take e.len key ≡ take e.len e.key
      → entry_of (record e { key = key }) ≡ entry_of e
  entry_of-key e key h = ap (λ k. if is_empty e then [] else (e.hash, k, e.data_of) ∷ []) h

  settle-After :
      (m room bucket : ℕ) (tbl nw : Element D) (s : Slots D)
      → Carried m room bucket s nw
      → get_elem? s.cells bucket ≡ some tbl
      → Ends (After m room bucket bucket s nw) (settle bucket tbl s nw)
  unfolding settle exchange
  settle-After m room bucket tbl nw s c h =
      let (held, found) = c.spots bucket tbl h in
      let n = if ltb nw.len tbl.len then tbl.len else nw.len in
      let (tbl_in, nw_in, within) = longest tbl.len nw.len room held.0 c.fits.0 in
      let bound = get_elem?-lt s.cells bucket h in
      Ends-case (ltb tbl.distance nw.distance)
        (λ t.
          Ends-bind
            (Ends-bind
              {Q = λ r.
                After m room bucket bucket s nw
                  (record s { cells = set s.cells bucket r.0; dnswap = s.dnswap + 1 }, r.1)}
              (memswap-Swapped tbl.key nw.key n (omega arith) (omega arith))
              (λ ks w.
                let new = record nw { key = ks.0 } in
                let old = record tbl { key = ks.1 } in
                let sizes = length-set s.cells bucket new in
                let new_entry = entry_of-key nw ks.0 (w.2 nw.len nw_in).0 in
                let old_entry = entry_of-key tbl ks.1 (w.2 tbl.len tbl_in).1 in
                let lost = entries-set s.cells bucket new h in
                ends (
                  record {
                    cells-size = sizes ∙ c.cells-size;
                    spots =
                        Spots-set m room s.max_distance s.cells bucket new bound c.spots
                          (c.fits.0, omega (arith, w.0)) c.near;
                    fits = (held.0, omega (arith, w.1));
                    near = found;
                    small = c.small;
                  },
                  subst
                      (λ l.
                        Permᴰ (l ++ entries (set s.cells bucket new))
                          (entry_of nw ++ entries s.cells))
                      (sym old_entry)
                      (subst
                        (λ l.
                          Permᴰ (entry_of tbl ++ entries (set s.cells bucket new))
                            (l ++ entries s.cells))
                        new_entry lost),
                  (λ i o. get_elem?-set_ne s.cells new o),
                  omega arith,
                )))
            (λ r w. ends w))
        (λ t. ends (c, Permᴰ.refl _, (λ i o. refl), omega arith))

  pub swap_round-After :
      (m room bucket : ℕ) (tbl nw : Element D) (s : Slots D)
      → m ≤ 2 ^ 31
      → Carried m room bucket s nw
      → get_elem? s.cells bucket ≡ some tbl
      → Ends (After m room bucket ((bucket + 1) % m) s nw) (swap_round bucket tbl s nw)
  unfolding swap_round
  swap_round-After m room bucket tbl nw s size c h =
      Ends-bind (settle-After m room bucket tbl nw s c h) (λ (t, e) (k, p, o, l).
        let d = (e.distance + 1) % word_mod in
        let (up, to) = raised t.max_distance d in
        ends (
          record {
            cells-size = k.cells-size;
            spots = λ i x g.
                let (f, n) = k.spots i x g in
                (f, λ live. Near-mono m t.max_distance _ i x up (n live));
            fits = k.fits;
            near = λ live. Near-next m t.max_distance bucket e size (k.near live);
            small = raised-lt t.max_distance d k.small (omega arith);
          },
          p,
          o,
          omega (arith, up),
        ))
