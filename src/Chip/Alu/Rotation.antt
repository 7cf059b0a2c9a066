-- ===== src/Chip/Alu/Rotation.antt =====
-- The rotations: what `rol` stores, how it is undone, and what `ror` does in its place.
use mathlib.Core.Path.{ap, sym, ◌∙◌}
use native.Mathlib.Nat.{pow-suc, one-le-pow, zero-add, suc-add, div-add-mod, mod-lt}
use mathlib.Core.Option.{some-injective}
use chip.Prelude.{
  ℕ, zero, suc, ◌+◌, ◌-◌, ◌*◌, ◌/◌, ◌%◌, ◌^◌, ◌<◌, ◌≤◌, ◌≡◌, ◌≢◌, ◌⊎◌, inl, inr, arith,
}
use chip.Word.{IsWord, word_mod}
use chip.Word.Bits.{bit_or-fields}
use chip.Command.{Command}
use chip.Outcome.{done, undefined}
use chip.Chip.State.{Chip, Platform, cell, write}
use chip.Chip.Alu.{rotate, cmd_rol, cmd_ror}
use chip.Chip.Alu.Exact.{binary_cmd-write, binary_cmd_undefined}
use chip.Chip.Cells.{Operands, IsCell, cell-write_self}

-- The digits of a word moved by `k` places to the left, those that leave it put in on the right; and
-- the other way round.
abbrev pub left : ℕ → ℕ → ℕ
left v k = v % 2 ^ (32 - k) * 2 ^ k + v / 2 ^ (32 - k)

abbrev pub right : ℕ → ℕ → ℕ
right v k = v % 2 ^ k * 2 ^ (32 - k) + v / 2 ^ k

pow-add : (k n : ℕ) → 2 ^ (k + n) ≡ 2 ^ k * 2 ^ n
pow-add zero n = rw zero-add (omega arith)
pow-add (suc k) n =
    rw suc-add
      (omega (arith, pow-suc 2 (k + n), pow-add k n, ap (λ (t : ℕ). t * 2 ^ n) (pow-suc 2 k)))

powers : (k : ℕ) → k < 32 → 2 ^ k * 2 ^ (32 - k) ≡ word_mod
powers k h = let e : k + (32 - k) ≡ 32 = omega arith in sym (pow-add k (32 - k)) ∙ ap (λ t. 2 ^ t) e

mul-lt : (s a b : ℕ) → s < b → 0 < a → s * a < b * a
mul-lt s a b h k = grind arith

left_pos : (a b : ℕ) → a * b ≡ word_mod → 0 < a
left_pos zero b e = omega arith
left_pos (suc a) b e = omega arith

right_pos : (a b : ℕ) → a * b ≡ word_mod → 0 < b
right_pos a zero e = omega arith
right_pos a (suc b) e = omega arith

div-lt : (v a b : ℕ) → v < a * b → v / b < a
div-lt v a b h = grind arith

field_split : (s a q : ℕ) → q < a → ((s * a + q) % a ≡ q) × ((s * a + q) / a ≡ s)
field_split s a q h = (grind arith, grind arith)

-- Shifting to the left drops the digits that leave the word.
high-part : (v a b : ℕ) → a * b ≡ word_mod → v * a % word_mod ≡ v % b * a
high-part v a b e =
    let q : ℕ = v / b in
    let s : ℕ = v % b in
    let split : v * a ≡ s * a + q * word_mod =
      omega (arith, ap (λ (t : ℕ). t * a) (div-add-mod v b), ap (λ (t : ℕ). q * t) e) in
    let small : s * a < b * a = mul-lt s a b (mod-lt v (right_pos a b e)) (left_pos a b e) in
    omega (arith, split, small)

rotate-left : (v k : ℕ) → IsWord v → 0 < k → k < 32 → rotate v k ≡ done (left v k)
unfolding rotate
rotate-left v k h lo hi =
    let e : (32 + word_mod - k) % word_mod ≡ 32 - k = omega arith in
    let fits : v / 2 ^ (32 - k) < 2 ^ k = div-lt v _ _ (omega (arith, powers k hi)) in
    ground (
      arith,
      e,
      high-part v (2 ^ k) (2 ^ (32 - k)) (powers k hi),
      bit_or-fields k (v % 2 ^ (32 - k)) (v / 2 ^ (32 - k)) fits,
    )

left-right : (v k : ℕ) → IsWord v → k < 32 → right (left v k) k ≡ v
left-right v k h hi =
    let fits : v / 2 ^ (32 - k) < 2 ^ k = div-lt v _ _ (omega (arith, powers k hi)) in
    let parts = field_split (v % 2 ^ (32 - k)) (2 ^ k) (v / 2 ^ (32 - k)) fits in
    rw (parts.0, parts.1) (omega (arith, div-add-mod v (2 ^ (32 - k))))

one_lt_pow : (d : ℕ) → 0 < d → 1 < 2 ^ d
one_lt_pow zero h = absurd (omega arith)
one_lt_pow (suc d) h = omega (arith, pow-suc 2 d, one-le-pow d 2)

pow-lt : (k n : ℕ) → k < n → 2 ^ k < 2 ^ n
pow-lt k n h =
    let e : k + (n - k) ≡ n = omega arith in
    let f : 2 ^ n ≡ 2 ^ k * 2 ^ (n - k) = ap (λ t. 2 ^ t) (sym e) ∙ pow-add k (n - k) in
    let one : 0 < 2 ^ k = one-le-pow k 2 (omega arith) in
    let more : 1 < 2 ^ (n - k) = one_lt_pow (n - k) (omega arith) in grind (arith, f, one, more)

lt-or-gt : (k : ℕ) → k ≢ 16 → (k < 16) ⊎ (16 < k)
lt-or-gt k n = ground arith

one_fraction : (y : ℕ) → 1 < y → (1 % y ≡ 1) × (1 / y ≡ 0)
one_fraction y h = (grind arith, grind arith)

left-one : (k : ℕ) → k < 32 → left 1 k ≡ 2 ^ k
left-one k h =
    let f = one_fraction (2 ^ (32 - k)) (one_lt_pow (32 - k) (omega arith)) in
    rw (f.0, f.1) (omega arith)

right-one : (k : ℕ) → 0 < k → right 1 k ≡ 2 ^ (32 - k)
right-one k h = let f = one_fraction (2 ^ k) (one_lt_pow k h) in rw (f.0, f.1) (omega arith)

left-ne-right : (k : ℕ) → k < 32 → 0 < k → k ≢ 16 → left 1 k ≢ right 1 k
left-ne-right k h lo n e =
    let same : 2 ^ k ≡ 2 ^ (32 - k) = sym (left-one k h) ∙ e ∙ right-one k lo in
    elim (lt-or-gt k n) [
      | inl l ↦ omega (arith, same, pow-lt k (32 - k) (omega arith))
      | inr g ↦ omega (arith, same, pow-lt (32 - k) k (omega arith))
    ]

undefined_count : (v r : ℕ) → (r ≡ 0) ⊎ (32 ≤ r) → rotate v r ≡ undefined
unfolding rotate
undefined_count v r (inl e) = ground arith
undefined_count v r (inr h) = ground arith

-- Two writes of one cell that give the same chip write the same word.
write_injective : (c : Chip) (a v w : ℕ) → IsCell c a → write c a v ≡ write c a w → v ≡ w
write_injective c a v w h e =
    some-injective _ _
      (sym (cell-write_self c a v h) ∙ ap (λ d. cell d a) e ∙ cell-write_self c a w h)

module _ (p : Platform) (c : Chip) (cmd : Command) (v r a : ℕ) (ops : Operands p c cmd v r a) where
  -- With operands that can be read and a first one that can be assigned to, and a count from 1 to 31, `rol` stores its word rotated to the left, and rotating the result to the
  -- right by that count gives the word back.
  pub cmd_rol-left :
      0 < r
      → r < 32
      → (cmd_rol p cmd c ≡ done (tt, write c a (left v r))) × (right (left v r) r ≡ v)
  unfolding cmd_rol
  cmd_rol-left lo hi = (
    binary_cmd-write p c cmd v r a ops rotate (rotate-left v r ops.first_word lo hi),
    left-right v r ops.first_word hi,
  )

  -- With such operands, `rol` and `ror` by 0, or by 32 or more, are undefined.
  pub rotation_undefined :
      (r ≡ 0) ⊎ (32 ≤ r) → (cmd_rol p cmd c ≡ undefined) × (cmd_ror p cmd c ≡ undefined)
  unfolding cmd_rol cmd_ror
  rotation_undefined h =
      let e : rotate v r ≡ undefined = undefined_count v r h in
      (
        binary_cmd_undefined p c cmd v r a ops rotate e,
        binary_cmd_undefined p c cmd v r a ops rotate e,
      )

  -- `ror` rotates to the left, like `rol`.
  pub cmd_ror-left : 0 < r → r < 32 → cmd_ror p cmd c ≡ done (tt, write c a (left v r))
  unfolding cmd_ror
  cmd_ror-left lo hi =
      binary_cmd-write p c cmd v r a ops rotate (rotate-left v r ops.first_word lo hi)

-- So `ror` on a cell that holds 1 does not store it rotated to the right, for any count from 1 to 31 but 16.
pub cmd_ror-ne-right :
    (p : Platform) (c : Chip) (cmd : Command) (r a : ℕ)
    → Operands p c cmd 1 r a
    → 0 < r
    → r < 32
    → r ≢ 16
    → cmd_ror p cmd c ≢ done (tt, write c a (right 1 r))
cmd_ror-ne-right p c cmd r a ops lo hi n e =
    let same : write c a (left 1 r) ≡ write c a (right 1 r) =
      cc (sym (cmd_ror-left p c cmd 1 r a ops lo hi) ∙ e) in
    left-ne-right r hi lo n (write_injective c a _ _ ops.cell_there same)
