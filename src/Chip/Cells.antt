-- ===== src/Chip/Cells.antt =====
-- What a read and a write of the ram do, cell by cell, and when the operands of a command are there.
use mathlib.Core.Option
use chip.Prelude.{
  ℕ, ◌≡◌, ◌≢◌, refl, arith, ◌⊎◌, inl, inr, Option, none, some, List, [], ◌∷◌, ◌++◌, ltb, ◌==◌, set,
  get_elem?-set_self, get_elem?-set_ne, get_elem?-lt, Bool-cases,
}
use chip.Word.{half_mod, IsWord}
use chip.Command.{Command, type_ram, type_ptr, arg0f_get, arg1f_get}
use chip.Outcome.{done}
use chip.Chip.State.{
  Chip, Platform, cell, cell_of, write, load_ram, store_ram, state_fail, setword_fail,
}
use chip.Chip.Operand.{getword, setword}

-- `a` is an index of the ram.
abbrev pub IsCell : Chip → ℕ → Type 0
IsCell c a = (v : ℕ) × (cell c a ≡ some v)

cell_of-set_self :
    (m : Option (List ℕ)) (a v : ℕ) {u : ℕ}
    → cell_of m a ≡ some u
    → cell_of (Option.map (λ l. set l a v) m) a ≡ some v
cell_of-set_self none a v e = cc
cell_of-set_self (some m) a v e = elim (Bool-cases (ltb a half_mod)) [
  | inl t ↦ rw t (get_elem?-set_self m a v (get_elem?-lt m a (rw t at e)))
  | inr f ↦ cc (rw f at e)
]

cell_of-set_ne :
    (m : Option (List ℕ)) {a b : ℕ} (v : ℕ)
    → a ≢ b
    → cell_of (Option.map (λ l. set l a v) m) b ≡ cell_of m b
cell_of-set_ne none v h = refl
cell_of-set_ne (some m) {a} {b} v h = elim (Bool-cases (ltb b half_mod)) [
  | inl t ↦ rw t (get_elem?-set_ne m v h)
  | inr f ↦ rw f
]

pub cell-write_self : (c : Chip) (a v : ℕ) → IsCell c a → cell (write c a v) a ≡ some v
unfolding write
cell-write_self c a v h = cell_of-set_self c.ram a v h.1

pub cell-write_ne : (c : Chip) {a b : ℕ} (v : ℕ) → a ≢ b → cell (write c a v) b ≡ cell c b
unfolding write
cell-write_ne c v h = cell_of-set_ne c.ram v h

pub IsCell-write : (c : Chip) (a b v : ℕ) → IsCell c a → IsCell c b → IsCell (write c a v) b
IsCell-write c a b v ha hb = elim (Bool-cases (a == b)) [
  | inl t ↦ let e : a ≡ b = ground arith in (v, rw (← e) (cell-write_self c a v ha))
  | inr f ↦ let n : a ≢ b = ground arith in (hb.0, rw (cell-write_ne c v n) hb.1)
]

pub load_ram-cell : (c : Chip) (a : ℕ) {v : ℕ} → cell c a ≡ some v → load_ram a c ≡ done (v, c)
unfolding load_ram
load_ram-cell c a e = ground arith

pub store_ram_cell : (c : Chip) (a v : ℕ) → IsCell c a → store_ram a v c ≡ done (tt, write c a v)
unfolding store_ram
store_ram_cell c a v h = ground arith

-- What an operand stands for: reading it gives `v` and changes nothing.
abbrev pub Reads : Platform → Chip → ℕ → ℕ → ℕ → Type 0
Reads p c type r v = getword p type r c ≡ done (v, c)

-- `$r` stands for the cell `r`, and `*r` for the cell that the cell `r` points to.
abbrev pub Target : Chip → ℕ → ℕ → ℕ → Type 0
Target c type r a = ((type ≡ type_ram) × (a ≡ r)) ⊎ ((type ≡ type_ptr) × (cell c r ≡ some a))

-- The chip `d` is `c` with `w` in cell `a`.
pub record Stores (c d : Chip) (a w : ℕ) : Type 0 where
  pub stored : cell d a ≡ some w
  pub others : (b : ℕ) → a ≢ b → cell d b ≡ cell c b
  pub page_same : d.page ≡ c.page
  pub state_same : d.state ≡ c.state
  pub output_same : d.output ≡ c.output

pub write-Stores : (c : Chip) (a w : ℕ) → IsCell c a → Stores c (write c a w) a w
write-Stores c a w h = record {
  stored = cell-write_self c a w h;
  others = λ b n. cell-write_ne c w n;
  page_same = unfold write in refl;
  state_same = unfold write in refl;
  output_same = unfold write in refl;
}

-- An assignment to an operand that stands for a cell writes that cell.
pub setword-Target :
    (c : Chip) (type r a w : ℕ)
    → Target c type r a
    → IsCell c a
    → setword type r w c ≡ done (tt, write c a w)
unfolding setword
setword-Target c type r a w (inl (t, e)) h = ground (arith, store_ram_cell c a w h)
setword-Target c type r a w (inr (t, e)) h =
    ground (arith, load_ram-cell c r e, store_ram_cell c a w h)

-- An assignment to a literal or to data marks the chip as failed and writes nothing to the ram.
pub setword_no_target :
    (c : Chip) (type r w : ℕ)
    → type ≢ type_ram
    → type ≢ type_ptr
    → setword type r w c
      ≡ done (tt, record c { state = state_fail; output = c.output ++ (setword_fail ∷ []) })
unfolding setword
setword_no_target c type r w n m = ground arith

-- The operands of a command with two arguments: their values, and the cell that is assigned.
pub record Operands (p : Platform) (c : Chip) (cmd : Command) (v r a : ℕ) : Type 0 where
  pub first : Reads p c (arg0f_get cmd.flags) cmd.arg0 v
  pub second : Reads p c (arg1f_get cmd.flags) cmd.arg1 r
  pub target : Target c (arg0f_get cmd.flags) cmd.arg0 a
  pub cell_there : IsCell c a
  pub first_word : IsWord v
  pub second_word : IsWord r
