-- ===== src/Chip/Flow/Stack.antt =====
-- The stack of a chip: `pop` gives back what `push` stored, and `ret` undoes `call`.
use chip.Prelude.{ℕ, ◌+◌, ◌-◌, ◌<◌, ◌≡◌, ◌≢◌, sym, ◌∙◌, arith, false, some, ◌==◌}
use chip.Word.{half_mod, add, sub}
use chip.Outcome.{done}
use chip.Chip.State.{Chip, cell, write, reg_stk, reg_frm}
use chip.Chip.Flow.{post_dec_stk, pop_stk, push_stk}
use chip.Chip.Cells.{
  IsCell, IsCell-write, cell-write_self, cell-write_ne, load_ram-cell, store_ram_cell,
}

sub-one : (s : ℕ) → 0 < s → s < half_mod → sub s 1 ≡ done (s - 1)
unfolding sub
sub-one s lo hi = ground arith

add-one : (s : ℕ) → s + 1 < half_mod → add s 1 ≡ done (s + 1)
unfolding add
add-one s hi = ground arith

-- The stack pointer is `s`, a cell that can be pushed to and is no register.
pub record IsStack (c : Chip) (s : ℕ) : Type 0 where
  pub pointer : cell c reg_stk ≡ some s
  pub slot : IsCell c s
  pub above_registers : reg_frm < s
  pub in_range : s < half_mod

module _ (c : Chip) (s : ℕ) (h : IsStack c s) where
  pub post_dec_stk_lem : post_dec_stk c ≡ done (s, write c reg_stk (s - 1))
  post_dec_stk_lem =
      unfold post_dec_stk in
      ground (
        arith,
        load_ram-cell c reg_stk h.pointer,
        sub-one s (omega arith) h.in_range,
        store_ram_cell c reg_stk (s - 1) (s, h.pointer),
      )

  -- The chip after a push of `v`.
  abbrev pub pushed : ℕ → Chip
  pushed v = write (write c reg_stk (s - 1)) s v

  pub slot_left : IsCell (write c reg_stk (s - 1)) s
  slot_left = IsCell-write c reg_stk s (s - 1) (s, h.pointer) h.slot

  pub push_stk_lem : (v : ℕ) → push_stk v c ≡ done (tt, pushed v)
  push_stk_lem v =
      let free : (s == reg_stk) ≡ false = ground arith in
      unfold push_stk in
      ground (arith, free, post_dec_stk_lem, store_ram_cell (write c reg_stk (s - 1)) s v slot_left)

  pub pushed_self : (v : ℕ) → cell (pushed v) s ≡ some v
  pushed_self v = cell-write_self _ s v slot_left

  pub pushed-pointer : (v : ℕ) → cell (pushed v) reg_stk ≡ some (s - 1)
  pushed-pointer v =
      cell-write_ne (write c reg_stk (s - 1)) v (omega (arith, h.above_registers))
      ∙ cell-write_self c reg_stk (s - 1) (s, h.pointer)

  pub pushed-other : (v b : ℕ) → s ≢ b → reg_stk ≢ b → cell (pushed v) b ≡ cell c b
  pushed-other v b n m = cell-write_ne (write c reg_stk (s - 1)) v n ∙ cell-write_ne c (s - 1) m

-- A read from the stack: the next cell up, which becomes the pointer.
pub pop_stk_lem :
    (c : Chip) (s v : ℕ)
    → cell c reg_stk ≡ some s
    → s + 1 < half_mod
    → s + 1 ≢ reg_stk
    → cell c (s + 1) ≡ some v
    → pop_stk c ≡ done (v, write c reg_stk (s + 1))
pop_stk_lem c s v p hi n e =
    let free : (s + 1 == reg_stk) ≡ false = ground arith in
    let there : cell (write c reg_stk (s + 1)) (s + 1) ≡ some v =
      cell-write_ne c (s + 1) (λ q. n (sym q)) ∙ e in
    unfold pop_stk in
    ground (
      arith,
      free,
      load_ram-cell c reg_stk p,
      add-one s hi,
      store_ram_cell c reg_stk (s + 1) (s, p),
      load_ram-cell (write c reg_stk (s + 1)) (s + 1) there,
    )

pub pop_stk_at :
    (c : Chip) (s t v : ℕ)
    → cell c reg_stk ≡ some s
    → t ≡ s + 1
    → t < half_mod
    → t ≢ reg_stk
    → cell c t ≡ some v
    → pop_stk c ≡ done (v, write c reg_stk t)
pop_stk_at c s t v p e hi n there =
    rw e (pop_stk_lem c s v p (omega arith) (rw e at n) (rw e at there))

-- A pop right after a push: the word, with the pointer as it was.
pub pop_stk-push_stk :
    (c : Chip) (s : ℕ) (h : IsStack c s) (v : ℕ)
    → pop_stk (pushed c s h v) ≡ done (v, write (pushed c s h v) reg_stk s)
pop_stk-push_stk c s h v =
    pop_stk_at (pushed c s h v) (s - 1) s v (pushed-pointer c s h v)
      (omega (arith, h.above_registers)) h.in_range (omega (arith, h.above_registers))
      (pushed_self c s h v)
