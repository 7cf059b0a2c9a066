-- ===== src/Chip/Flow/Setup.antt =====
-- `initr`: the ram and the registers that it sets up, and the sizes for which it does not.
use native.Mathlib.Decide.{dec_lt}
use chip.Prelude.{
  ℕ, zero, suc, ◌-◌, ◌<◌, ◌≤◌, ◌≡◌, ◌⊎◌, inl, inr, refl, ◌∙◌, arith, none, some, List, [], ◌∷◌,
  length, get_elem?, get_elem?-some, Option-cases,
}
use chip.Word.{IsWord, half_mod, word_mod, sub_unsigned}
use chip.Command.{Command}
use chip.Outcome.{done, undefined}
use chip.Chip.State.{
  Chip, Platform, cell, write, store_ram, fail, reg_pc, reg_stk, reg_frm, state_fail,
}
use chip.Chip.Flow.{alloc_ram, first_initr, cmd_initr}
use chip.Chip.Cells.{IsCell, IsCell-write, cell-write_self, cell-write_ne, store_ram_cell}

get_elem?-none : (xs : List ℕ) (i : ℕ) → length xs ≤ i → get_elem? xs i ≡ none
get_elem?-none [] i h = refl
get_elem?-none (x ∷ xs) zero h = absurd (omega arith)
get_elem?-none (x ∷ xs) (suc i) h = get_elem?-none xs i (omega arith)

cell-none : (c : Chip) (m : List ℕ) (a : ℕ) → c.ram ≡ some m → length m ≤ a → cell c a ≡ none
cell-none c m a e h = rw e (ground (arith, get_elem?-none m a h))

store_ram-none : (c : Chip) (a v : ℕ) → cell c a ≡ none → store_ram a v c ≡ undefined
unfolding store_ram
store_ram-none c a v e = ground arith

-- A block of `n` words, all of which an `int32_t` can index, has `n` cells.
block-IsCell :
    (c : Chip) (m : List ℕ) (a : ℕ) → c.ram ≡ some m → a < length m → a < half_mod → IsCell c a
block-IsCell c m a e h k = let (v, f) = get_elem?-some m a h in (v, rw e (ground arith))

module _ (p : Platform) (c : Chip) (cmd : Command) (m : List ℕ) (null : c.ram ≡ none)
    (block : p.alloc cmd.arg0 ≡ some m) (size : length m ≡ cmd.arg0) where
  abbrev base : Chip
  base = record c { ramsize = cmd.arg0; ram = some m }

  abbrev with_pc : Chip
  with_pc = write base reg_pc 1

  abbrev with_stk : Chip
  with_stk = write with_pc reg_stk (cmd.arg0 - 1)

  last_word : 0 < cmd.arg0 → cmd.arg0 ≤ word_mod → sub_unsigned cmd.arg0 1 ≡ cmd.arg0 - 1
  unfolding sub_unsigned
  last_word lo hi = omega arith

  -- Where the ram is null and the allocation succeeds, with 35 words or more `initr` ends in a chip whose program counter is 1 and whose stack pointer and
  -- frame register name the last cell; the state and the page are those of before.
  pub cmd_initr-sets_up :
      35 ≤ cmd.arg0
      → IsWord cmd.arg0
      → (d : Chip) × (cmd_initr p cmd c ≡ done (tt, d))
        × (cell d reg_pc ≡ some 1)
        × (cell d reg_stk ≡ some (cmd.arg0 - 1))
        × (cell d reg_frm ≡ some (cmd.arg0 - 1))
        × (d.ramsize ≡ cmd.arg0)
        × (d.state ≡ c.state)
        × (d.page ≡ c.page)
  cmd_initr-sets_up lo hi = (
    write with_stk reg_frm (cmd.arg0 - 1),
    unfold cmd_initr first_initr alloc_ram in
        ground (
          arith,
          block,
          null,
          last_word (omega arith) (omega arith),
          store_ram_cell base reg_pc 1 pc_there,
          store_ram_cell with_pc reg_stk (cmd.arg0 - 1) stk_there,
          store_ram_cell with_stk reg_frm (cmd.arg0 - 1) frm_there,
        ),
    cell-write_ne with_stk (cmd.arg0 - 1) (omega arith)
        ∙ cell-write_ne with_pc (cmd.arg0 - 1) (omega arith)
        ∙ cell-write_self base reg_pc 1 pc_there,
    cell-write_ne with_stk (cmd.arg0 - 1) (omega arith)
        ∙ cell-write_self with_pc reg_stk (cmd.arg0 - 1) stk_there,
    cell-write_self with_stk reg_frm (cmd.arg0 - 1) frm_there,
    unfold write in refl,
    unfold write in refl,
    unfold write in refl,
  )
    where
      there : (a : ℕ) → a < 35 → IsCell base a
      there a h = block-IsCell base m a refl (omega (arith, size)) (omega arith)

      pc_there : IsCell base reg_pc
      pc_there = there reg_pc (omega arith)

      stk_there : IsCell with_pc reg_stk
      stk_there = IsCell-write base reg_pc reg_stk 1 pc_there (there reg_stk (omega arith))

      frm_there : IsCell with_stk reg_frm
      frm_there =
          IsCell-write with_pc reg_stk reg_frm (cmd.arg0 - 1) stk_there
            (IsCell-write base reg_pc reg_frm 1 pc_there (there reg_frm (omega arith)))

  -- Where the ram is null and the allocation succeeds, with 1 to 34 words `initr` is undefined: it writes
  -- registers outside its block.
  pub cmd_initr_too_small : 0 < cmd.arg0 → cmd.arg0 < 35 → cmd_initr p cmd c ≡ undefined
  cmd_initr_too_small lo hi = elim (dec_lt cmd.arg0 33) [
    | yes h ↦
        unfold cmd_initr first_initr alloc_ram in
        ground (arith, block, null, store_ram-none base reg_pc 1 (missing reg_pc (omega arith)))
    | no h ↦ elim (dec_lt cmd.arg0 34) [
      | yes k ↦ one_missing (omega arith) (omega arith)
      | no k ↦ two_there (omega arith)
    ]
  ]
    where
      missing : (a : ℕ) → cmd.arg0 ≤ a → cell base a ≡ none
      missing a h = cell-none base m a refl (omega (arith, size))

      there : (a : ℕ) → a < cmd.arg0 → IsCell base a
      there a h = block-IsCell base m a refl (omega (arith, size)) (omega arith)

      one_missing : 32 < cmd.arg0 → cmd.arg0 ≤ 33 → cmd_initr p cmd c ≡ undefined
      one_missing a b =
          unfold cmd_initr first_initr alloc_ram in
          ground (
            arith,
            block,
            null,
            store_ram_cell base reg_pc 1 (there reg_pc (omega arith)),
            store_ram-none with_pc reg_stk (sub_unsigned cmd.arg0 1)
                (cell-write_ne base 1 (omega arith) ∙ missing reg_stk (omega arith)),
          )

      two_there : cmd.arg0 ≡ 34 → cmd_initr p cmd c ≡ undefined
      two_there e =
          unfold cmd_initr first_initr alloc_ram in
          ground (
            arith,
            block,
            null,
            last_word (omega arith) (omega arith),
            store_ram_cell base reg_pc 1 (there reg_pc (omega arith)),
            store_ram_cell with_pc reg_stk (cmd.arg0 - 1) (
                IsCell-write base reg_pc reg_stk 1 (there reg_pc (omega arith))
                  (there reg_stk (omega arith))),
            store_ram-none with_stk reg_frm (cmd.arg0 - 1) (
                cell-write_ne with_pc (cmd.arg0 - 1) (omega arith)
                ∙ cell-write_ne base 1 (omega arith)
                ∙ missing reg_frm (omega arith)),
          )

-- A second `initr`, a size of 0 and a failed allocation each mark the chip as failed and
-- leave its ram as it was.
pub cmd_initr_fails :
    (p : Platform) (c : Chip) (cmd : Command)
    → ((m : List ℕ) × (c.ram ≡ some m)) ⊎ ((cmd.arg0 ≡ 0) ⊎ (p.alloc cmd.arg0 ≡ none))
    → (d : Chip) × (cmd_initr p cmd c ≡ done (tt, d)) × (d.state ≡ state_fail) × (d.ram ≡ c.ram)
unfolding cmd_initr first_initr alloc_ram fail
cmd_initr_fails p c cmd (inl (m, e)) = (record c { state = state_fail }, ground arith, refl, refl)
cmd_initr_fails p c cmd (inr h) = elim (Option-cases c.ram) [
  | inr (m, e) ↦ (record c { state = state_fail }, ground arith, refl, refl)
  | inl null ↦ (record c { ramsize = cmd.arg0; state = state_fail }, ground arith, refl, refl)
]
