-- ===== src/Chip/Flow/Calls.antt =====
-- `push` and `pop`, `call` and `ret` as commands.
use chip.Prelude.{
  ℕ, ◌-◌, ◌<◌, ◌≡◌, ◌≢◌, sym, ap, ◌∙◌, arith, false, some, inl, inr, Bool-cases, ◌==◌,
}
use chip.Word.{half_mod, sub_unsigned}
use chip.Command.{Command, arg0f_get}
use chip.Outcome.{done}
use chip.Chip.State.{Chip, Platform, cell, write, reg_pc, reg_stk, reg_frm}
use chip.Chip.Flow.{pop_stk, cmd_call, cmd_ret, cmd_push, cmd_pop}
use chip.Chip.Flow.Stack.{
  IsStack, pushed, push_stk_lem, pushed_self, pushed-pointer, pushed-other, pop_stk_at,
  pop_stk-push_stk, post_dec_stk_lem, slot_left,
}
use chip.Chip.Cells.{
  IsCell, IsCell-write, cell-write_self, cell-write_ne, load_ram-cell, store_ram_cell, Reads,
  Target, setword-Target,
}

module _ (p : Platform) (c : Chip) (s : ℕ) (h : IsStack c s) where
  -- `push` stores its operand in the cell that the stack pointer names and moves the pointer down, in
  -- either order of evaluation, if the operand reads the same before and after the pointer moves.
  pub cmd_push_lem :
      (cmd : Command) (v : ℕ)
      → Reads p c (arg0f_get cmd.flags) cmd.arg0 v
      → Reads p (write c reg_stk (s - 1)) (arg0f_get cmd.flags) cmd.arg0 v
      → cmd_push p cmd c ≡ done (tt, pushed c s h v)
  cmd_push_lem cmd v before after =
      let free : (s == reg_stk) ≡ false = ground (arith, h.above_registers) in
      unfold cmd_push in
      ground (
        arith,
        free,
        before,
        after,
        push_stk_lem c s h v,
        post_dec_stk_lem c s h,
        store_ram_cell (write c reg_stk (s - 1)) s v (slot_left c s h),
      )

  -- What `pop` right after `push` does, with a stack pointer `s` above the registers, a pushed operand that
  -- reads the same before and after the pointer moves, and a popped cell that is not the pointer's: that cell
  -- gets the word that was pushed, the stack pointer is `s` again, and only the cell `s` has changed besides.
  pub cmd_pop-cmd_push :
      (push_cmd pop_cmd : Command) (v a : ℕ)
      → Reads p c (arg0f_get push_cmd.flags) push_cmd.arg0 v
      → Reads p (write c reg_stk (s - 1)) (arg0f_get push_cmd.flags) push_cmd.arg0 v
      → Target (write (pushed c s h v) reg_stk s) (arg0f_get pop_cmd.flags) pop_cmd.arg0 a
      → IsCell c a
      → a ≢ reg_stk
      → (d : Chip) × (e : Chip) × (cmd_push p push_cmd c ≡ done (tt, d))
        × (cmd_pop p pop_cmd d ≡ done (tt, e))
        × (cell e a ≡ some v)
        × (cell e reg_stk ≡ some s)
        × ((b : ℕ) → b ≢ a → b ≢ s → cell e b ≡ cell c b)
  cmd_pop-cmd_push push_cmd pop_cmd v a before after target there free = (
    d,
    write e a v,
    cmd_push_lem push_cmd v before after,
    unfold cmd_pop in
        ground (
          arith,
          pop_stk-push_stk c s h v,
          setword-Target e (arg0f_get pop_cmd.flags) pop_cmd.arg0 a v target still_there,
        ),
    cell-write_self e a v still_there,
    cell-write_ne e v free ∙ cell-write_self d reg_stk s pointer_there,
    λ b n m. cell-write_ne e v (λ q. n (sym q)) ∙ others b m,
  )
    where
      d : Chip
      d = pushed c s h v

      e : Chip
      e = write d reg_stk s

      pointer_there : IsCell d reg_stk
      pointer_there = (s - 1, pushed-pointer c s h v)

      still_there : IsCell e a
      still_there = IsCell-write d reg_stk a s pointer_there (
          IsCell-write _ s a v (slot_left c s h)
            (IsCell-write c reg_stk a (s - 1) (s, h.pointer) there))

      others : (b : ℕ) → b ≢ s → cell e b ≡ cell c b
      others b m = elim (Bool-cases (b == reg_stk)) [
        | inl t ↦
            let q : b ≡ reg_stk = ground arith in
            rw q (cell-write_self d reg_stk s pointer_there ∙ sym h.pointer)
        | inr f ↦
            let q : reg_stk ≢ b = ground arith in
            cell-write_ne d s q ∙ pushed-other c s h v b (λ r. m (sym r)) q
      ]

-- What `call` saves in the frame whose top is the cell `s`, and where it leaves the registers.
pub record IsCalled (d : Chip) (s pc frm target : ℕ) : Type 0 where
  pub saved_pc : cell d s ≡ some pc
  pub saved_frm : cell d (s - 1) ≡ some frm
  pub frame : cell d reg_frm ≡ some (s - 2)
  pub stack : cell d reg_stk ≡ some (s - 2)
  pub jumped : cell d reg_pc ≡ some (sub_unsigned target 1)

module _ (p : Platform) (c : Chip) (cmd : Command) (s pc frm target : ℕ) (h : IsStack c s)
    (next : IsCell c (s - 1)) (room : reg_frm < s - 1) (at_pc : cell c reg_pc ≡ some pc)
    (at_frm : cell c reg_frm ≡ some frm)
    (operand : Reads p c (arg0f_get cmd.flags) cmd.arg0 target) where
  abbrev first_push : Chip
  first_push = pushed c s h pc

  first_IsStack : IsStack first_push (s - 1)
  first_IsStack = record {
    pointer = pushed-pointer c s h pc;
    slot =
        IsCell-write (write c reg_stk (s - 1)) s (s - 1) pc (slot_left c s h)
          (IsCell-write c reg_stk (s - 1) (s - 1) (s, h.pointer) next);
    above_registers = room;
    in_range = omega (arith, h.in_range);
  }

  abbrev second_push : Chip
  second_push = pushed first_push (s - 1) first_IsStack frm

  -- With room for two words above the registers, `call` pushes the program counter and the frame register, and leaves its target less one, which the
  -- loop increments, in the program counter.
  pub cmd_call-IsCalled :
      (d : Chip) × (cmd_call p cmd c ≡ done (tt, d)) × IsCalled d s pc frm target
  cmd_call-IsCalled = (
    d,
    unfold cmd_call in
        ground (
          arith,
          operand,
          load_ram-cell c reg_pc at_pc,
          push_stk_lem c s h pc,
          load_ram-cell first_push reg_frm frm_kept,
          push_stk_lem first_push (s - 1) first_IsStack frm,
          load_ram-cell second_push reg_stk pointer,
          store_ram_cell second_push reg_frm (s - 2) frm_there,
          store_ram_cell framed reg_pc (sub_unsigned target 1) pc_there,
        ),
    record {
      saved_pc =
          after s (omega (arith, h.above_registers)) (omega (arith, h.above_registers))
          ∙ pushed-other first_push (s - 1) first_IsStack frm s (omega (arith, room))
              (omega (arith, h.above_registers))
          ∙ pushed_self c s h pc;
      saved_frm =
          after (s - 1) (omega (arith, room)) (omega (arith, room))
          ∙ pushed_self first_push (s - 1) first_IsStack frm;
      frame =
          cell-write_ne framed (sub_unsigned target 1) (omega arith)
          ∙ cell-write_self second_push reg_frm (s - 2) frm_there;
      stack = after reg_stk (omega arith) (omega arith) ∙ pointer;
      jumped = cell-write_self framed reg_pc (sub_unsigned target 1) pc_there;
    },
  )
    where
      frm_kept : cell first_push reg_frm ≡ some frm
      frm_kept =
          pushed-other c s h pc reg_frm (omega (arith, h.above_registers)) (omega arith) ∙ at_frm

      pointer : cell second_push reg_stk ≡ some (s - 2)
      pointer = pushed-pointer first_push (s - 1) first_IsStack frm ∙ ap some (omega (arith, room))

      frm_there : IsCell second_push reg_frm
      frm_there = (
        frm,
        pushed-other first_push (s - 1) first_IsStack frm reg_frm (omega (arith, room))
              (omega arith)
            ∙ frm_kept,
      )

      framed : Chip
      framed = write second_push reg_frm (s - 2)

      pc_there : IsCell framed reg_pc
      pc_there = (
        pc,
        cell-write_ne second_push (s - 2) (omega arith)
            ∙ pushed-other first_push (s - 1) first_IsStack frm reg_pc (omega (arith, room))
                (omega arith)
            ∙ pushed-other c s h pc reg_pc (omega (arith, h.above_registers)) (omega arith)
            ∙ at_pc,
      )

      d : Chip
      d = write framed reg_pc (sub_unsigned target 1)

      after : (b : ℕ) → reg_frm ≢ b → reg_pc ≢ b → cell d b ≡ cell second_push b
      after b n m =
          cell-write_ne framed (sub_unsigned target 1) m ∙ cell-write_ne second_push (s - 2) n

-- `ret` in a chip whose frame register still names the frame that `call` made, whatever the stack
-- pointer and the rest of the ram are by then: it restores the three registers.
pub cmd_ret-IsCalled :
    (p : Platform) (cmd : Command) (e : Chip) (s pc frm : ℕ)
    → s < half_mod
    → reg_frm < s - 1
    → IsCell e reg_pc
    → IsCell e reg_stk
    → cell e s ≡ some pc
    → cell e (s - 1) ≡ some frm
    → cell e reg_frm ≡ some (s - 2)
    → (d : Chip) × (cmd_ret p cmd e ≡ done (tt, d))
      × (cell d reg_pc ≡ some pc)
      × (cell d reg_frm ≡ some frm)
      × (cell d reg_stk ≡ some s)
      × ((b : ℕ) → reg_frm < b → cell d b ≡ cell e b)
cmd_ret-IsCalled p cmd e s pc frm hi room pc_there stk_there at_pc at_frm frame = (
  d,
  unfold cmd_ret in
      ground (
        arith,
        load_ram-cell e reg_frm frame,
        store_ram_cell e reg_stk (s - 2) stk_there,
        first_pop,
        store_ram_cell e2 reg_frm frm frm_there,
        second_pop,
        store_ram_cell e4 reg_pc pc (pc_left),
      ),
  cell-write_self e4 reg_pc pc pc_left,
  cell-write_ne e4 pc (omega arith)
      ∙ cell-write_ne e3 s (omega arith)
      ∙ cell-write_self e2 reg_frm frm frm_there,
  cell-write_ne e4 pc (omega arith) ∙ cell-write_self e3 reg_stk s stk_left,
  λ b lt.
      cell-write_ne e4 pc (omega (arith, lt))
      ∙ cell-write_ne e3 s (omega (arith, lt))
      ∙ cell-write_ne e2 frm (omega (arith, lt))
      ∙ cell-write_ne e1 (s - 1) (omega (arith, lt))
      ∙ cell-write_ne e (s - 2) (omega (arith, lt)),
)
  where
    e1 : Chip
    e1 = write e reg_stk (s - 2)

    e2 : Chip
    e2 = write e1 reg_stk (s - 1)

    e3 : Chip
    e3 = write e2 reg_frm frm

    e4 : Chip
    e4 = write e3 reg_stk s

    d : Chip
    d = write e4 reg_pc pc

    pointer : cell e1 reg_stk ≡ some (s - 2)
    pointer = cell-write_self e reg_stk (s - 2) stk_there

    first_pop : pop_stk e1 ≡ done (frm, e2)
    first_pop =
        pop_stk_at e1 (s - 2) (s - 1) frm pointer (omega (arith, room)) (omega arith)
          (omega (arith, room)) (cell-write_ne e (s - 2) (omega (arith, room)) ∙ at_frm)

    frm_there : IsCell e2 reg_frm
    frm_there = (
      s - 2,
      cell-write_ne e1 (s - 1) (omega arith) ∙ cell-write_ne e (s - 2) (omega arith) ∙ frame,
    )

    second_pop : pop_stk e3 ≡ done (pc, e4)
    second_pop =
        pop_stk_at e3 (s - 1) s pc
          (cell-write_ne e2 frm (omega arith) ∙ cell-write_self e1 reg_stk (s - 1) (s - 2, pointer))
          (omega (arith, room)) hi (omega (arith, room))
          (cell-write_ne e2 frm (omega (arith, room))
            ∙ cell-write_ne e1 (s - 1) (omega (arith, room))
            ∙ cell-write_ne e (s - 2) (omega (arith, room))
            ∙ at_pc)

    stk_left : IsCell e3 reg_stk
    stk_left = (
      s - 1,
      cell-write_ne e2 frm (omega arith) ∙ cell-write_self e1 reg_stk (s - 1) (s - 2, pointer),
    )

    pc_left : IsCell e4 reg_pc
    pc_left = IsCell-write e3 reg_stk reg_pc s stk_left (
        IsCell-write e2 reg_frm reg_pc frm frm_there (
          IsCell-write e1 reg_stk reg_pc (s - 1) (s - 2, pointer)
            (IsCell-write e reg_stk reg_pc (s - 2) stk_there pc_there)))
