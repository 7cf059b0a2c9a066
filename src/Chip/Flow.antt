-- ===== src/Chip/Flow.antt =====
-- The commands of core/chip32.c that steer: jumps, calls, the stack and the set-up of the ram.
pub mod Stack
pub mod Calls
pub mod Setup
use chip.Prelude.{ℕ, none, some, ◌==◌, if◌then◌else◌}
use chip.Command.{Command, arg0f_get, arg1f_get}
use chip.Outcome.{undefined}
use chip.Word.{add, sub, sub_unsigned}
use chip.Chip.State.{
  Platform, M, pure, ◌>>=◌, ◌>>◌, lift, load_ram, store_ram, fail, reg_pc, reg_stk, reg_frm,
}
use chip.Chip.Operand.{getword, setword}

unfoldable pub cmd_jmp : Platform → Command → M (Unit {0})
unfolding getword store_ram sub_unsigned
cmd_jmp p cmd = do v ← getword p (arg0f_get cmd.flags) cmd.arg0; store_ram reg_pc (sub_unsigned v 1)

-- `c->ram[CHIP32_REG_PC] = chip32_getword(c, a1, pcmd->arg1) - 1`, an `int32_t` subtraction.
unfoldable pub branch : Platform → Command → M (Unit {0})
unfolding getword store_ram sub
branch p cmd = do
  r ← getword p (arg1f_get cmd.flags) cmd.arg1
  w ← lift (sub r 1)
  store_ram reg_pc w

unfoldable pub cmd_ift : Platform → Command → M (Unit {0})
unfolding getword branch
cmd_ift p cmd = do
  v ← getword p (arg0f_get cmd.flags) cmd.arg0
  if v == 0 then branch p cmd else pure tt

unfoldable pub cmd_iff : Platform → Command → M (Unit {0})
unfolding getword branch
cmd_iff p cmd = do
  v ← getword p (arg0f_get cmd.flags) cmd.arg0
  if v == 0 then pure tt else branch p cmd

-- `c->ram[CHIP32_REG_STK]--`, for the old value.
unfoldable pub post_dec_stk : M ℕ
unfolding load_ram store_ram sub
post_dec_stk = do s ← load_ram reg_stk; s' ← lift (sub s 1); store_ram reg_stk s'; pure s

-- `c->ram[++c->ram[CHIP32_REG_STK]]`. Where the index is that register's own, the cell is read
-- and written with no order between the two.
unfoldable pub pop_stk : M ℕ
unfolding load_ram store_ram add
pop_stk = do
  s ← load_ram reg_stk
  s' ← lift (add s 1)
  store_ram reg_stk s'
  if s' == reg_stk then (λ _. undefined) else load_ram s'

-- `c->ram[c->ram[CHIP32_REG_STK]--] = v`. Where the index is that register's own, the cell has
-- two writes with no order between them.
unfoldable pub push_stk : ℕ → M (Unit {0})
unfolding post_dec_stk store_ram
push_stk v = do s ← post_dec_stk; if s == reg_stk then (λ _. undefined) else store_ram s v

unfoldable pub cmd_call : Platform → Command → M (Unit {0})
unfolding getword load_ram store_ram push_stk sub_unsigned
cmd_call p cmd = do
  v ← getword p (arg0f_get cmd.flags) cmd.arg0
  pc ← load_ram reg_pc
  push_stk pc
  frm ← load_ram reg_frm
  push_stk frm
  stk ← load_ram reg_stk
  store_ram reg_frm stk
  store_ram reg_pc (sub_unsigned v 1)

unfoldable pub cmd_ret : Platform → Command → M (Unit {0})
unfolding load_ram store_ram pop_stk
cmd_ret p cmd = do
  frm ← load_ram reg_frm
  store_ram reg_stk frm
  old_frm ← pop_stk
  store_ram reg_frm old_frm
  pc ← pop_stk
  store_ram reg_pc pc

-- The call on the right side runs before or after the left side's decrement.
unfoldable pub cmd_push : Platform → Command → M (Unit {0})
unfolding getword store_ram push_stk post_dec_stk
cmd_push p cmd =
    if p.value_first then (getword p (arg0f_get cmd.flags) cmd.arg0 >>= push_stk) else (do
      s ← post_dec_stk
      v ← getword p (arg0f_get cmd.flags) cmd.arg0
      if s == reg_stk then (λ _. undefined) else store_ram s v)

unfoldable pub cmd_pop : Platform → Command → M (Unit {0})
unfolding pop_stk setword
cmd_pop p cmd = do v ← pop_stk; setword (arg0f_get cmd.flags) cmd.arg0 v

-- `c->ram = MANY(int32_t, c->ramsize)`, and the three registers.
unfoldable pub alloc_ram : Platform → ℕ → M (Unit {0})
unfolding fail store_ram sub_unsigned
alloc_ram p size c = elim (p.alloc size) [
  | none ↦ fail c
  | some m ↦
      (do
        store_ram reg_pc 1
        store_ram reg_stk (sub_unsigned size 1)
        store_ram reg_frm (sub_unsigned size 1))
        (record c { ram = some m })
]

-- What `chip32_cmd_initr` does where the ram is still the null pointer.
unfoldable pub first_initr : Platform → ℕ → M (Unit {0})
unfolding fail alloc_ram
first_initr p size c =
    let sized = record c { ramsize = size } in
    if size == 0 then fail sized else alloc_ram p size sized

unfoldable pub cmd_initr : Platform → Command → M (Unit {0})
unfolding fail first_initr
cmd_initr p cmd c = elim c.ram [ some _ ↦ fail c | none ↦ first_initr p cmd.arg0 c ]
