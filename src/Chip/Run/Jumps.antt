-- ===== src/Chip/Run/Jumps.antt =====
-- What the loop fetches after a jump: the increment of the program counter included.
use chip.Prelude.{
  ℕ, ◌+◌, ◌<◌, ◌≡◌, ◌≢◌, ◌∙◌, arith, some, ◌==◌, if◌then◌else◌, Bool-cases, inl, inr,
}
use chip.Word.{half_mod, add, sub, sub_unsigned}
use chip.Command.{Command, arg0f_get, arg1f_get}
use chip.Outcome.{done}
use chip.Chip.State.{Chip, Platform, ◌>>◌, cell, write, reg_pc}
use chip.Chip.Flow.{branch, cmd_jmp, cmd_ift, cmd_iff}
use chip.Chip.Run.{inc_pc}
use chip.Chip.Cells.{IsCell, cell-write_self, cell-write_ne, load_ram-cell, store_ram_cell, Reads}

-- One before an address, as the source computes it, and one after that.
add-sub_unsigned : (t : ℕ) → t < half_mod → add (sub_unsigned t 1) 1 ≡ done t
unfolding add sub_unsigned
add-sub_unsigned t h = ground arith

sub-one : (t : ℕ) → t < half_mod → sub t 1 ≡ done (sub_unsigned t 1)
unfolding sub sub_unsigned
sub-one t h = ground arith

add-one : (s : ℕ) → s + 1 < half_mod → add s 1 ≡ done (s + 1)
unfolding add
add-one s hi = ground arith

inc_pc_lem :
    (c : Chip) (pc next : ℕ)
    → cell c reg_pc ≡ some pc
    → add pc 1 ≡ done next
    → inc_pc c ≡ done (tt, write c reg_pc next)
unfolding inc_pc
inc_pc_lem c pc next e a =
    ground (arith, load_ram-cell c reg_pc e, store_ram_cell c reg_pc next (pc, e))

-- The chip of the next round: its program counter is `t`, all else is as in `c`.
pub record Continues (c d : Chip) (t : ℕ) : Type 0 where
  pub counter : cell d reg_pc ≡ some t
  pub others : (b : ℕ) → reg_pc ≢ b → cell d b ≡ cell c b

-- The increment after a jump to `t`.
landing :
    (c : Chip) (t : ℕ)
    → IsCell c reg_pc
    → t < half_mod
    → (d : Chip) × (inc_pc (write c reg_pc (sub_unsigned t 1)) ≡ done (tt, d)) × Continues c d t
landing c t there h =
    let e = write c reg_pc (sub_unsigned t 1) in
    let at_pc : cell e reg_pc ≡ some (sub_unsigned t 1) =
      cell-write_self c reg_pc (sub_unsigned t 1) there in
    (
      write e reg_pc t,
      inc_pc_lem e (sub_unsigned t 1) t at_pc (add-sub_unsigned t h),
      record {
        counter = cell-write_self e reg_pc t (sub_unsigned t 1, at_pc);
        others = λ b n. cell-write_ne e t n ∙ cell-write_ne c (sub_unsigned t 1) n;
      },
    )

module _ (p : Platform) (c : Chip) (cmd : Command) where
  -- After `jmp` to a target below 2 ^ 31 the loop goes on there, and no other cell has changed.
  pub cmd_jmp-Continues :
      (t : ℕ)
      → Reads p c (arg0f_get cmd.flags) cmd.arg0 t
      → IsCell c reg_pc
      → t < half_mod
      → (d : Chip) × ((cmd_jmp p cmd >> inc_pc) c ≡ done (tt, d)) × Continues c d t
  cmd_jmp-Continues t operand there h =
      let (d, e, k) = landing c t there h in
      (
        d,
        unfold cmd_jmp in
            ground (arith, operand, e, store_ram_cell c reg_pc (sub_unsigned t 1) there),
        k,
      )

  branch_lem :
      (t : ℕ)
      → Reads p c (arg1f_get cmd.flags) cmd.arg1 t
      → IsCell c reg_pc
      → t < half_mod
      → branch p cmd c ≡ done (tt, write c reg_pc (sub_unsigned t 1))
  branch_lem t operand there h =
      unfold branch in
      ground (arith, operand, sub-one t h, store_ram_cell c reg_pc (sub_unsigned t 1) there)

  -- With a target and a next command below 2 ^ 31, `ift` goes on at its target when its first operand is 0, and with the next command when it is not;
  -- `iff` the other way round.
  pub cmd_ift-cmd_iff :
      (v t pc : ℕ)
      → Reads p c (arg0f_get cmd.flags) cmd.arg0 v
      → Reads p c (arg1f_get cmd.flags) cmd.arg1 t
      → cell c reg_pc ≡ some pc
      → t < half_mod
      → pc + 1 < half_mod
      → ((d : Chip) × ((cmd_ift p cmd >> inc_pc) c ≡ done (tt, d))
          × Continues c d (if v == 0 then t else (pc + 1)))
        × ((d : Chip) × ((cmd_iff p cmd >> inc_pc) c ≡ done (tt, d))
            × Continues c d (if v == 0 then (pc + 1) else t))
  cmd_ift-cmd_iff v t pc first second at_pc ht hp =
      let (d, e, k) = landing c t (pc, at_pc) ht in
      let jump : branch p cmd c ≡ done (tt, write c reg_pc (sub_unsigned t 1)) =
        branch_lem t second (pc, at_pc) ht in
      let f : Chip = write c reg_pc (pc + 1) in
      let next : inc_pc c ≡ done (tt, f) = inc_pc_lem c pc (pc + 1) at_pc (add-one pc hp) in
      let going : Continues c f (pc + 1) = record {
        counter = cell-write_self c reg_pc (pc + 1) (pc, at_pc);
        others = λ b n. cell-write_ne c (pc + 1) n;
      } in
      elim (Bool-cases (v == 0)) [
        | inl z ↦ rw z (
          (d, unfold cmd_ift in ground (arith, z, first, jump, e), k),
          (f, unfold cmd_iff in ground (arith, z, first, next), going),
        )
        | inr z ↦ rw z (
          (f, unfold cmd_ift in ground (arith, z, first, next), going),
          (d, unfold cmd_iff in ground (arith, z, first, jump, e), k),
        )
      ]
