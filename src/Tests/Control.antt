-- ===== src/Tests/Control.antt =====
-- Jumps, the stack, the setup and the pages.
use chip.Prelude.{
  ℕ, ◌+◌, ◌-◌, ◌<◌, ◌≡◌, ◌≢◌, refl, arith, some, replicate, inl, inr, [], ◌∷◌, ◌++◌, ◌==◌,
  if◌then◌else◌,
}
use chip.Command.{Command, IsCommand}
use chip.Outcome.{done, undefined}
use chip.Chip.State.{Chip, ◌>>◌, cell, write, load_ram, reg_pc, reg_stk, reg_frm}
use chip.Chip.Operand.{getword}
use chip.Chip.Flow.{cmd_ift, cmd_iff, cmd_call, cmd_ret, cmd_push, cmd_pop, cmd_initr}
use chip.Chip.Flow.Stack.{IsStack}
use chip.Chip.Flow.Calls.{IsCalled, cmd_pop-cmd_push, cmd_call-IsCalled, cmd_ret-IsCalled}
use chip.Chip.Flow.Setup.{cmd_initr-sets_up, cmd_initr_too_small}
use chip.Chip.Run.{inc_pc, step, fresh, running, page_of}
use chip.Chip.Run.Jumps.{Continues, cmd_ift-cmd_iff}
use chip.Chip.Run.Pages.{step_behind}
use chip.Chip.Run.Fetching.{goes_on, step-Continues}
use chip.Chip.Valid.Defs.{IsValid}
use chip.Tests.{machine, machine-IsSound, chip_of, chip_of-IsValid, nop_cmd, nop-IsCommand}

-- A command with literal arguments, and one whose first argument is a cell.
abbrev literals : ℕ → ℕ → Command
literals a b = record { flags = 0; code = 0x20; arg0 = a; arg1 = b }

abbrev on_cell : ℕ → ℕ → Command
on_cell a b = record { flags = 1; code = 0x21; arg0 = a; arg1 = b }

abbrev iff_cell : Command
iff_cell = record { flags = 1; code = 0x22; arg0 = 0; arg1 = 3 }

iff_cell-IsCommand : IsCommand iff_cell
iff_cell-IsCommand = record {
  flags_byte = omega arith;
  code_byte = omega arith;
  arg0_word = omega arith;
  arg1_word = omega arith;
}

cmd_ift-cmd_iff_example :
    ((d : Chip) × ((cmd_ift machine (on_cell 0 3) >> inc_pc) (chip_of 7 2) ≡ done (tt, d))
      × Continues (chip_of 7 2) d (if 7 == 0 then 3 else (5 + 1)))
    × ((d : Chip) × ((cmd_iff machine (on_cell 0 3) >> inc_pc) (chip_of 7 2) ≡ done (tt, d))
        × Continues (chip_of 7 2) d (if 7 == 0 then (5 + 1) else 3))
cmd_ift-cmd_iff_example =
    cmd_ift-cmd_iff machine (chip_of 7 2) (on_cell 0 3) 7 3 5 (unfold getword load_ram in refl)
      (unfold getword in refl) refl (omega arith) (omega arith)

stack : IsStack (chip_of 7 2) 39
stack = record {
  pointer = refl;
  slot = (0, refl);
  above_registers = omega arith;
  in_range = omega arith;
}

cmd_pop-cmd_push_example :
    (d : Chip) × (e : Chip) × (cmd_push machine (on_cell 0 0) (chip_of 7 2) ≡ done (tt, d))
    × (cmd_pop machine (on_cell 1 0) d ≡ done (tt, e))
    × (cell e 1 ≡ some 7)
    × (cell e reg_stk ≡ some 39)
    × ((b : ℕ) → b ≢ 1 → b ≢ 39 → cell e b ≡ cell (chip_of 7 2) b)
cmd_pop-cmd_push_example =
    cmd_pop-cmd_push machine (chip_of 7 2) 39 stack (on_cell 0 0) (on_cell 1 0) 7 1
      (unfold getword load_ram in refl) (unfold getword load_ram write in refl) (inl (refl, refl))
      (2, refl) (λ e. omega arith)

cmd_call-IsCalled_example :
    (d : Chip) × (cmd_call machine (literals 3 0) (chip_of 7 2) ≡ done (tt, d))
    × IsCalled d 39 5 39 3
cmd_call-IsCalled_example =
    cmd_call-IsCalled machine (chip_of 7 2) (literals 3 0) 39 5 39 3 stack (0, refl) (omega arith)
      refl refl (unfold getword in refl)

-- A chip as `call` leaves it.
abbrev called : Chip
called = write (write (write (chip_of 7 2) 39 5) 38 39) reg_frm 37

cmd_ret-IsCalled_example :
    (d : Chip) × (cmd_ret machine (literals 0 0) called ≡ done (tt, d))
    × (cell d reg_pc ≡ some 5)
    × (cell d reg_frm ≡ some 39)
    × (cell d reg_stk ≡ some 39)
    × ((b : ℕ) → reg_frm < b → cell d b ≡ cell called b)
cmd_ret-IsCalled_example =
    cmd_ret-IsCalled machine (literals 0 0) called 39 5 39 (omega arith) (omega arith)
      (unfold write in (5, refl)) (unfold write in (39, refl)) (unfold write in refl)
      (unfold write in refl) (unfold write in refl)

abbrev new_chip : Chip
new_chip = fresh (replicate 4 nop_cmd) 4

cmd_initr-sets_up_example :
    (d : Chip) × (cmd_initr machine (literals 40 0) new_chip ≡ done (tt, d))
    × (cell d reg_pc ≡ some 1)
    × (cell d reg_stk ≡ some (40 - 1))
    × (cell d reg_frm ≡ some (40 - 1))
    × (d.ramsize ≡ 40)
    × (d.state ≡ 0)
    × (d.page ≡ new_chip.page)
cmd_initr-sets_up_example =
    cmd_initr-sets_up machine new_chip (literals 40 0) (replicate 40 0) refl refl refl (omega arith)
      (omega arith)

cmd_initr_too_small_example : cmd_initr machine (literals 34 0) new_chip ≡ undefined
cmd_initr_too_small_example =
    cmd_initr_too_small machine new_chip (literals 34 0) (replicate 34 0) refl refl refl
      (omega arith) (omega arith)

-- A page with `iff $0, 3` at the program counter.
abbrev branching : Chip
branching = record (chip_of 7 2) {
  page = replicate 5 nop_cmd ++ (iff_cell ∷ nop_cmd ∷ nop_cmd ∷ []);
  page_size = 8;
}

branching-IsValid : IsValid branching
branching-IsValid =
    let v = chip_of-IsValid 7 2 (omega arith) (omega arith) in
    let n = nop-IsCommand in
    record {
      ram_block = v.ram_block;
      page_length = refl;
      page_commands = (n, (n, (n, (n, (n, (iff_cell-IsCommand, (n, (n, tt))))))));
      state_known = inl refl;
    }

step-Continues_example :
    (d : Chip) × (step machine 8 branching ≡ done (running 8 d))
    × Continues branching d (goes_on iff_cell.code 7 3 5)
step-Continues_example =
    step-Continues machine 8 branching 5 iff_cell 7 3 machine-IsSound branching-IsValid refl refl
      refl (omega arith) (omega arith) (omega arith) refl (inr refl)
      (unfold getword load_ram in refl) (unfold getword in refl) (omega arith)

step_behind_example : step machine 4 (chip_of 7 2) ≡ undefined
step_behind_example =
    step_behind machine 4 (chip_of 7 2) 5 (replicate 4 nop_cmd) 4 machine-IsSound
      (chip_of-IsValid 7 2 (omega arith) (omega arith)) refl refl (omega arith) (omega arith)
      (omega arith) (unfold page_of in λ e. omega arith) (unfold page_of in refl) (omega arith)
