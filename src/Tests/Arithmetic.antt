-- ===== src/Tests/Arithmetic.antt =====
-- The commands of arithmetic and rotation.
use chip.Prelude.{ℕ, ◌-◌, ◌<◌, ◌≡◌, ◌≢◌, refl, arith, inl}
use chip.Prelude.Int.{ℤ, ◌+ℤ◌, ◌-ℤ◌, ◌*ℤ◌}
use chip.Word.{signed, half_mod, no_quotient}
use chip.Word.Signed.{Fits}
use chip.Word.Divide.{IsRemainder}
use chip.Outcome.{done, undefined}
use chip.Chip.State.{write, load_ram}
use chip.Chip.Alu.{cmd_div, cmd_mod, cmd_rol, cmd_ror}
use chip.Chip.Alu.Exact.{
  Computes, sum_of, dif_of, exact, command_of, arithmetic-Computes, cmd_div-cmd_mod,
  overflow_undefined,
}
use chip.Chip.Alu.Rotation.{left, right, cmd_rol-left, cmd_ror-ne-right}
use chip.Chip.Operand.{getword}
use chip.Chip.Cells.{Operands}
use chip.Tests.{machine, chip_of, on_cells}

operands : (a b : ℕ) → a < 256 → b < 256 → Operands machine (chip_of a b) (on_cells 0 1) a b 0
unfolding getword load_ram
operands a b h k = record {
  first = refl;
  second = refl;
  target = inl (refl, refl);
  cell_there = (a, refl);
  first_word = omega arith;
  second_word = omega arith;
}

on_7_2 : Operands machine (chip_of 7 2) (on_cells 0 1) 7 2 0
on_7_2 = operands 7 2 (omega arith) (omega arith)

arithmetic-Computes_example :
    Computes
      (command_of dif_of machine (on_cells 0 1))
      (chip_of 7 2)
      0
      (exact dif_of (signed 7) (signed 2))
arithmetic-Computes_example =
    arithmetic-Computes machine (chip_of 7 2) (on_cells 0 1) 7 2 0 on_7_2 dif_of
      (unfold ◌-ℤ◌ in (omega arith, omega arith))

cmd_div-cmd_mod_example :
    (q s : ℤ) × Computes (cmd_div machine (on_cells 0 1)) (chip_of 7 2) 0 q
    × Computes (cmd_mod machine (on_cells 0 1)) (chip_of 7 2) 0 s
    × (signed 7 ≡ q *ℤ signed 2 +ℤ s)
    × IsRemainder (signed 7) (signed 2) s
cmd_div-cmd_mod_example =
    cmd_div-cmd_mod machine (chip_of 7 2) (on_cells 0 1) 7 2 0 on_7_2 (unfold no_quotient in refl)

-- The largest number and 1.
on_max : Operands machine (chip_of (half_mod - 1) 1) (on_cells 0 1) (half_mod - 1) 1 0
unfolding getword load_ram
on_max = record {
  first = refl;
  second = refl;
  target = inl (refl, refl);
  cell_there = (half_mod - 1, refl);
  first_word = omega arith;
  second_word = omega arith;
}

too_large : ¬ (Fits (exact sum_of (signed (half_mod - 1)) (signed 1)))
unfolding ◌+ℤ◌
too_large h = omega (arith, h.1)

overflow_undefined_example :
    command_of sum_of machine (on_cells 0 1) (chip_of (half_mod - 1) 1) ≡ undefined
overflow_undefined_example =
    overflow_undefined machine (chip_of (half_mod - 1) 1) (on_cells 0 1) (half_mod - 1) 1 0 on_max
      sum_of too_large

cmd_rol-left_example :
    (cmd_rol machine (on_cells 0 1) (chip_of 7 2) ≡ done (tt, write (chip_of 7 2) 0 (left 7 2)))
    × (right (left 7 2) 2 ≡ 7)
cmd_rol-left_example =
    cmd_rol-left machine (chip_of 7 2) (on_cells 0 1) 7 2 0 on_7_2 (omega arith) (omega arith)

cmd_ror-ne-right_example :
    cmd_ror machine (on_cells 0 1) (chip_of 1 3) ≢ done (tt, write (chip_of 1 3) 0 (right 1 3))
cmd_ror-ne-right_example =
    cmd_ror-ne-right machine (chip_of 1 3) (on_cells 0 1) 3 0
      (operands 1 3 (omega arith) (omega arith)) (omega arith) (omega arith) (λ e. omega arith)
