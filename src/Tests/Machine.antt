-- ===== src/Tests/Machine.antt =====
-- The machine as a whole.
use chip.Prelude.{arith}
use chip.Outcome.{Post, Partial}
use chip.Chip.Table.{exec}
use chip.Chip.Run.{step, run}
use chip.Chip.Valid.Defs.{IsValid}
use chip.Chip.State.{Chip}
use chip.Chip.Valid.Steps.{InPlace, IsProgress, exec-IsValid, step-IsProgress}
use chip.Chip.Valid.Whole.{IsResult, run-IsResult}
use chip.Tests.{machine, machine-IsSound, chip_of, chip_of-IsValid}

exec-IsValid_example :
    Post
      (λ (r : Unit {0} × Chip). IsValid r.1 × InPlace 1 (chip_of 7 2) r.1)
      (exec machine 1 (chip_of 7 2))
exec-IsValid_example =
    exec-IsValid machine machine-IsSound 1 (chip_of 7 2)
      (chip_of-IsValid 7 2 (omega arith) (omega arith))

step-IsProgress_example : Post (IsProgress (chip_of 7 2)) (step machine 4 (chip_of 7 2))
step-IsProgress_example =
    step-IsProgress machine machine-IsSound 4 (chip_of 7 2)
      (chip_of-IsValid 7 2 (omega arith) (omega arith)) (omega arith)

run-IsResult_example : Partial IsResult (run machine 9 (chip_of 7 2))
run-IsResult_example =
    run-IsResult machine machine-IsSound 9 (chip_of 7 2)
      (chip_of-IsValid 7 2 (omega arith) (omega arith))
