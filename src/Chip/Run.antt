-- ===== src/Chip/Run.antt =====
-- `chip32_new` and `chip32_run` of core/chip32.c. `step` is one round of its loop.
pub mod Jumps
pub mod Pages
pub mod Fetching
use mathlib.Core.Bool.{◌||◌, ◌&&◌}
use chip.Prelude.{
  ℕ, zero, suc, ◌+◌, ◌-◌, ◌/◌, ◌%◌, ◌^◌, Bool, true, false, Option, none, some, List, [], ◌∷◌, ◌++◌,
  ltb, leb, ◌==◌, if◌then◌else◌, get_elem?, set,
}
use chip.Command.{Command}
use chip.Code.{initr_code}
use chip.Outcome.{Outcome, done, undefined, unfinished}
use chip.Outcome
use chip.Word.{add, word_mod, half_mod}
use chip.Chip.State.{
  Chip, Platform, M, ◌>>=◌, ◌>>◌, lift, load_ram, store_ram, fail, emit, fail_load, fail_initr,
  reload_page, state_end, state_fail, reg_pc,
}
use chip.Chip.Flow.{cmd_initr}
use chip.Chip.Table.{exec}

-- The fields as `chip32_new` sets them.
abbrev pub fresh : List Command → ℕ → Chip
fresh page size = record {
  ram = none;
  ramsize = 0;
  page = page;
  page_current = 0;
  page_size = size;
  state = 0;
  output = [];
}

-- `room` says whether the allocation of the `chip32_s` itself succeeds.
unfoldable pub chip_new : Platform → Bool → ℕ → Option Chip
chip_new p false size = none
chip_new p true size = elim (p.alloc_page size) [ none ↦ none | some page ↦ some (fresh page size) ]

-- A round of the loop goes on with the count of commands in the page, or leaves the loop.
pub data Progress : Type 0 where
  running : ℕ → Chip → Progress
  stopped : Chip → Progress

-- `(size_t)c->ram[CHIP32_REG_PC]`: a negative number wraps at 2 ^ 64.
unfoldable pub as_size : ℕ → ℕ
as_size w = if ltb w half_mod then w else 2 ^ 64 - word_mod + w

-- `(uint32_t)(pc / c->pagesize)`.
unfoldable pub page_of : ℕ → ℕ → ℕ
unfolding as_size
page_of pc size = as_size pc / size % word_mod

-- `(ssize_t)pc % (ssize_t)c->pagesize >= ncmds`, where the remainder of a negative number is
-- negative or 0, and `ncmds` is not negative.
unfoldable pub past_end : ℕ → ℕ → ℕ → Bool
past_end pc size n =
    if ltb pc half_mod then leb n (pc % size) else (word_mod - pc) % size == 0 && n == 0

-- `++c->ram[CHIP32_REG_PC]`.
unfoldable pub inc_pc : M (Unit {0})
unfolding load_ram store_ram add
inc_pc = do pc ← load_ram reg_pc; next ← lift (add pc 1); store_ram reg_pc next

-- The command and the increment behind it.
unfoldable pub exec_at : Platform → ℕ → M (Unit {0})
unfolding exec inc_pc
exec_at p pc = exec p pc >> inc_pc

-- The end of a round: with `n` commands in the page.
unfoldable pub exec_in : Platform → ℕ → ℕ → Chip → Outcome Progress
unfolding past_end exec_at
exec_in p n pc c =
    if past_end pc c.page_size n
    then done (stopped c)
    else Outcome.◌>>=◌ (exec_at p pc c) (λ r. done (running n r.1))

-- The message and the load of another page.
unfoldable pub reload : Platform → ℕ → ℕ → Chip → Outcome Progress
unfolding emit exec_in
reload p page pc c =
    let moved = record c {
      page_current = page;
      output = c.output ++ (reload_page page c.page_current c.page_size ∷ []);
    } in
    elim (p.load page c.page) [
      | none ↦ done (stopped (record moved { state = state_fail }))
      | some (n, loaded) ↦ exec_in p n pc (record moved { page = loaded })
    ]

-- A round up to the end of its page test.
unfoldable pub fetch : Platform → ℕ → Chip → Outcome Progress
unfolding page_of exec_in reload load_ram
fetch p n c = Outcome.◌>>=◌ (load_ram reg_pc c) (λ r.
    let pc = r.0 in
    if c.page_size == 0
    then undefined
    else if page_of pc c.page_size == c.page_current
    then exec_in p n pc c
    else reload p (page_of pc c.page_size) pc c)

unfoldable pub halted : Chip → Bool
halted c = c.state == state_end || c.state == state_fail

-- A round of the `while` loop, its test included.
unfoldable pub step : Platform → ℕ → Chip → Outcome Progress
unfolding halted fetch
step p n c = if halted c then done (stopped c) else fetch p n c

-- The loop, for a number of rounds.
unfoldable pub loop : Platform → ℕ → ℕ → Chip → Outcome Chip
unfolding step
loop p zero n c = unfinished
loop p (suc fuel) n c = elim (step p n c) [
  | undefined ↦ undefined
  | unfinished ↦ unfinished
  | done (stopped c') ↦ done c'
  | done (running n' c') ↦ loop p fuel n' c'
]

-- The result is `true` for 0 and `false` for -1.
unfoldable pub finish : Chip → Bool × Chip
finish c = (if c.state == state_fail then false else true, c)

-- After the test of the first command.
unfoldable pub boot : Platform → ℕ → ℕ → Command → Chip → Outcome (Bool × Chip)
unfolding cmd_initr loop finish
boot p fuel n cmd c = Outcome.◌>>=◌ (cmd_initr p cmd c) (λ r.
    if r.1.state == state_fail
    then done (false, r.1)
    else Outcome.◌>>=◌ (loop p fuel n r.1) (λ c'. done (finish c')))

unfoldable pub boot_page : Platform → ℕ → ℕ → Chip → List Command → Outcome (Bool × Chip)
unfolding boot fail emit
boot_page p fuel n c [] = undefined
boot_page p fuel n c (cmd ∷ _) =
    if cmd.code == initr_code
    then boot p fuel n cmd c
    else (Outcome.◌>>=◌ ((fail >> emit fail_initr) c) (λ r. done (false, r.1)))

unfoldable pub run : Platform → ℕ → Chip → Outcome (Bool × Chip)
unfolding boot_page fail emit
run p fuel c = elim (p.load 0 c.page) [
  | none ↦ Outcome.◌>>=◌ ((fail >> emit fail_load) c) (λ r. done (false, r.1))
  | some (n, loaded) ↦ boot_page p fuel n (record c { page = loaded; page_current = 0 }) loaded
]
