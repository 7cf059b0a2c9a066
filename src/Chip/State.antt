-- ===== src/Chip/State.antt =====
-- `chip32_s`, the state of a chip, the effects of a command on it, and what the machine takes from
-- outside core/chip32.c: the allocator, the loader of pages and the compiler's free choices.
use mathlib.Core.Option
use chip.Prelude.{
  ℕ, Bool, Option, none, some, List, [], ◌∷◌, ◌++◌, ltb, if◌then◌else◌, get_elem?, set,
}
use chip.Word.{half_mod}
use chip.Command.{Command}
use chip.Outcome.{Outcome, done, undefined}
use chip.Outcome

-- What the machine writes: the calls of `fprintf(stderr, …)` by their format, and its own messages
-- on stdout.
pub data Output : Type 0 where
  printed_int printed_unsigned printed_char : ℕ → Output
  setword_fail fail_load fail_initr : Output
  reload_page : ℕ → ℕ → ℕ → Output

-- `ram` is `none` for the null pointer; `page` is the source's `data`.
pub record Chip : Type 0 where
  pub ram : Option (List ℕ)
  pub ramsize : ℕ
  pub page : List Command
  pub page_current : ℕ
  pub page_size : ℕ
  pub state : ℕ
  pub output : List Output

-- `load addr buffer` is `dataLoad(dataCtx, addr, buffer, size)`, for a buffer of `size` commands:
-- `none` for a negative result, else the count and the buffer afterwards. `alloc` and `alloc_page`
-- are `malloc`, with the contents that a new block happens to hold; `junk` is the content of an
-- uninitialised local command. `value_first` is the order in which the compiler evaluates the two
-- sides of the assignment in `chip32_cmd_push`, which C leaves open.
pub record Platform : Type 0 where
  pub alloc : ℕ → Option (List ℕ)
  pub alloc_page : ℕ → Option (List Command)
  pub load : ℕ → List Command → Option (ℕ × List Command)
  pub junk : Command
  pub value_first : Bool

-- CHIP32_STATE_* and CHIP32_REG_*.
abbrev pub state_end : ℕ
state_end = 0x01

abbrev pub state_fail : ℕ
state_fail = 0xff

abbrev pub reg_pc : ℕ
reg_pc = 32

abbrev pub reg_stk : ℕ
reg_stk = 33

abbrev pub reg_frm : ℕ
reg_frm = 34

-- A computation over the chip. `undefined` is C's undefined behaviour.
abbrev pub M : Type 0 → Type 0
M A = Chip → Outcome (A × Chip)

abbrev pub pure : {A : Type 0} → A → M A
pure a c = done (a, c)

infixl 5 ◌>>=◌ ◌>>◌
abbrev pub ◌>>=◌ : {A B : Type 0} → M A → (A → M B) → M B
◌>>=◌ m f c = Outcome.◌>>=◌ (m c) (λ r. f r.0 r.1)

abbrev pub ◌>>◌ : {B : Type 0} → M (Unit {0}) → M B → M B
m >> k = m >>= λ _. k

-- An expression whose behaviour may be undefined.
abbrev pub lift : {A : Type 0} → Outcome A → M A
lift o c = Outcome.◌>>=◌ o (λ a. done (a, c))

-- `c->ram[r]`: an index is an `int32_t`, and the null pointer has no cells.
abbrev pub cell_of : Option (List ℕ) → ℕ → Option ℕ
cell_of none r = none
cell_of (some m) r = if ltb r half_mod then get_elem? m r else none

abbrev pub cell : Chip → ℕ → Option ℕ
cell c r = cell_of c.ram r

unfoldable pub write : Chip → ℕ → ℕ → Chip
write c r v = record c { ram = Option.map (λ m. set m r v) c.ram }

unfoldable pub load_ram : ℕ → M ℕ
load_ram r c = elim (cell c r) [ none ↦ undefined | some v ↦ done (v, c) ]

unfoldable pub store_ram : ℕ → ℕ → M (Unit {0})
store_ram r v c = elim (cell c r) [ none ↦ undefined | some _ ↦ done (tt, write c r v) ]

unfoldable pub fail : M (Unit {0})
fail c = done (tt, record c { state = state_fail })

unfoldable pub emit : Output → M (Unit {0})
emit o c = done (tt, record c { output = c.output ++ (o ∷ []) })
