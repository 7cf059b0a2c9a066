-- ===== src/Parser/Commands.antt =====
-- The table of actions of core/c32asmpars.c, which `a32_parser_init` fills.
use chip.Prelude.{ℕ, some, List, [], ◌∷◌}
use chip.HashTable.{HashTable}
use chip.HashTable.Grow.{Memory, add}
use chip.HashTable.Calls.{Call, done, ◌>>=◌}
use chip.Parser.Actions.{
  Calculation, Transfer, nop, move, inc, dec, sum, dif, mul, div, modulo, or, xor, and, not, shl,
  shr, rol, ror, bor, band, bnot, jmp, call, ret, push, pop, logi, logu, logc, logs, logln, strcpy,
}

-- The functions `action_`.
pub data Action : Type 0 where
  declare initr jmpi ift iff : Action
  calculates : Calculation → Action
  transfers : Transfer → Action

-- Their names and themselves, in the order in which `a32_parser_init` adds them.
abbrev pub actions : List (List ℕ × Action)
actions =
    (100 ∷ 101 ∷ 99 ∷ 108 ∷ 97 ∷ 114 ∷ 101 ∷ [], declare)
    ∷ (105 ∷ 110 ∷ 105 ∷ 116 ∷ 114 ∷ [], initr)
    ∷ (110 ∷ 111 ∷ 112 ∷ [], calculates nop)
    ∷ (109 ∷ 111 ∷ 118 ∷ 101 ∷ [], calculates move)
    ∷ (105 ∷ 110 ∷ 99 ∷ [], calculates inc)
    ∷ (100 ∷ 101 ∷ 99 ∷ [], calculates dec)
    ∷ (115 ∷ 117 ∷ 109 ∷ [], calculates sum)
    ∷ (100 ∷ 105 ∷ 102 ∷ [], calculates dif)
    ∷ (109 ∷ 117 ∷ 108 ∷ [], calculates mul)
    ∷ (100 ∷ 105 ∷ 118 ∷ [], calculates div)
    ∷ (109 ∷ 111 ∷ 100 ∷ [], calculates modulo)
    ∷ (111 ∷ 114 ∷ [], calculates or)
    ∷ (120 ∷ 111 ∷ 114 ∷ [], calculates xor)
    ∷ (97 ∷ 110 ∷ 100 ∷ [], calculates and)
    ∷ (110 ∷ 111 ∷ 116 ∷ [], calculates not)
    ∷ (115 ∷ 104 ∷ 108 ∷ [], calculates shl)
    ∷ (115 ∷ 104 ∷ 114 ∷ [], calculates shr)
    ∷ (114 ∷ 111 ∷ 108 ∷ [], calculates rol)
    ∷ (114 ∷ 111 ∷ 114 ∷ [], calculates ror)
    ∷ (98 ∷ 111 ∷ 114 ∷ [], calculates bor)
    ∷ (98 ∷ 97 ∷ 110 ∷ 100 ∷ [], calculates band)
    ∷ (98 ∷ 110 ∷ 111 ∷ 116 ∷ [], calculates bnot)
    ∷ (106 ∷ 109 ∷ 112 ∷ [], calculates jmp)
    ∷ (106 ∷ 109 ∷ 112 ∷ 105 ∷ [], jmpi)
    ∷ (105 ∷ 102 ∷ 116 ∷ [], ift)
    ∷ (105 ∷ 102 ∷ 102 ∷ [], iff)
    ∷ (99 ∷ 97 ∷ 108 ∷ 108 ∷ [], transfers call)
    ∷ (114 ∷ 101 ∷ 116 ∷ [], transfers ret)
    ∷ (112 ∷ 117 ∷ 115 ∷ 104 ∷ [], transfers push)
    ∷ (112 ∷ 111 ∷ 112 ∷ [], transfers pop)
    ∷ (108 ∷ 111 ∷ 103 ∷ 105 ∷ [], transfers logi)
    ∷ (108 ∷ 111 ∷ 103 ∷ 117 ∷ [], transfers logu)
    ∷ (108 ∷ 111 ∷ 103 ∷ 99 ∷ [], transfers logc)
    ∷ (108 ∷ 111 ∷ 103 ∷ 115 ∷ [], transfers logs)
    ∷ (108 ∷ 111 ∷ 103 ∷ 108 ∷ 110 ∷ [], transfers logln)
    ∷ (115 ∷ 116 ∷ 114 ∷ 99 ∷ 112 ∷ 121 ∷ [], transfers strcpy)
    ∷ []

-- The results of `rbhash_add` are not looked at.
unfoldable pub add_actions :
    Memory Action → List (List ℕ × Action) → HashTable Action → Call (HashTable Action)
unfolding add
add_actions memory [] t = done t
add_actions memory (a ∷ rest) t = add memory t a.0 (some a.1) >>= λ r. add_actions memory rest r.1

unfoldable pub parser_init : Memory Action → HashTable Action → Call (HashTable Action)
unfolding add_actions
parser_init memory t = add_actions memory actions t
