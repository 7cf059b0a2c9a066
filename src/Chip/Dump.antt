-- ===== src/Chip/Dump.antt =====
-- `chip32_command_dump` of core/chip32.c. What it prints is a list of pieces.
pub mod Names
use chip.Prelude.{
  ℕ, zero, suc, ◌+◌, ◌%◌, ◌/◌, List, [], ◌∷◌, ◌++◌, length, ◌==◌, if◌then◌else◌, get_or,
}
use chip.Command.{Command}
use chip.Printing.{Piece, text, padded, unsigned, signed}
use chip.Code.{
  nop_code, move_code, inc_code, dec_code, sum_code, dif_code, mul_code, div_code, mod_code,
  or_code, xor_code, and_code, not_code, shl_code, shr_code, rol_code, ror_code, bor_code,
  band_code, bnot_code, jmp_code, ift_code, iff_code, call_code, ret_code, push_code, pop_code,
  initr_code, logi_code, logu_code, logc_code, logs_code, logln_code, strcpy_code,
}

-- The entries of `dump` that have a name of their own: the code, the name and the number of operands.
abbrev pub dump : List (ℕ × List ℕ × ℕ)
dump =
    (nop_code, 110 ∷ 111 ∷ 112 ∷ [], 0)
    ∷ (move_code, 109 ∷ 111 ∷ 118 ∷ 101 ∷ [], 2)
    ∷ (inc_code, 105 ∷ 110 ∷ 99 ∷ [], 1)
    ∷ (dec_code, 100 ∷ 101 ∷ 99 ∷ [], 1)
    ∷ (sum_code, 115 ∷ 117 ∷ 109 ∷ [], 2)
    ∷ (dif_code, 100 ∷ 105 ∷ 102 ∷ [], 2)
    ∷ (mul_code, 109 ∷ 117 ∷ 108 ∷ [], 2)
    ∷ (div_code, 100 ∷ 105 ∷ 118 ∷ [], 2)
    ∷ (mod_code, 109 ∷ 111 ∷ 100 ∷ [], 2)
    ∷ (or_code, 111 ∷ 114 ∷ [], 2)
    ∷ (xor_code, 120 ∷ 111 ∷ 114 ∷ [], 2)
    ∷ (and_code, 97 ∷ 110 ∷ 100 ∷ [], 2)
    ∷ (not_code, 110 ∷ 111 ∷ 116 ∷ [], 1)
    ∷ (shl_code, 115 ∷ 104 ∷ 108 ∷ [], 2)
    ∷ (shr_code, 115 ∷ 104 ∷ 114 ∷ [], 2)
    ∷ (rol_code, 114 ∷ 111 ∷ 108 ∷ [], 2)
    ∷ (ror_code, 114 ∷ 111 ∷ 114 ∷ [], 2)
    ∷ (bor_code, 98 ∷ 111 ∷ 114 ∷ [], 2)
    ∷ (band_code, 98 ∷ 97 ∷ 110 ∷ 100 ∷ [], 2)
    ∷ (bnot_code, 98 ∷ 110 ∷ 111 ∷ 116 ∷ [], 2)
    ∷ (jmp_code, 106 ∷ 109 ∷ 112 ∷ [], 1)
    ∷ (ift_code, 105 ∷ 102 ∷ 116 ∷ [], 2)
    ∷ (iff_code, 105 ∷ 102 ∷ 102 ∷ [], 2)
    ∷ (call_code, 99 ∷ 97 ∷ 108 ∷ 108 ∷ [], 1)
    ∷ (ret_code, 114 ∷ 101 ∷ 116 ∷ [], 1)
    ∷ (push_code, 112 ∷ 117 ∷ 115 ∷ 104 ∷ [], 1)
    ∷ (pop_code, 112 ∷ 111 ∷ 112 ∷ [], 1)
    ∷ (initr_code, 105 ∷ 110 ∷ 105 ∷ 116 ∷ 114 ∷ [], 1)
    ∷ (logi_code, 108 ∷ 111 ∷ 103 ∷ 105 ∷ [], 1)
    ∷ (logu_code, 108 ∷ 111 ∷ 103 ∷ 117 ∷ [], 1)
    ∷ (logc_code, 108 ∷ 111 ∷ 103 ∷ 99 ∷ [], 1)
    ∷ (logs_code, 108 ∷ 111 ∷ 103 ∷ 115 ∷ [], 1)
    ∷ (logln_code, 108 ∷ 111 ∷ 103 ∷ 108 ∷ 110 ∷ [], 0)
    ∷ (strcpy_code, 115 ∷ 116 ∷ 114 ∷ 99 ∷ 112 ∷ 121 ∷ [], 2)
    ∷ []

-- `dump[code]`: the ranges of the other codes hold nop without operands.
unfoldable pub dump_entry : ℕ → List (ℕ × List ℕ × ℕ) → List ℕ × ℕ
dump_entry code [] = (110 ∷ 111 ∷ 112 ∷ [], 0)
dump_entry code (e ∷ rest) = if e.0 == code then (e.1, e.2) else dump_entry code rest

-- The mark of an operand's type: nothing, `$`, `*` or `@`.
abbrev pub argname : List (List ℕ)
argname = [] ∷ (36 ∷ []) ∷ (42 ∷ []) ∷ (64 ∷ []) ∷ []

abbrev pub sep : List (List ℕ)
sep = [] ∷ (44 ∷ []) ∷ []

-- The loop over the operands, of which `narg` are left, from the number `k` on.
unfoldable pub dump_args : ℕ → ℕ → ℕ → List ℕ → List Piece
dump_args zero k flags args = []
dump_args (suc narg) k flags args =
    text (get_or sep k [] ++ (32 ∷ get_or argname (flags % 4) []))
    ∷ signed (get_or args k 0)
    ∷ dump_args narg (k + 1) (flags / 4) args

unfoldable pub dump_command : ℕ → Command → List Piece
unfolding dump_entry dump_args
dump_command i cmd =
    let e = dump_entry cmd.code dump in
    padded i ∷ text (124 ∷ 32 ∷ e.0) ∷ dump_args e.1 0 cmd.flags (cmd.arg0 ∷ cmd.arg1 ∷ [])
    ++ (text (10 ∷ []) ∷ [])

unfoldable pub dump_from : ℕ → List Command → List Piece
unfolding dump_command
dump_from i [] = []
dump_from i (cmd ∷ cmds) = dump_command i cmd ++ dump_from (i + 1) cmds

unfoldable pub command_dump : List Command → List Piece
unfolding dump_from
command_dump cmds =
    text (99 ∷ 111 ∷ 109 ∷ 109 ∷ 97 ∷ 110 ∷ 100 ∷ 115 ∷ 32 ∷ 100 ∷ 117 ∷ 109 ∷ 112 ∷ 58 ∷ 32 ∷ [])
    ∷ unsigned (length cmds)
    ∷ text (10 ∷ [])
    ∷ dump_from 0 cmds
