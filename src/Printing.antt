-- ===== src/Printing.antt =====
-- What a `printf` writes: texts, and numbers whose formatting is left to the C library.
use chip.Prelude.{ℕ, List}

pub data Piece : Type 0 where
  text : List ℕ → Piece
  -- `%lu`, `%5lu` and `%d`, the last with the bit pattern of an `int`.
  unsigned padded signed : ℕ → Piece
