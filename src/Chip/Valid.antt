-- ===== src/Chip/Valid.antt =====
-- The well-formed chips, and the computations that keep them so.
pub mod Defs
pub mod Operands
pub mod Alu
pub mod Flow
pub mod Log
pub mod Commands
pub mod Steps
pub mod Whole
