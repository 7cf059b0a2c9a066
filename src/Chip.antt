-- ===== src/Chip.antt =====
-- core/chip32.c, the virtual machine.
pub mod State
pub mod Operand
pub mod Cells
pub mod Alu
pub mod Flow
pub mod Log
pub mod Dump
pub mod Table
pub mod Run
pub mod Valid
