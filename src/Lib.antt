-- ===== src/Lib.antt =====
-- chip32 is an assembler and a virtual machine for a 32-bit machine with a word-addressed ram. The
-- assembler (core/c32asm.c, core/c32asmlex.c, core/c32asmpars.c) turns a source text into tokens and
-- then into commands of 10 bytes, saves them to a file, and the machine (core/chip32.c) runs that file
-- page by page through a loader that core/main.c gives it. The assembler's symbols live in the hash
-- table of core/rbhash.c, whose hash functions are those of core/hashalg.c.
--
-- The files, and the code they model:
--   Word      the int32_t and uint32_t operators that core/chip32.c uses, on bit patterns below 2 ^ 32
--   Command, Code   chip32Command_s, its flags and its codes (include/chip32.h)
--   Chip.State, Chip.Operand   chip32_s, chip32_getword and chip32_setword
--   Chip.Alu, Chip.Flow, Chip.Log   the handlers chip32_cmd_*, one function each
--   Chip.Table   the array `commands`, and the call through it on a command of the page
--   Chip.Run   chip32_new and chip32_run; `step` is one round of the while loop
--   Page      chip32_commands_save, chip32_command_load (core/c32asm.c) and page_load (core/main.c)
--   Hash      the hash functions of core/hashalg.c
--   Lexer     a32_lexer and its parts (core/c32asmlex.c)
--   HashTable, HashTable.Grow   the table, its search and insertion, growth and creation (core/rbhash.c, include/rbhash.h)
--   HashTable.Removal   removal, search by steps, release and the counts (core/rbhash.c)
--   Parser, Parser.Actions, Parser.Declare   labels, operands and actions (core/c32asmpars.c)
--   Parser.Commands, Parser.Dispatch   a32_parser_init, a32_parse and chip32_compiler_build (core/c32asm.c)
--   Compiler   the compiler object, its messages and the dump of the tokens (core/c32asm.c)
--   Chip.Dump, Printing   chip32_command_dump (core/chip32.c), and what a printf writes
--   Base64, Strings   the string helpers of core/str.c
--   CommandLine.Paths, CommandLine.Sources, CommandLine.Arguments   the paths, the reading of sources and
--     the options of core/main.c
--   Chip.Cells, Chip.Valid.*, Chip.*.* and the other child modules   lemmas and theorems
--   Tests     a concrete machine, file and text that the theorems are applied to
--
-- A handler is a function from the chip to an outcome: a value and the chip afterwards, or
-- `undefined` where C leaves the behaviour open: signed overflow, a shift count outside 0..31, a zero
-- divisor, an index outside the ram or the page, and two unsequenced changes of the stack pointer's
-- cell. Right shifts of negative numbers and left shifts into the sign are those that gcc documents,
-- and `char` is signed. malloc with the content of a new block, the loader, the content of an
-- uninitialised local and the order in which push evaluates its two sides are the fields of
-- `Platform`, and `IsSound` is what is relied on of them. The calls of stdio are `Stdio`, with the
-- laws `IsStdio`, which a file that is a list of bytes satisfies (Tests.Files); `tolower` and
-- `realloc` are `Libc`. The parser's table of declarations is `Symbols`, and its C library `Library`.
-- The table of actions is a `HashTable`; what malloc gives a hash table, and the bytes that are in it, is
-- `Memory`, and `IsWide` says that it has the length asked for. A call of the hash table, or of a function of
-- core/main.c, is a `Call`: it ends with a value, ends the process by exit(1), or is undefined. The counter `dnswap`,
-- which all tables share and which only counts, is a field of each table of the model.
--
-- Fuel: `logs` and `strcpy` get `rounds a` rounds, the number of increments that the int32_t `a` has
-- until one is undefined, and Chip.Valid shows that no handler runs out of it. The loops of the lexer get
-- one round more than there are bytes left, which is enough. The run loop need not end, as
-- programs need not, and is given a number of rounds; a run that uses them up is `unfinished`.
--
-- The rounds of `rbhash_swapdown`, `rbhash_find_bucket` and `rbhash_search_bucket` are counted in the code, and
-- `rbhash_swapup` gets two, since the first one clears what its condition reads.
--
-- What is printed is a list of pieces, in which the formatting of numbers is left to printf. The system calls of
-- core/main.c are `Host` and `Files`, the latter with the law `IsReader` of `fread`. A string that is only read is the list
-- of its bytes before the 0; a block that is written is the list of all its bytes. `load_code` gets one round more
-- than the file has bytes, and `preprocessing_code` one, since it ends at its first `#`.
--
-- Not modelled: the rest of `main`, which calls the compiler, the writer and the machine in turn. `chip32_free`,
-- `chip32_compiler_free` and `rbhash_token_free` only release memory; `rbhash_free_auto` and `rbhash_search_delete`
-- only pass on.
pub mod Prelude
pub mod Outcome
pub mod Word
pub mod Command
pub mod Code
pub mod Chip
pub mod Page
pub mod Hash
pub mod HashTable
pub mod Lexer
pub mod Parser
pub mod Printing
pub mod Compiler
pub mod Base64
pub mod Strings
pub mod CommandLine
pub mod Tests
