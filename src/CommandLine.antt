-- ===== src/CommandLine.antt =====
-- core/main.c: the paths of the command line, the reading of the sources, and the options.
pub mod Paths
pub mod Sources
pub mod Arguments
