-- ===== src/Arguments.antt =====
-- The arguments of the command line: the numbers of src/common.c, and the options of the programs.
-- A text is the list of its characters.
pub mod Strtol
pub mod Parse
pub mod Numbers
pub mod Options
pub mod Mains
pub mod Counts
pub mod Chosen
pub mod Runs
pub mod Bounds
mod Tests
