-- ===== src/Engine/Valid.antt =====
-- The invariant of `struct ow_engine` between two callbacks: the buffers have the sizes that the
-- device's tracks and the blocks of a transfer need.
pub mod Defs
pub mod Init
pub mod Moves
