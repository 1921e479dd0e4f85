-- ===== src/Recorder.antt =====
-- overwitch-record, src/main-record.c: the buffer between the engine and the disk.
pub mod State
pub mod Tracks
pub mod Write
pub mod Threads
pub mod Outputs
mod Tests
