-- ===== src/Engine.antt =====
-- The USB engine, src/engine.c and src/engine.h.
pub mod Sample
pub mod Blocks
pub mod Rings
pub mod Status
pub mod State
pub mod Memory
pub mod Input
pub mod Output
pub mod Frames
pub mod Publish
pub mod Valid
pub mod Thread
pub mod Start
pub mod Usb
pub mod Tests
