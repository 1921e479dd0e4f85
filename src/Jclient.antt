-- ===== src/Jclient.antt =====
-- The JACK client, src/jclient.c.
pub mod Copies
pub mod Run
pub mod Released
pub mod Process
pub mod Cycle
mod RunTests
mod Tests
