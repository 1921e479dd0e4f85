-- ===== src/Service.antt =====
-- The clients of overwitch-service, src/main-service.c.
pub mod Pool
pub mod View
pub mod Rename
pub mod Stops
mod Tests
