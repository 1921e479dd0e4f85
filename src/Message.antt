-- ===== src/Message.antt =====
-- The state of the service as JSON, src/message.c: what overwitch-service writes and the graphical
-- application reads.
pub mod Json
pub mod Build
pub mod Read
pub mod RoundTrip
mod Plain
mod Tests
