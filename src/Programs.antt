-- ===== src/Programs.antt =====
-- What overwitch-record, overwitch-play and overwitch-cli do once their options are read.
pub mod Calls
pub mod Released
mod Tests
