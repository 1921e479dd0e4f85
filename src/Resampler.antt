-- ===== src/Resampler.antt =====
-- The resampler, src/resampler.c and src/resampler.h.
pub mod State
pub mod Buffers
pub mod Ratios
pub mod Graph
pub mod Clearing
pub mod Cycles
pub mod Trace
pub mod Audio
pub mod Room
pub mod Sizes
pub mod Queue
pub mod Conversions
pub mod Keeping
pub mod Setup
pub mod Started
pub mod SetupTests
pub mod Tests
