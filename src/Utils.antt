-- ===== src/Utils.antt =====
-- internal/site/src/lib/utils.ts, one child module for each group of helpers.
pub mod Width
pub mod Duration
pub mod Sizes
pub mod Meter
pub mod Versions
pub mod Timers
mod Tests
