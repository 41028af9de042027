-- ===== src/Coverage.antt =====
-- Negative-control coverage (packages/breakroom-core/src/breakroom/coverage.py).
pub mod Observation
pub mod Summary
pub mod Matrix
pub mod Gate
pub mod Denominator
pub mod Planned
pub mod Detection
mod Tests
