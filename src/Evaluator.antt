-- ===== src/Evaluator.antt =====
-- The independent evaluator of a trial (packages/breakroom-core/src/breakroom/evaluator.py).
pub mod Fields
pub mod Claims
pub mod Snapshot
pub mod Record
pub mod Checks
pub mod Quiet
pub mod Verdict
pub mod Evidence
pub mod Opened
mod Tests
