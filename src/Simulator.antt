-- ===== src/Simulator.antt =====
-- The transactional fake payment and ticket services
-- (packages/breakroom-core/src/breakroom/simulator.py).
pub mod Rows
pub mod Calls
pub mod State
pub mod Answer
pub mod Monad
pub mod Queries
pub mod Log
pub mod Clock
pub mod Refund
pub mod Ticket
pub mod Operation
pub mod Dispatch
pub mod Context
pub mod Initialize
pub mod Effects
pub mod Evolution
pub mod Ensures
pub mod Safety
pub mod Opened
pub mod Fixture
mod Tests
