-- ===== src/Simulator/Safety.antt =====
-- Runs of the simulator: any interleaving of the transactions of any threads, from a fresh database
-- (packages/breakroom-core/src/breakroom/simulator.py).
pub mod Fresh
pub mod Interleaving
pub mod Replay
pub mod Retry
pub mod Budget
pub mod Writes
pub mod Tickets
