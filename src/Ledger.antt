-- ===== src/Ledger.antt =====
-- The contract of the payment service, as an abstract machine over orders, refunds and registered
-- operation keys. The simulator's calls are sequences of its steps.
pub mod Machine
pub mod Invariant
