-- ===== src/Control/Billing.antt =====
-- Test-mode billing (apps/api/breakroom_api/team_billing.py).
pub mod Provider
pub mod Account
pub mod Operation
pub mod Snapshot
pub mod Handlers
pub mod Inbox
pub mod Worker
pub mod Lifecycle
pub mod Paid
pub mod Kept
pub mod Granted
pub mod Runs
pub mod Attempts
pub mod Repeats
pub mod Tests
