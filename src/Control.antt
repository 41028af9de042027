-- ===== src/Control.antt =====
-- The control plane (apps/api/breakroom_api): its database, billing, accounts and invitations.
pub mod Rows
pub mod Monad
pub mod Effects
pub mod Answers
pub mod Accounts
pub mod Billing
pub mod Workspace
