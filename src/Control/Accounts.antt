-- ===== src/Control/Accounts.antt =====
-- Password accounts, sessions and account tokens (apps/api/breakroom_api/password_db.py,
-- password_auth.py, team_auth.py).
pub mod Request
pub mod Limits
pub mod Tokens
pub mod Sessions
pub mod Handlers
pub mod Passwords
pub mod Credentials
pub mod Budgets
pub mod Resets
pub mod SignIns
pub mod Passes
pub mod Windows
pub mod Allowed
pub mod Tests
