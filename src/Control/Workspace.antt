-- ===== src/Control/Workspace.antt =====
-- Invitations and readiness of a workspace (apps/api/breakroom_api/team_workspace.py).
pub mod Invitations
pub mod Readiness
pub mod Evidence
pub mod Joining
pub mod Acceptance
pub mod Tests
