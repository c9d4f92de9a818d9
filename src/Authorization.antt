-- ===== src/Authorization.antt =====
-- Who may do what: internal/application/authorization, and services/team_roles.go.
pub mod Permissions
pub mod Conversations
pub mod TeamRoles
mod Tests
