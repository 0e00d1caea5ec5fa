-- ===== src/Auth.antt =====
-- internal/auth: the roles of a user.
pub mod Roles
