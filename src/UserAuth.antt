-- ===== src/UserAuth.antt =====
-- src/user_auth: registration, login and sessions.
pub mod Schemas
pub mod Utils
pub mod Routers
