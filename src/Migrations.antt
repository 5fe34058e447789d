-- ===== src/Migrations.antt =====
-- migrations/: the environment of Alembic.
pub mod Env
pub mod Initial
