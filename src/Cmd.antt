-- ===== src/Cmd.antt =====
-- The two programs of cmd.
pub mod Migrate
pub mod Start
