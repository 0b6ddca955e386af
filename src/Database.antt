-- ===== src/Database.antt =====
-- internal/database: the three repositories over the pool. A statement's text is a value of `Stmt`,
-- its parameters filled in; `NOW()` and a new UUID are arguments.
pub mod Pool
pub mod Migrations
pub mod StreamKeyRepo
pub mod StreamRepo
pub mod BroadcasterRepo
