-- ===== src/Database.antt =====
-- The tables of the database (osubot-core/src/storage.rs), and the statements on them.
pub mod Table
pub mod Listeners
pub mod Bindings
pub mod Pending
pub mod Schedule
