-- ===== src/Ledger.antt =====
-- src/db.rs: the ledger of jobs in PostgreSQL.
pub mod Tables
pub mod Calls
pub mod Rows
pub mod Kept
pub mod Working
pub mod Frames
