-- ===== src/Server.antt =====
-- src/server.rs: the HTTP interface.
pub mod Access
pub mod Window
pub mod Manual
pub mod Answers
pub mod Origin
pub mod Router
pub mod Metrics
pub mod Health
pub mod Liveness
