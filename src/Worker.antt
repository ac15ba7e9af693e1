-- ===== src/Worker.antt =====
-- src/main.rs: the evaluation worker.
pub mod Process
pub mod Attempts
pub mod Frames
pub mod Dedupe
pub mod Retries
pub mod Memory
pub mod Resume
pub mod Progress
pub mod Turns
pub mod Startup
pub mod Losses
pub mod Board
pub mod Transactions
pub mod Budget
