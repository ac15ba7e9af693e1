-- ===== src/Monitor.antt =====
-- src/chain.rs: how deliveries are found in transactions.
pub mod Instructions
pub mod Delivery
pub mod Matching
pub mod Candidates
pub mod Scan
pub mod Justified
pub mod Kept
pub mod Complete
pub mod Backfill
pub mod Bounds
pub mod Invariants
pub mod Restart
pub mod Cursor
pub mod Subscription
pub mod Reachable
pub mod News
