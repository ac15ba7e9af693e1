-- ===== src/Settler.antt =====
-- src/settler.rs: eligibility, the resolution hash and the settlement of a verdict.
pub mod Chain
pub mod Confirm
pub mod Eligibility
