-- ===== src/Evaluator.antt =====
-- src/evaluator.rs: the checks of the API-quality profile and the verdict drawn from them.
pub mod Checks
pub mod Oracle
pub mod Verdict
pub mod Reason
