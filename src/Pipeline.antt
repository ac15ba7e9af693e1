-- ===== src/Pipeline.antt =====
-- src/pipeline.rs, `run_pipeline`: one job from the eligibility test to its settlement.
pub mod Exec
pub mod Run
mod Halves
pub mod Soundness
pub mod Report
pub mod Completes
