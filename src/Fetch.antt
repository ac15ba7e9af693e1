-- ===== src/Fetch.antt =====
-- src/pipeline.rs, `fetch_evidence`: the download of a document by its hash.
pub mod Loop
pub mod Induction
pub mod Integrity
pub mod Effort
pub mod Mirrors
pub mod Trace
