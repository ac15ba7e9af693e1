-- ===== src/Tests.antt =====
-- Runs of the model on the samples, and each theorem at an input that meets its hypotheses.
mod Unit
mod Evaluation
mod Download
mod Settlement
mod Deliveries
mod Jobs
mod Turns
mod Requests
mod Live
mod Tasks
mod Interface
mod Completion
mod Settings
mod Restarts
