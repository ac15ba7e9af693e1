-- ===== src/Tests/Unit.antt =====
-- The unit tests of the repository, run on the model: each is a function into `Bool`.
mod Evaluator
mod Pipeline
mod Settler
mod Chain
