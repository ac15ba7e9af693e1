-- ===== src/Worker/Turns.antt =====
-- src/main.rs: the worker takes one job after another from the channel.
use oracle_qa.Prelude.{ℕ, List, [], ◌∷◌}
use oracle_qa.Types.{EvaluationJob}
use oracle_qa.State.{OracleConfig}
use oracle_qa.External.{Deps}
use oracle_qa.Ledger.Calls.{Fate}
use oracle_qa.Worker.Process.{Worker, Round, process}

module _ (x : Deps) (config : OracleConfig) (fates : ℕ → Fate) where
  -- `while let Some(job) = job_rx.recv().await`.
  abbrev pub process_each : List (Round × EvaluationJob) → Worker → Worker
  process_each [] w = w
  process_each (turn ∷ turns) w = process_each turns (process x config fates turn.0 turn.1 w)
