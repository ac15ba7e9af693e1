-- ===== src/Service/Whole.antt =====
-- src/main.rs: the service from the environment that it starts in to every state that it reaches.
use oracle_qa.Prelude.{
  ℕ, ◌≡◌, refl, sym, subst, List, [], ◌∷◌, some, ok, All, arith, inl, inr, Result-cases, Option,
  Result, String,
}
use oracle_qa.Types.{EvaluationJob}
use oracle_qa.State.{OracleConfig}
use oracle_qa.External.{Deps}
use oracle_qa.Config.Parse.{Env}
use oracle_qa.Config.FromEnv.{Setup, from_env}
use oracle_qa.Monitor.Delivery.{Rpc}
use oracle_qa.Monitor.Backfill.{Surroundings, Backfilled, backfill_missed_deliveries}
use oracle_qa.Monitor.Restart.{IsCatch, backfill-IsCatch}
use oracle_qa.Ledger.Calls.{Db, Fate}
use oracle_qa.Worker.Process.{Worker}
use oracle_qa.Worker.Startup.{
  Connect, first_worker, open_channel, ledger_or_none, from_url, built, start_up,
}
use oracle_qa.Service.Steps.{Service, oldest_first, first_service, Run, at_start}
use oracle_qa.Service.Owed.{All-append, IsSafe, Run-IsSafe}

module _ (x : Deps) (setup : Setup) (connect : Connect) (client : Result String (Unit {0}))
    (env : Env) where
  -- The worker of a start is one before its first job.
  start_up_worker :
      (config : OracleConfig) (w : Worker)
      → start_up x setup connect client env ≡ ok (config, w)
      → (db : Option Db) × (w ≡ first_worker db)
  unfolding start_up
  start_up_worker config w e = elim (Result-cases (from_env x setup env)) [
    | inr (f, r) ↦ absurd (cc (rw (r, start_up) at e))
    | inl (c, r) ↦ elim (Result-cases (built client)) [
      | inr (f, b) ↦ absurd (cc (rw b at (rw (r, start_up) at e)))
      | inl (t, b) ↦ elim (Result-cases (open_channel c.job_channel_capacity)) [
        | inr (f, k) ↦ absurd (cc (rw k at (rw b at (rw (r, start_up) at e))))
        | inl (u, k) ↦ (
          ledger_or_none (from_url connect c.database_url),
          cc (rw k at (rw b at (rw (r, start_up) at e))),
        )
      ]
    ]
  ]

module _ (x : Deps) (config : OracleConfig) (fates : ℕ → Fate) (nodes : ℕ → Rpc)
    (history : Surroundings) where
  oldest_first-All :
      (jobs : List EvaluationJob)
      → All (IsCatch x config history) jobs
      → All (IsCatch x config history) (oldest_first jobs)
  oldest_first-All [] h = tt
  oldest_first-All (job ∷ jobs) (caught, h) =
      All-append (IsCatch x config history) (oldest_first jobs) (job ∷ []) (oldest_first-All jobs h)
        (caught, tt)

  first_service-IsSafe :
      (db : Option Db) (found : List EvaluationJob)
      → All (IsCatch x config history) found
      → let start = first_service (first_worker db) found in
        IsSafe x config fates nodes history start start at_start
  first_service-IsSafe db found caught = record {
    monitor_good = (refl, tt);
    pending_caught = oldest_first-All found caught;
    queue_sent = tt;
    queue_bounded = omega arith;
    all_owed = tt;
  }

  -- From every environment in which the service starts, with whatever its backfill finds, and
  -- however its tasks take turns, in the state that a run of theirs leads to: a move of that run
  -- handed over each transaction that the service has handed over, and the replies to that very
  -- move's run of the pipeline justify it. The move is a turn of the worker, for a job that an
  -- earlier move of the live monitor, which found it in a transaction by the node's replies in that
  -- move, or of the backfill, as a missed delivery, had put into the channel; or it is a request
  -- with access that named the job's payment. Each job in the channel was put there by such a move,
  -- the channel stays within its capacity, and the monitor's flag is right. (A run of the pipeline
  -- that the timeout cuts off had handed over nothing yet, or what the whole run hands over.)
  pub start_up-IsSafe :
      (setup : Setup) (connect : Connect) (client : Result String (Unit {0})) (env : Env)
      (w : Worker) (fuel : ℕ) (r : Backfilled) (s : Service)
      → start_up x setup connect client env ≡ ok (config, w)
      → backfill_missed_deliveries x config history fuel w.health ≡ some r
      → (run : Run x config fates nodes (first_service w r.sent) s)
      → IsSafe x config fates nodes history (first_service w r.sent) s run
  start_up-IsSafe setup connect client env w fuel r s started caught run =
      let (db, fresh) = start_up_worker x setup connect client env config w started in
      Run-IsSafe x config fates nodes history (first_service w r.sent) s run (
        subst
          (λ v.
            let start = first_service v r.sent in
            IsSafe x config fates nodes history start start at_start)
          (sym fresh)
          (first_service-IsSafe db r.sent
            (backfill-IsCatch x config history fuel w.health r caught)))
