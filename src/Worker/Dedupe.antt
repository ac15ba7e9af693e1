-- ===== src/Worker/Dedupe.antt =====
-- src/main.rs, the worker with a ledger whose calls work: attempts, dead letters and finished jobs.
use oracle_qa.Prelude.{
  ℕ, ◌+◌, ◌≡◌, inl, inr, refl, ◌∙◌, true, false, Option, some, arith, Result-cases, Option-cases,
}
use oracle_qa.Error.{error_text}
use oracle_qa.Types.{EvaluationJob}
use oracle_qa.State.{OracleConfig}
use oracle_qa.External.{Deps}
use oracle_qa.Pipeline.Run.{run_pipeline}
use oracle_qa.Ledger.Tables.{JobRow}
use oracle_qa.Ledger.Calls.{Db, Fate, works, final_row, record_detected, record_queued}
use oracle_qa.Ledger.Working.{is_terminal_works, row_in}
use oracle_qa.Worker.Process.{Worker, Round, admit, start, run_job, work, process}
use oracle_qa.Worker.Attempts.{
  tried, start_works, ledger_of, row_now, failing, status_after, HasRow, detected_tried,
  queued_tried, give_up-HasRow, succeed-HasRow,
}

module _ (x : Deps) (config : OracleConfig) (fates : ℕ → Fate) (working : (n : ℕ) → fates n ≡ works)
    (job : EvaluationJob) where
  abbrev row_of_job : Db → Option JobRow
  row_of_job = row_in x fates working job

  run_job-HasRow :
      (round : Round) (n : ℕ) (w : Worker) (s : Db)
      → tried x config fates working job s ≡ n
      → HasRow x config fates working job
          (row_now x config fates working job
            (run_job x config fates round job n (ledger_of x config fates working job w s)))
          n
          (status_after x config fates working job n
            (failing x config fates working job round w.shared))
  unfolding run_job
  run_job-HasRow round n w s count = elim (Option-cases round.cut) [
    | inr (left, e) ↦
        rw (e, run_job, failing)
          (give_up-HasRow x config fates working job n "pipeline timeout"
            (record w { shared = left }) s count)
    | inl e ↦ elim (Result-cases (run_pipeline x config round.env job w.shared).0) [
      | inl (outcome, r) ↦
          rw (e, run_job, failing)
            (rw r (
              succeed-HasRow x config fates working job n round.now outcome
                (record w { shared = (run_pipeline x config round.env job w.shared).1 }) s count))
      | inr (m, r) ↦
          rw (e, run_job, failing)
            (rw r (
              give_up-HasRow x config fates working job n (error_text m)
                (record w { shared = (run_pipeline x config round.env job w.shared).1 }) s count))
    ]
  ]

  work-HasRow :
      (round : Round) (w : Worker) (s : Db)
      → HasRow x config fates working job
          (row_now x config fates working job
            (work x config fates round job (ledger_of x config fates working job w s)))
          (tried x config fates working job s + 1)
          (status_after x config fates working job
            (tried x config fates working job s + 1)
            (failing x config fates working job round w.shared))
  unfolding start
  work-HasRow round w s =
      let s1 = (record_detected x fates job s).1 in
      let s2 = (record_queued x fates job s1).1 in
      let (u, started, count) = start_works x config fates working job s2 in
      let same : tried x config fates working job s2 ≡ tried x config fates working job s =
        queued_tried x config fates working job s1 ∙ detected_tried x config fates working job s in
      rw (started, work, start, row_now)
        (rw same (
          run_job-HasRow round (tried x config fates working job s + 1) w u
            (omega (arith, count, same))))

  -- A turn for a job that is settled or dead-lettered in a ledger whose calls work does nothing: no run,
  -- no transaction, no change of a table, a counter or a set; only the queue's depth is noted.
  pub process_final :
      (round : Round) (w : Worker) (s : Db)
      → final_row (row_of_job s) ≡ true
      → process x config fates round job (ledger_of x config fates working job w s) ≡ record w {
        db = some (record s { calls = s.calls + 1 });
        health = record w.health { queue_depth = round.waiting };
      }
  unfolding process admit
  process_final round w s final =
      rw (is_terminal_works x fates working job s, admit) (rw final refl)

  -- A turn for any other job, in a ledger whose calls work, counts one more attempt in the job's row and
  -- leaves it settled where the run succeeds; where the run fails or times out, dead-lettered once the
  -- allowed attempts are used up, and failed before.
  pub process-HasRow :
      (round : Round) (w : Worker) (s : Db)
      → final_row (row_of_job s) ≡ false
      → HasRow x config fates working job
          (row_now x config fates working job
            (process x config fates round job (ledger_of x config fates working job w s)))
          (tried x config fates working job s + 1)
          (status_after x config fates working job
            (tried x config fates working job s + 1)
            (failing x config fates working job round w.shared))
  unfolding process admit
  process-HasRow round w s fresh =
      rw (is_terminal_works x fates working job s, process, admit)
        (rw fresh (
          work-HasRow round (record w { health = record w.health { queue_depth = round.waiting } })
            (record s { calls = s.calls + 1 })))
