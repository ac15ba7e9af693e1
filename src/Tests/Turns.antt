-- ===== src/Tests/Turns.antt =====
-- The worker with a ledger, over turns for several jobs.
use oracle_qa.Prelude.{
  ℕ, zero, suc, ◌≤◌, ◌≡◌, refl, true, List, [], ◌∷◌, none, some, arith, Option, inl, ap, sym,
}
use oracle_qa.Samples.{sample_deps, sample_config, sample_job, sample_shared}
use oracle_qa.State.{OracleConfig}
use oracle_qa.Types.{EvaluationJob}
use oracle_qa.Pipeline.Exec.{Shared}
use oracle_qa.Ledger.Tables.{
  Status, failed, upsert_row, find_row, fresh_row, merge_row, append_event,
}
use oracle_qa.Ledger.Calls.{
  Db, Fate, works, no_connection, too_late, is_terminal, attempt_count, record_detected,
  record_queued, record_started, record_failed, execute, ask, upsert_job, insert_event, ◌>>=◌,
  final_row,
}
use oracle_qa.Worker.Process.{Round, process, admit, start, run_job, give_up}
use oracle_qa.Worker.Attempts.{ledger_of, row_now}
use oracle_qa.Worker.Retries.{process_all}
use oracle_qa.Worker.Progress.{process_all_ends}
use oracle_qa.Worker.Turns.{process_each}
use oracle_qa.Worker.Losses.{KeepsRow, process_each-KeepsRow}
use oracle_qa.Worker.Board.{board_of, run_board, reports, process_each_refines}
use oracle_qa.Worker.Transactions.{count_for}
use oracle_qa.Worker.Budget.{process_each_budget}
use oracle_qa.Tests.Jobs.{
  fine, all_fine, done_row, no_tables, empty_db, worker, round, late_round, impatient,
}

-- Three rounds end in time, and three turns are allowed.
abbrev three_tries : OracleConfig
three_tries = record sample_config { dead_letter_max_attempts = 3 }

process_all_ends_example :
    final_row (
      row_now sample_deps three_tries fine all_fine sample_job (
        process_all sample_deps three_tries fine sample_job
          (late_round ∷ late_round ∷ round ∷ [])
          (ledger_of sample_deps three_tries fine all_fine sample_job worker empty_db)))
    ≡ true
process_all_ends_example =
    process_all_ends sample_deps three_tries fine all_fine sample_job
      (late_round ∷ late_round ∷ round ∷ []) worker empty_db (omega arith)

abbrev other_job : EvaluationJob
other_job = record sample_job { payment_uid = 1 ∷ 2 ∷ [] }

abbrev two_jobs : List (Round × EvaluationJob)
two_jobs = (late_round, sample_job) ∷ (round, other_job) ∷ (late_round, sample_job) ∷ []

process_each_refines_example :
    (t : Db) × ((process_each sample_deps impatient fine two_jobs
        (record worker { db = some empty_db })).db
      ≡ some t)
    × (board_of t
        ≡ run_board 1
            (reports sample_deps impatient fine all_fine two_jobs
              (record worker { db = some empty_db }))
            (board_of empty_db))
process_each_refines_example =
    process_each_refines sample_deps impatient fine all_fine two_jobs worker empty_db

-- A ledger that has a row of the job, and whose calls fail in turn.
abbrev stored_db : Db
stored_db = record { tables = record no_tables { jobs = done_row ∷ [] }; calls = 1 }

abbrev rough : ℕ → Fate
rough zero = works
rough (suc zero) = no_connection "down"
rough (suc (suc zero)) = too_late true
rough (suc (suc (suc n))) = rough n

process_each-KeepsRow_example :
    KeepsRow "0" sample_deps impatient rough two_jobs
      (record worker { db = some stored_db })
      stored_db
      (process_each sample_deps impatient rough two_jobs (record worker { db = some stored_db }))
process_each-KeepsRow_example =
    process_each-KeepsRow "0" sample_deps impatient rough two_jobs worker stored_db

-- The probe of the ledger for a finished job fails, and then the calls work again.
abbrev blinks : ℕ → Fate
blinks (suc zero) = no_connection "down"
blinks n = works

abbrev finished_db : Db
finished_db = record {
  tables = record no_tables { jobs = record done_row { payment_uid = "0" } ∷ [] };
  calls = 1;
}

abbrev status_in : Option Db → Option Status
status_in none = none
status_in (some s) = elim (find_row "0" s.tables.jobs) [ none ↦ none | some row ↦ some row.status ]

-- The row of the settled job is then that of a failed one.
reopened :
    status_in
      (process sample_deps sample_config blinks late_round sample_job
        (record worker { db = some finished_db })).db
    ≡ some failed
unfolding process admit start run_job give_up is_terminal attempt_count record_detected
    record_queued record_started record_failed execute ask upsert_job upsert_row fresh_row merge_row
    insert_event append_event find_row ◌>>=◌
reopened = refl

abbrev cut_first : List (Round × EvaluationJob)
cut_first = (late_round, sample_job) ∷ (round, sample_job) ∷ (round, other_job) ∷ []

nothing_new : (left : Shared) → some sample_shared ≡ some left → left.submitted ≡ []
nothing_new left e =
    let same : sample_shared ≡ left = cc in ap (λ (s : Shared). s.submitted) (sym same)

-- The run that is cut off had handed over nothing.
process_each_budget_example :
    count_for "0"
      (process_each sample_deps three_tries fine cut_first
        (record worker { db = some empty_db })).shared.submitted
    ≤ 3
unfolding find_row
process_each_budget_example =
    process_each_budget sample_deps three_tries fine all_fine cut_first worker empty_db "0"
      (λ left e. inl (nothing_new left e), (λ left e. cc, (λ left e. cc, tt)))
