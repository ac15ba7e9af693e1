-- ===== src/Tests/Jobs.antt =====
-- The ledger and the worker on the samples.
use oracle_qa.Prelude.{ℕ, ◌≡◌, refl, true, false, [], ◌∷◌, none, some, ok}
use oracle_qa.Samples.{sample_deps, sample_config, sample_job, sample_env, sample_shared}
use oracle_qa.State.{OracleConfig}
use oracle_qa.Types.{default_health}
use oracle_qa.Ledger.Tables.{detected, settled, failed, JobRow, Tables, find_row}
use oracle_qa.Ledger.Calls.{Db, Fate, works, row_of, get_parameter, set_parameter, final_row}
use oracle_qa.Ledger.Working.{row_in, get_parameter-set_parameter}
use oracle_qa.Worker.Process.{Worker, Round, process, seen, count_of}
use oracle_qa.Worker.Attempts.{ledger_of, row_now, HasRow}
use oracle_qa.Worker.Dedupe.{process-HasRow}
use oracle_qa.Worker.Retries.{TriedAtMost, process_all_tries}
use oracle_qa.Worker.Memory.{without_ledger, process_memory_once, process_memory_kept, kept}

abbrev pub fine : ℕ → Fate
fine n = works

pub all_fine : (n : ℕ) → fine n ≡ works
all_fine n = refl

abbrev first_row : JobRow
first_row = row_of sample_deps fine sample_job detected none none none

abbrev pub done_row : JobRow
done_row = row_of sample_deps fine sample_job settled none (some "sig") (some "03")

abbrev pub no_tables : Tables
no_tables = record { jobs = []; verdicts = []; events = []; parameters = [] }

abbrev pub empty_db : Db
empty_db = record { tables = no_tables; calls = 0 }

abbrev pub worker : Worker
worker = record {
  db = none;
  processed = [];
  attempts = [];
  shared = sample_shared;
  health = default_health;
}

abbrev pub round : Round
round = record { waiting = 2; env = sample_env; now = "now"; cut = none }

-- A round whose run is cut off.
abbrev pub late_round : Round
late_round = record round { cut = some sample_shared }

get_parameter-set_parameter_example :
    (get_parameter sample_deps fine "a" (set_parameter sample_deps fine "a" "7" empty_db).1).0
    ≡ ok (some "7")
get_parameter-set_parameter_example =
    get_parameter-set_parameter sample_deps fine all_fine "a" "7" empty_db

is_new : row_in sample_deps fine all_fine sample_job empty_db ≡ none
unfolding find_row
is_new = refl

not_done : final_row (row_in sample_deps fine all_fine sample_job empty_db) ≡ false
unfolding find_row
not_done = refl

-- One failure is enough for a dead letter.
abbrev pub impatient : OracleConfig
impatient = record sample_config { dead_letter_max_attempts = 1 }

process-HasRow_example :
    HasRow sample_deps sample_config fine all_fine sample_job
      (row_now sample_deps sample_config fine all_fine sample_job (
        process sample_deps sample_config fine late_round sample_job
          (ledger_of sample_deps sample_config fine all_fine sample_job worker empty_db)))
      1
      failed
unfolding find_row
process-HasRow_example =
    process-HasRow sample_deps sample_config fine all_fine sample_job late_round worker empty_db
      not_done

process_all_tries_example :
    TriedAtMost sample_deps impatient fine sample_job 1
      (late_round ∷ late_round ∷ round ∷ [])
      (ledger_of sample_deps sample_config fine all_fine sample_job worker empty_db)
process_all_tries_example =
    process_all_tries sample_deps impatient fine all_fine sample_job
      (late_round ∷ late_round ∷ round ∷ []) worker empty_db is_new

process_memory_once_example :
    (process sample_deps impatient fine round sample_job (
      process sample_deps impatient fine late_round sample_job
        (without_ledger sample_deps impatient fine sample_job worker))).shared
    ≡ (process sample_deps impatient fine late_round sample_job
        (without_ledger sample_deps impatient fine sample_job worker)).shared
unfolding count_of
process_memory_once_example =
    process_memory_once sample_deps impatient fine sample_job late_round round worker refl refl

process_memory_kept_example :
    seen
      (7 ∷ [])
      (process sample_deps sample_config fine late_round sample_job
        (without_ledger sample_deps sample_config fine sample_job worker)).processed
    ≡ kept sample_deps sample_config fine sample_job 1 true
unfolding count_of
process_memory_kept_example =
    process_memory_kept sample_deps sample_config fine sample_job late_round worker refl
