-- ===== src/Ledger/Calls.antt =====
-- src/db.rs, `OracleDb`: its methods, each a call that may fail, before it changes a table or after.
use oracle_qa.Prelude.{
  ℕ, ◌+◌, Bool, true, false, String, Bytes, Option, none, some, Result, ok, err, leb, if◌then◌else◌,
}
use oracle_qa.Prelude.Text.{◌⊹◌}
use oracle_qa.Types.{EvaluationJob, EvaluationResult}
use oracle_qa.External.{Deps}
use oracle_qa.Ledger.Tables.{
  Status, detected, queued, running, failed, dead_letter, settled, JobRow, VerdictRow, Payload,
  no_payload, error_payload, settled_payload, Tables, is_final, upsert_row, find_row,
  insert_verdict, append_event, put_parameter, find_parameter,
}

pub data DbError : Type 0 where
  pool query : String → DbError
  timeout : DbError

abbrev pub db_error_text : DbError → String
db_error_text (pool e) = "db pool: " ⊹ e
db_error_text (query e) = "db query: " ⊹ e
db_error_text timeout = "db query timed out"

-- What becomes of a call: it works, no connection is given, the statement fails, or the time runs out,
-- with the statement done or not.
pub data Fate : Type 0 where
  works : Fate
  no_connection refused : String → Fate
  too_late : Bool → Fate

-- The database: its tables, and the calls so far, which also tell the time.
pub record Db : Type 0 where
  pub tables : Tables
  pub calls : ℕ

abbrev pub Call : Type 0 → Type 0
Call A = Db → Result DbError A × Db

module _ {A B : Type 0} where
  abbrev pub continue : Result DbError A → (A → Call B) → Call B
  continue (ok a) f s = f a s
  continue (err e) f s = (err e, s)

  infixl 5 ◌>>=◌ ◌>>◌
  unfoldable pub ◌>>=◌ : Call A → (A → Call B) → Call B
  ◌>>=◌ m f s = let (r, t) = m s in continue r f t

  abbrev pub ◌>>◌ : Call A → Call B → Call B
  m >> n = m >>= λ _. n

abbrev pub final_row : Option JobRow → Bool
final_row none = false
final_row (some row) = is_final row.status

abbrev pub row_attempts : Option JobRow → ℕ
row_attempts none = 0
row_attempts (some row) = row.attempts

module _ (x : Deps) (fates : ℕ → Fate) where
  open x use {hex, pubkey_text}

  abbrev pub done : Db → Tables → Db
  done s t = record { tables = t; calls = s.calls + 1 }

  abbrev pub outcome : {A : Type 0} → Fate → A → Db → Tables → Result DbError A × Db
  outcome works a s t = (ok a, done s t)
  outcome (no_connection e) a s t = (err (pool e), done s s.tables)
  outcome (refused e) a s t = (err (query e), done s s.tables)
  outcome (too_late true) a s t = (err timeout, done s t)
  outcome (too_late false) a s t = (err timeout, done s s.tables)

  -- A statement with its effect, and a query with its answer.
  unfoldable pub execute : (ℕ → Tables → Tables) → Call (Unit {0})
  execute effect s = outcome (fates s.calls) tt s (effect s.calls s.tables)

  unfoldable pub ask : {A : Type 0} → (Tables → A) → Call A
  ask answer s = outcome (fates s.calls) (answer s.tables) s s.tables

  -- `i64::try_from(job.amount).unwrap_or(i64::MAX)`.
  abbrev pub clamp_amount : ℕ → ℕ
  clamp_amount amount = if leb amount 9223372036854775807 then amount else 9223372036854775807

  abbrev pub row_of :
      EvaluationJob → Status → Option String → Option String → Option String → JobRow
  row_of job status last_error signature resolution_hash = record {
    payment_uid = hex job.payment_uid;
    payment_pubkey = pubkey_text job.payment_pubkey;
    mint = pubkey_text job.mint;
    amount = clamp_amount job.amount;
    sla_hash = hex job.sla_hash;
    delivery_hash = hex job.delivery_hash;
    oracle_authority = pubkey_text job.oracle_authority;
    expires_at = job.expires_at;
    status = status;
    attempts = 0;
    started_at = none;
    completed_at = none;
    last_error = last_error;
    settlement_signature = signature;
    resolution_hash = resolution_hash;
    updated_at = 0;
  }

  unfoldable pub upsert_job :
      EvaluationJob → Status → Option String → Option String → Option String → Call (Unit {0})
  upsert_job job status last_error signature resolution_hash = execute (λ now t. record t {
    jobs = upsert_row now (row_of job status last_error signature resolution_hash) t.jobs;
  })

  unfoldable pub insert_event : EvaluationJob → String → Payload → Call (Unit {0})
  insert_event job event payload = execute (λ now.
      append_event (record { payment_uid = hex job.payment_uid; event = event; payload = payload }))

  unfoldable pub record_detected : EvaluationJob → Call (Unit {0})
  record_detected job = do
    upsert_job job detected none none none
    insert_event job "detected" no_payload

  unfoldable pub record_queued : EvaluationJob → Call (Unit {0})
  record_queued job = do upsert_job job queued none none none; insert_event job "queued" no_payload

  unfoldable pub record_started : EvaluationJob → Call (Unit {0})
  record_started job = do
    upsert_job job running none none none
    insert_event job "started" no_payload

  unfoldable pub record_failed : EvaluationJob → String → Call (Unit {0})
  record_failed job error_msg = do
    upsert_job job failed (some error_msg) none none
    insert_event job "failed" (error_payload error_msg)

  unfoldable pub record_dead_letter : EvaluationJob → String → Call (Unit {0})
  record_dead_letter job error_msg = do
    upsert_job job dead_letter (some error_msg) none none
    insert_event job "dead_letter" (error_payload error_msg)

  unfoldable pub is_terminal : Bytes → Call Bool
  is_terminal payment_uid = ask (λ t. final_row (find_row (hex payment_uid) t.jobs))

  unfoldable pub attempt_count : Bytes → Call ℕ
  attempt_count payment_uid = ask (λ t. row_attempts (find_row (hex payment_uid) t.jobs))

  unfoldable pub get_parameter : String → Call (Option String)
  get_parameter name = ask (λ t. find_parameter name t.parameters)

  unfoldable pub set_parameter : String → String → Call (Unit {0})
  set_parameter name value =
      execute (λ now t. record t { parameters = put_parameter name value t.parameters })

  abbrev pub verdict_of : EvaluationJob → EvaluationResult → Option String → Bytes → VerdictRow
  verdict_of job result signature resolution_hash = record {
    payment_uid = hex job.payment_uid;
    approved = result.approved;
    resolution_reason = result.resolution_reason;
    resolution_hash = hex resolution_hash;
    checks = result.checks;
    settlement_signature = signature;
  }

  unfoldable pub record_settled :
      EvaluationJob → EvaluationResult → Option String → Bytes → Call (Unit {0})
  record_settled job result signature resolution_hash = do
    upsert_job job settled none signature (some (hex resolution_hash))
    execute (λ now. insert_verdict (verdict_of job result signature resolution_hash))
    insert_event job "settled"
        (settled_payload result.approved result.resolution_reason (hex resolution_hash) signature)
