-- ===== src/Ledger/Tables.antt =====
-- migrations/init.sql and the SQL of src/db.rs: the tables, and what each statement makes of them. A
-- job's row is found by its `payment_uid`, which is unique, and a verdict by that of its job.
use oracle_qa.Prelude.{
  ℕ, ℤ, ◌+◌, Bool, true, false, String, List, [], ◌∷◌, ◌++◌, Option, none, some, if◌then◌else◌,
}
use oracle_qa.Prelude.Text.{str_eq}
use oracle_qa.Types.{CheckResult}

-- The texts that the service writes to the column `status`.
pub data Status : Type 0 where
  detected queued running failed dead_letter settled : Status

-- A row of `oracle_jobs`, without the columns that the service neither sets nor reads.
pub record JobRow : Type 0 where
  pub payment_uid : String
  pub payment_pubkey : String
  pub mint : String
  pub amount : ℕ  -- BIGINT
  pub sla_hash : String
  pub delivery_hash : String
  pub oracle_authority : String
  pub expires_at : ℤ
  pub status : Status
  pub attempts : ℕ  -- INTEGER
  pub started_at : Option ℕ
  pub completed_at : Option ℕ
  pub last_error : Option String
  pub settlement_signature : Option String
  pub resolution_hash : Option String
  pub updated_at : ℕ

pub record VerdictRow : Type 0 where
  pub payment_uid : String
  pub approved : Bool
  pub resolution_reason : ℕ
  pub resolution_hash : String
  pub checks : List CheckResult
  pub settlement_signature : Option String

-- The JSON of an event: empty, an error, or a settlement.
pub data Payload : Type 0 where
  no_payload : Payload
  error_payload : String → Payload
  settled_payload : Bool → ℕ → String → Option String → Payload

pub record EventRow : Type 0 where
  pub payment_uid : String
  pub event : String
  pub payload : Payload

pub record ParameterRow : Type 0 where
  pub param_name : String
  pub param_value : String
  pub inactive : Bool

pub record Tables : Type 0 where
  pub jobs : List JobRow
  pub verdicts : List VerdictRow
  pub events : List EventRow
  pub parameters : List ParameterRow

abbrev pub is_running : Status → Bool
is_running running = true
is_running detected = false
is_running queued = false
is_running failed = false
is_running dead_letter = false
is_running settled = false

-- `IN ('settled', 'failed', 'dead_letter')`.
abbrev pub is_complete : Status → Bool
is_complete settled = true
is_complete failed = true
is_complete dead_letter = true
is_complete detected = false
is_complete queued = false
is_complete running = false

-- `IN ('settled', 'dead_letter')`.
abbrev pub is_final : Status → Bool
is_final settled = true
is_final dead_letter = true
is_final failed = false
is_final detected = false
is_final queued = false
is_final running = false

abbrev pub coalesce {ℓ} : {A : Type ℓ} → Option A → Option A → Option A
coalesce (some a) b = some a
coalesce none b = b

-- `CASE WHEN test THEN NOW() ELSE other END`.
abbrev pub now_if : Bool → ℕ → Option ℕ → Option ℕ
now_if true now other = some now
now_if false now other = other

abbrev pub one_if : Bool → ℕ
one_if true = 1
one_if false = 0

-- The row of a new job: `NULL` but for what the status sets.
unfoldable pub fresh_row : ℕ → JobRow → JobRow
fresh_row now row = record row {
  attempts = one_if (is_running row.status);
  started_at = now_if (is_running row.status) now none;
  completed_at = now_if (is_complete row.status) now none;
  updated_at = now;
}

-- `ON CONFLICT (payment_uid) DO UPDATE`: `row` is `EXCLUDED`.
unfoldable pub merge_row : ℕ → JobRow → JobRow → JobRow
merge_row now row old = record row {
  attempts = old.attempts + one_if (is_running row.status);
  started_at = now_if (is_running row.status) now old.started_at;
  completed_at = now_if (is_complete row.status) now old.completed_at;
  last_error = coalesce row.last_error old.last_error;
  settlement_signature = coalesce row.settlement_signature old.settlement_signature;
  resolution_hash = coalesce row.resolution_hash old.resolution_hash;
  updated_at = now;
}

unfoldable pub upsert_row : ℕ → JobRow → List JobRow → List JobRow
upsert_row now row [] = fresh_row now row ∷ []
upsert_row now row (old ∷ rows) =
    let rest = upsert_row now row rows in
    if str_eq old.payment_uid row.payment_uid then merge_row now row old ∷ rows else old ∷ rest

unfoldable pub find_row : String → List JobRow → Option JobRow
find_row uid [] = none
find_row uid (row ∷ rows) =
    let rest = find_row uid rows in if str_eq row.payment_uid uid then some row else rest

-- A verdict replaces that of the same job; the signature is kept where the new one is `NULL`.
unfoldable pub put_verdict : VerdictRow → List VerdictRow → List VerdictRow
put_verdict v [] = v ∷ []
put_verdict v (old ∷ rows) =
    let rest = put_verdict v rows in
    if str_eq old.payment_uid v.payment_uid
    then record v {
      settlement_signature = coalesce v.settlement_signature old.settlement_signature;
    }
      ∷ rows
    else old ∷ rest

-- `INSERT .. SELECT .. FROM oracle_jobs WHERE payment_uid = $1`: nothing without the job's row.
abbrev pub where_job {ℓ} : {A : Type ℓ} → Option JobRow → A → A → A
where_job none there old = old
where_job (some row) there old = there

unfoldable pub insert_verdict : VerdictRow → Tables → Tables
insert_verdict v t = record t {
  verdicts = where_job (find_row v.payment_uid t.jobs) (put_verdict v t.verdicts) t.verdicts;
}

unfoldable pub append_event : EventRow → Tables → Tables
append_event e t = record t {
  events = where_job (find_row e.payment_uid t.jobs) (t.events ++ e ∷ []) t.events;
}

unfoldable pub put_parameter : String → String → List ParameterRow → List ParameterRow
put_parameter name value [] =
    record { param_name = name; param_value = value; inactive = false } ∷ []
put_parameter name value (old ∷ rows) =
    let rest = put_parameter name value rows in
    if str_eq old.param_name name
    then record { param_name = name; param_value = value; inactive = false } ∷ rows
    else old ∷ rest

-- The value of the first active row of that name.
unfoldable pub find_parameter : String → List ParameterRow → Option String
find_parameter name [] = none
find_parameter name (row ∷ rows) =
    let rest = find_parameter name rows in
    if str_eq row.param_name name
    then (if row.inactive then rest else some row.param_value)
    else rest
