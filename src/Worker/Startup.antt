-- ===== src/Worker/Startup.antt =====
-- src/main.rs and src/db.rs, `main` and `OracleDb::from_url`: what the service starts with.
use oracle_qa.Prelude.{
  ℕ, String, [], ◌||◌, ◌==◌, ltb, if◌then◌else◌, Option, none, some, Result, ok, err, ◌>>=◌, ◌>>◌,
}
use oracle_qa.Types.{default_health}
use oracle_qa.State.{OracleConfig, default_stats}
use oracle_qa.External.{Deps}
use oracle_qa.Config.Parse.{Env, trimmed}
use oracle_qa.Config.FromEnv.{Setup, Failure, panicked, refused, from_env}
use oracle_qa.Ledger.Calls.{Db, DbError}
use oracle_qa.Worker.Process.{Worker}

-- `OracleDb::connect` is the pool's: an address gives a ledger or an error.
abbrev pub Connect : Type 0
Connect = String → Result DbError Db

-- Nothing for an address that is not set or blank.
unfoldable pub from_url : Connect → Option String → Option (Result DbError Db)
from_url connect database_url = elim (trimmed database_url) [
  | none ↦ none
  | some url ↦ some (connect url)
]

-- A ledger that cannot be opened is left out, with a warning.
abbrev pub ledger_or_none : Option (Result DbError Db) → Option Db
ledger_or_none none = none
ledger_or_none (some (ok db)) = some db
ledger_or_none (some (err e)) = none

-- The worker before its first job.
abbrev pub first_worker : Option Db → Worker
first_worker db = record {
  db = db;
  processed = [];
  attempts = [];
  shared = record { stats = default_stats; requests = 0; submitted = [] };
  health = default_health;
}

-- `mpsc::channel`, which panics on a capacity of 0 and on one above `usize::MAX >> 3`.
unfoldable pub open_channel : ℕ → Result Failure (Unit {0})
open_channel capacity =
    if capacity == 0 || ltb 2305843009213693951 capacity
    then err (panicked "mpsc bounded channel")
    else ok tt

-- `reqwest::Client::builder()..build()?`: what the builder answers, with its error's text.
abbrev pub built : Result String (Unit {0}) → Result Failure (Unit {0})
built (ok client) = ok tt
built (err e) = err (refused e)

module _ (x : Deps) (setup : Setup) (connect : Connect) (client : Result String (Unit {0})) where
  unfoldable pub start_up : Env → Result Failure (OracleConfig × Worker)
  start_up env = do
    config ← from_env x setup env
    built client
    open_channel config.job_channel_capacity
    ok (config, first_worker (ledger_or_none (from_url connect config.database_url)))
