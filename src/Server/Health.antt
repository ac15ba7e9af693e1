-- ===== src/Server/Health.antt =====
-- src/server.rs, `health`, `registry_probe` and `stats`: what the service tells of itself.
use oracle_qa.Prelude.{
  ℕ, Bool, true, false, ◌&&◌, ◌||◌, String, [], ◌∷◌, Option, none, some, Result, ok, err,
  if◌then◌else◌,
}
use oracle_qa.Prelude.Text.{trim_end_slashes}
use oracle_qa.Types.{RuntimeHealth}
use oracle_qa.State.{OracleConfig, OracleStats}
use oracle_qa.External.{Deps}

-- The replies to the three probes: the slot, the balance, and a `HEAD` request's status by its URL.
pub record Probes : Type 0 where
  pub slot : Result String ℕ
  pub balance : Result String ℕ
  pub head : String → Result String ℕ

-- The answer's status, and the fields of its JSON that the service computes.
pub record HealthReport : Type 0 where
  pub code : ℕ
  pub status : String
  pub chain_connected : Bool
  pub runtime : RuntimeHealth
  pub registry_reachable : Bool
  pub oracle_balance_lamports : Option ℕ
  pub database_enabled : Bool
  pub strict_profile : Bool

abbrev pub is_ok : {A : Type 0} → Result String A → Bool
is_ok (ok a) = true
is_ok (err e) = false

abbrev pub to_option : {A : Type 0} → Result String A → Option A
to_option (ok a) = some a
to_option (err e) = none

module _ (x : Deps) (config : OracleConfig) where
  abbrev reachable : Result String ℕ → Bool
  reachable (ok code) = x.is_success code || x.is_client_error code
  reachable (err e) = false

  unfoldable pub registry_probe : (String → Result String ℕ) → Bool
  registry_probe head = elim config.evidence_registry_urls [
    | [] ↦ false
    | base ∷ bases ↦ reachable (head (trim_end_slashes base))
  ]

  unfoldable pub health : Probes → Bool → RuntimeHealth → HealthReport
  health probes database runtime = record {
    code = if is_ok probes.slot && runtime.websocket_connected then 200 else 503;
    status = if is_ok probes.slot then "healthy" else "degraded";
    chain_connected = is_ok probes.slot;
    runtime = runtime;
    registry_reachable = registry_probe probes.head;
    oracle_balance_lamports = to_option probes.balance;
    database_enabled = database;
    strict_profile = config.strict_profile;
  }

-- The counters, with the uptime of this moment.
unfoldable pub stats : ℕ → OracleStats → OracleStats
stats elapsed s = record s { uptime_seconds = elapsed }
