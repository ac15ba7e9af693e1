-- ===== src/Tests/Requests.antt =====
-- The HTTP interface on the samples.
use oracle_qa.Prelude.{
  ℕ, ◌≤◌, ◌<◌, ◌≡◌, ◌↔◌, refl, true, [], ◌∷◌, none, some, ok, arith, length, bytes_eq,
  if◌then◌else◌,
}
use oracle_qa.Prelude.Text.{join, show, trim_end_slashes}
use oracle_qa.Samples.{sample_deps, sample_config, sample_env, sample_shared, sample_account}
use oracle_qa.State.{OracleConfig}
use oracle_qa.Settler.Chain.{
  read_payment, is_eligible, select_payment, payment_eligible, chain_unix_timestamp,
}
use oracle_qa.Settler.Confirm.{compute_resolution_hash, payload_of, settle, confirm_oracle}
use oracle_qa.Evaluator.Checks.{
  evaluate, all_checks, version_checks, profile_checks, status_check, latency_check, field_checks,
  schema_checks, length_checks, resolution_reason,
}
use oracle_qa.Fetch.Loop.{fetch_evidence, mirrors, attempts, handle_reply, pause, check_body}
use oracle_qa.Pipeline.Exec.{◌>>=◌}
use oracle_qa.Pipeline.Run.{run_pipeline, fetch, submit}
use oracle_qa.Ledger.Calls.{Fate, works}
use oracle_qa.Server.Access.{Headers, check_token, limit_rate, expire, authorize_manual_evaluate}
use oracle_qa.Server.Window.{HasAccess, recent, arrivals, authorize_iff, rate_limited}
use oracle_qa.Server.Manual.{Request, Situation, AppState, conclude, evaluate_job, manual_evaluate}
use oracle_qa.Server.Answers.{Settles, manual_evaluate-Settles}

abbrev open_config : OracleConfig
open_config = record sample_config {
  allow_unauthenticated_manual_evaluate = true;
  manual_evaluate_rate_limit = 2;
  manual_evaluate_rate_window_ms = 1;
}

abbrev headers : Headers
headers = record { authorization = some "Bearer secret "; x_oracle_token = none }

authorize_iff_example :
    ((authorize_manual_evaluate sample_deps open_config headers 2000000 (5 ∷ 1999999 ∷ [])).0
      ≡ ok tt)
    ↔ (HasAccess open_config sample_deps headers
        × (length (expire 1000000 2000000 (5 ∷ 1999999 ∷ [])) < 2))
authorize_iff_example = authorize_iff open_config sample_deps headers 2000000 (5 ∷ 1999999 ∷ [])

rate_limited_example :
    recent open_config 9 (arrivals open_config (1 ∷ 4 ∷ 4 ∷ 9 ∷ []) ([], [])).1 ≤ 2
rate_limited_example =
    rate_limited open_config (1 ∷ 4 ∷ 4 ∷ 9 ∷ []) 9
      (omega arith, (omega arith, (omega arith, (omega arith, omega arith))))

-- The third of three requests at one time is refused.
third_refused : (arrivals open_config (4 ∷ 4 ∷ 4 ∷ []) ([], [])).1 ≡ 4 ∷ 4 ∷ []
unfolding limit_rate expire
third_refused = refl

abbrev fine : ℕ → Fate
fine n = works

abbrev pub request : Request
request = record { headers = headers; payment_pubkey = "six"; arrival = 7 }

abbrev pub situation : Situation
situation = record {
  pubkey_error = "";
  account = λ pk. if bytes_eq pk (6 ∷ []) then ok (some sample_account) else ok none;
  env = sample_env;
  now = "now";
  cut = none;
}

abbrev app : AppState
app = record { db = none; shared = sample_shared; requests = [] }

answered : (manual_evaluate sample_deps open_config fine request situation app).0.error ≡ none
unfolding manual_evaluate authorize_manual_evaluate check_token limit_rate expire evaluate_job
    conclude read_payment select_payment run_pipeline ◌>>=◌ is_eligible payment_eligible
    chain_unix_timestamp fetch fetch_evidence mirrors attempts handle_reply pause check_body
    trim_end_slashes evaluate all_checks version_checks profile_checks status_check latency_check
    field_checks schema_checks length_checks join show resolution_reason compute_resolution_hash
    payload_of submit settle confirm_oracle
answered = refl

manual_evaluate-Settles_example :
    HasAccess open_config sample_deps headers
    × Settles sample_deps open_config fine request situation app
        (manual_evaluate sample_deps open_config fine request situation app)
manual_evaluate-Settles_example =
    manual_evaluate-Settles sample_deps open_config fine request situation app answered
