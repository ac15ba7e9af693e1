-- ===== src/Tests/Unit/Evaluator.antt =====
-- src/evaluator.rs, `mod tests`.
use oracle_qa.Prelude.{
  ◌≡◌, refl, Bool, true, false, ◌&&◌, not, String, [], ◌∷◌, none, some, Result, ok, err, pos, any,
  ◌==◌,
}
use oracle_qa.Prelude.Text.{str_eq, join, show}
use oracle_qa.Error.{OracleError}
use oracle_qa.Types.{
  SlaDocument, DeliveryEvidence, CheckResult, EvaluationResult, api_quality_v1_profile_id,
}
use oracle_qa.Samples.{sample_deps, Keys}
use oracle_qa.Evaluator.Checks.{
  evaluate, all_checks, version_checks, profile_checks, status_check, latency_check, field_checks,
  schema_checks, length_checks, resolution_reason,
}
use oracle_qa.Evaluator.Oracle.{oracle_of, evaluate_directly}

abbrev valid_sla : SlaDocument Keys
valid_sla = record {
  version = 1;
  profile_id = some api_quality_v1_profile_id;
  endpoint = "https://api.example.test/data";
  method = "GET";
  response_schema = none;
  required_fields = "result" ∷ [];
  max_latency_ms = 500;
  min_status_code = 200;
  max_status_code = 299;
  min_body_length = none;
}

abbrev valid_evidence : DeliveryEvidence Keys Keys
valid_evidence = record {
  status_code = 200;
  latency_ms = 42;
  response_body = "result" ∷ [];
  response_headers = none;
  timestamp = pos 1700000000;
}

-- `assert!(!result.approved)`, and a failed check of that name.
abbrev rejects_by : String → Result OracleError EvaluationResult → Bool
rejects_by name (err e) = false
rejects_by name (ok result) =
    not result.approved
    && any (λ (c : CheckResult). str_eq c.name name && not c.passed) result.checks

abbrev approves : Result OracleError EvaluationResult → Bool
approves (err e) = false
approves (ok result) = result.approved

abbrev same_bool : Bool → Bool → Bool
same_bool true b = b
same_bool false b = not b

abbrev agree : Result OracleError EvaluationResult → Result OracleError EvaluationResult → Bool
agree (ok a) (ok b) = same_bool a.approved b.approved && a.resolution_reason == b.resolution_reason
agree (ok a) (err e) = false
agree (err e) b = false

abbrev strict_profile_requires_profile_id : Bool
strict_profile_requires_profile_id =
    rejects_by "profile_id"
      (evaluate_directly sample_deps (record valid_sla { profile_id = none }) valid_evidence true)

abbrev strict_profile_requires_version_one : Bool
strict_profile_requires_version_one =
    rejects_by "version"
      (evaluate_directly sample_deps (record valid_sla { version = 2 }) valid_evidence true)

abbrev valid_evidence_approves : Bool
valid_evidence_approves = approves (evaluate_directly sample_deps valid_sla valid_evidence true)

abbrev via_trait : Result OracleError EvaluationResult
via_trait =
    let oracle = oracle_of sample_deps (record { strict_profile = true }) in
    oracle.judge valid_sla valid_evidence

abbrev trait_and_direct_call_match : Bool
trait_and_direct_call_match =
    agree via_trait (evaluate_directly sample_deps valid_sla valid_evidence true)

all_pass :
    (strict_profile_requires_profile_id && strict_profile_requires_version_one
      && valid_evidence_approves && trait_and_direct_call_match)
    ≡ true
unfolding evaluate all_checks version_checks profile_checks status_check latency_check field_checks
    schema_checks length_checks resolution_reason join show
all_pass = refl
