-- ===== src/Evaluator/Checks.antt =====
-- src/evaluator.rs, `evaluate_impl`: the list of checks, in the order in which the code pushes them.
use oracle_qa.Prelude.{
  ℕ, Bool, false, ◌&&◌, ◌||◌, not, String, List, [], ◌∷◌, ◌++◌, Option, none, some, Result, ok, err,
  leb, ◌==◌, if◌then◌else◌, is_empty, all, find, take,
}
use oracle_qa.Prelude.Text.{◌⊹◌, str_eq, starts_with, show, join, len}
use oracle_qa.Error.{OracleError}
use oracle_qa.Types.{
  SlaDocument, DeliveryEvidence, CheckResult, EvaluationResult, api_quality_v1_profile_id,
}
use oracle_qa.External.{Deps}

abbrev pub check : String → Bool → String → CheckResult
check name passed detail = record { name = name; passed = passed; detail = detail }

module _ (x : Deps) where
  open x use {
    Value, Object, as_object, contains_key, to_string, validator_for, is_valid, iter_errors,
    no_reason, general_rejection, status_code_out_of_range, latency_exceeded,
    required_fields_missing, schema_validation_failed, body_too_short,
  }

  unfoldable pub version_checks : Bool → SlaDocument Value → List CheckResult
  version_checks strict sla =
      let version_ok = sla.version == 1 in
      if strict || not version_ok
      then check "version" version_ok
          (if version_ok then "1" else "expected 1, got " ⊹ show sla.version)
        ∷ []
      else []

  unfoldable pub profile_checks : Bool → Option String → List CheckResult
  profile_checks strict (some pid) =
      let same = str_eq pid api_quality_v1_profile_id in
      check "profile_id" same (
        if same
        then api_quality_v1_profile_id
        else "expected '" ⊹ api_quality_v1_profile_id ⊹ "', got '" ⊹ pid ⊹ "'")
      ∷ []
  profile_checks strict none =
      if strict
      then check "profile_id" false ("missing; expected '" ⊹ api_quality_v1_profile_id ⊹ "'") ∷ []
      else []

  abbrev pub status_ok : SlaDocument Value → DeliveryEvidence Value Object → Bool
  status_ok sla evidence =
      leb sla.min_status_code evidence.status_code && leb evidence.status_code sla.max_status_code

  unfoldable pub status_check : SlaDocument Value → DeliveryEvidence Value Object → CheckResult
  status_check sla evidence = check "status_code" (status_ok sla evidence) (
      "Got "
      ⊹ show evidence.status_code
      ⊹ " (expected "
      ⊹ show sla.min_status_code
      ⊹ "-"
      ⊹ show sla.max_status_code
      ⊹ ")")

  unfoldable pub latency_check : SlaDocument Value → DeliveryEvidence Value Object → CheckResult
  latency_check sla evidence =
      check "latency" (leb evidence.latency_ms sla.max_latency_ms)
        (show evidence.latency_ms ⊹ "ms (max " ⊹ show sla.max_latency_ms ⊹ "ms)")

  -- `body_obj.map(|obj| obj.contains_key(field)).unwrap_or(false)`.
  abbrev pub has_field : Option Object → String → Bool
  has_field none field = false
  has_field (some obj) field = contains_key obj field

  unfoldable pub field_checks : Option Object → List String → List CheckResult
  field_checks body [] = []
  field_checks body (field ∷ fields) =
      check ("required_field:" ⊹ field) (has_field body field)
        (if has_field body field then "present" else "missing")
      ∷ field_checks body fields

  unfoldable pub schema_errors : x.Validator → Value → String
  schema_errors validator body = "invalid: " ⊹ join "; " (take 3 (iter_errors validator body))

  abbrev pub schema_outcome : Result String x.Validator → Value → CheckResult
  schema_outcome (ok validator) body =
      check "json_schema" (is_valid validator body)
        (if is_valid validator body then "valid" else schema_errors validator body)
  schema_outcome (err e) body = check "json_schema" false ("schema compile error: " ⊹ e)

  unfoldable pub schema_checks : Option Value → Value → List CheckResult
  schema_checks none body = []
  schema_checks (some schema) body = schema_outcome (validator_for schema) body ∷ []

  -- `serde_json::to_string(..).unwrap_or_default()`.
  abbrev or_default : Result String String → String
  or_default (ok s) = s
  or_default (err e) = ""

  -- `String::len`: UTF-8 bytes.
  abbrev pub body_length : Value → ℕ
  body_length body = len (or_default (to_string body))

  unfoldable pub length_checks : Option ℕ → Value → List CheckResult
  length_checks none body = []
  length_checks (some min_len) body =
      check "body_length" (leb min_len (body_length body))
        (show (body_length body) ⊹ " bytes (min " ⊹ show min_len ⊹ ")")
      ∷ []

  unfoldable pub all_checks :
      Bool → SlaDocument Value → DeliveryEvidence Value Object → List CheckResult
  all_checks strict sla evidence =
      version_checks strict sla
      ++ profile_checks strict sla.profile_id
      ++ status_check sla evidence
        ∷ latency_check sla evidence
        ∷ (if is_empty sla.required_fields
            then []
            else field_checks (as_object evidence.response_body) sla.required_fields)
      ++ schema_checks sla.response_schema evidence.response_body
      ++ length_checks sla.min_body_length evidence.response_body

  -- The `match` on the name of the first failed check.
  unfoldable pub reason_of_name : String → ℕ
  reason_of_name name =
      if str_eq name "profile_id"
      then general_rejection
      else if str_eq name "version"
      then general_rejection
      else if str_eq name "status_code"
      then status_code_out_of_range
      else if str_eq name "latency"
      then latency_exceeded
      else if str_eq name "json_schema"
      then schema_validation_failed
      else if str_eq name "body_length"
      then body_too_short
      else if starts_with name "required_field:"
      then required_fields_missing
      else general_rejection

  abbrev reason_of_failure : Option CheckResult → ℕ
  reason_of_failure none = general_rejection
  reason_of_failure (some c) = reason_of_name c.name

  unfoldable pub resolution_reason : List CheckResult → ℕ
  unfolding reason_of_name
  resolution_reason checks =
      if all (λ c. c.passed) checks
      then no_reason
      else reason_of_failure (find (λ c. not c.passed) checks)

  unfoldable pub evaluate :
      Bool → SlaDocument Value → DeliveryEvidence Value Object → Result OracleError EvaluationResult
  evaluate strict sla evidence =
      let checks = all_checks strict sla evidence in
      ok (record {
        approved = all (λ c. c.passed) checks;
        resolution_reason = resolution_reason checks;
        checks = checks;
      })
