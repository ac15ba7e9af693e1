-- ===== src/Tests/Unit/Settler.antt =====
-- src/settler.rs, `mod tests`.
use oracle_qa.Prelude.{
  ◌≡◌, refl, Bool, true, false, ◌&&◌, not, Bytes, [], ◌∷◌, none, some, Result, ok, err, pos,
  bytes_eq, if◌then◌else◌,
}
use oracle_qa.Prelude.Text.{as_bytes}
use oracle_qa.Error.{OracleError}
use oracle_qa.Types.{
  SlaDocument, EvaluationJob, EvaluationResult, ResolutionPayload, api_quality_v1_profile_id,
}
use oracle_qa.External.{Deps}
use oracle_qa.Samples.{sample_deps, Keys, repeat}
use oracle_qa.Settler.Confirm.{compute_resolution_hash, payload_of}

-- An encoder that keeps the verdict and the payment's uid.
abbrev encode : ResolutionPayload → Bytes
encode p = (if p.approved then 1 else 0) ∷ as_bytes p.payment_uid

abbrev deps : Deps
deps = record sample_deps {
  json = record sample_deps.json { resolution_to_vec = λ p. ok (encode p) };
}

abbrev job : EvaluationJob
job = record {
  payment_uid = repeat 1 32;
  payment_pubkey = 6 ∷ [];
  sla_hash = repeat 2 32;
  delivery_hash = repeat 3 32;
  amount = 100;
  mint = 5 ∷ [];
  oracle_authority = 9 ∷ [];
  expires_at = pos 1900000000;
}

abbrev sla : SlaDocument Keys
sla = record {
  version = 1;
  profile_id = some api_quality_v1_profile_id;
  endpoint = "https://api.example.test";
  method = "GET";
  response_schema = none;
  required_fields = [];
  max_latency_ms = 5000;
  min_status_code = 200;
  max_status_code = 299;
  min_body_length = none;
}

abbrev result : Bool → EvaluationResult
result approved = record {
  approved = approved;
  resolution_reason = if approved then 0 else 1;
  checks = record { name = "status_code"; passed = approved; detail = "test" } ∷ [];
}

abbrev same_hash : Result OracleError Bytes → Result OracleError Bytes → Bool
same_hash (ok a) (ok b) = bytes_eq a b
same_hash (ok a) (err e) = false
same_hash (err e) b = false

abbrev hash_of : Bool → Result OracleError Bytes
hash_of approved = compute_resolution_hash deps job sla (result approved)

abbrev resolution_hash_is_deterministic_and_outcome_bound : Bool
resolution_hash_is_deterministic_and_outcome_bound =
    same_hash (hash_of true) (hash_of true)
    && not (same_hash (hash_of true) (ok (repeat 0 32)))
    && not (same_hash (hash_of true) (hash_of false))

all_pass : resolution_hash_is_deterministic_and_outcome_bound ≡ true
unfolding compute_resolution_hash payload_of as_bytes
all_pass = refl
