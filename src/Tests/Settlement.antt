-- ===== src/Tests/Settlement.antt =====
-- Eligibility and a whole run on the samples.
use oracle_qa.Prelude.{pos, ◌≡◌, ◌≤ℤ◌, ◌↔◌, refl, true, Bytes, [], ◌∷◌, ◌++◌, some, ok}
use oracle_qa.Samples.{
  sample_deps, sample_config, sample_env, sample_shared, sample_job, sample_account,
}
use oracle_qa.Settler.Chain.{
  read_payment, is_eligible, select_payment, payment_eligible, chain_unix_timestamp, job_of,
  payment_in,
}
use oracle_qa.Settler.Confirm.{
  ConfirmOracle, compute_resolution_hash, payload_of, settle, confirm_oracle,
}
use oracle_qa.Prelude.Text.{join, show, trim_end_slashes}
use oracle_qa.Evaluator.Checks.{
  check, evaluate, all_checks, version_checks, profile_checks, status_check, latency_check,
  field_checks, schema_checks, length_checks, resolution_reason,
}
use oracle_qa.Fetch.Loop.{fetch_evidence, mirrors, attempts, handle_reply, pause, check_body}
use oracle_qa.Pipeline.Exec.{◌>>=◌}
use oracle_qa.Settler.Eligibility.{
  HoldsPending, read_payment_iff, is_eligible_iff, is_eligible-read_payment,
}
use oracle_qa.Pipeline.Run.{PipelineOutcome, run_pipeline, fetch, submit}
use oracle_qa.Pipeline.Soundness.{Submits, run_pipeline-Submits}
use oracle_qa.Pipeline.Report.{IsReal, run_pipeline-IsReal}

taken : read_payment sample_deps (ok (some sample_account)) (6 ∷ []) (9 ∷ []) ≡ ok (some sample_job)
unfolding read_payment select_payment
taken = refl

read_payment_iff_example :
    (read_payment sample_deps (ok (some sample_account)) (6 ∷ []) (9 ∷ []) ≡ ok (some sample_job))
    ↔ ((account : Bytes) × HoldsPending sample_deps (9 ∷ []) (ok (some sample_account)) account
        × (sample_job ≡ job_of sample_deps (6 ∷ []) (payment_in sample_deps account)))
read_payment_iff_example =
    read_payment_iff sample_deps (9 ∷ []) (ok (some sample_account)) (6 ∷ []) sample_job

is_eligible_iff_example :
    (is_eligible sample_deps (ok (some sample_account)) (ok (some [])) (pos 0) (9 ∷ []) ≡ ok true)
    ↔ ((account : Bytes) × HoldsPending sample_deps (9 ∷ []) (ok (some sample_account)) account
        × (chain_unix_timestamp sample_deps (ok (some [])) (pos 0)
            ≤ℤ (payment_in sample_deps account).expires_at))
is_eligible_iff_example =
    is_eligible_iff sample_deps (9 ∷ []) (ok (some sample_account)) (ok (some [])) (pos 0)

is_eligible-read_payment_example :
    (is_eligible sample_deps (ok (some sample_account)) (ok (some [])) (pos 0) (9 ∷ []) ≡ ok true)
    ↔ (chain_unix_timestamp sample_deps (ok (some [])) (pos 0) ≤ℤ pos 1900000000)
is_eligible-read_payment_example =
    is_eligible-read_payment sample_deps (9 ∷ []) (ok (some sample_account)) (ok (some [])) (pos 0)
      (6 ∷ []) sample_job taken

run_pipeline-Submits_example :
    Submits sample_deps sample_config sample_env sample_job sample_shared
      (run_pipeline sample_deps sample_config sample_env sample_job sample_shared)
run_pipeline-Submits_example =
    run_pipeline-Submits sample_deps sample_config sample_env sample_job sample_shared

abbrev sample_outcome : PipelineOutcome
sample_outcome = record {
  result = record {
    approved = true;
    resolution_reason = 0;
    checks =
        check "version" true "1"
        ∷ check "profile_id" true "x402/oracle-qa/api-quality/v1"
        ∷ check "status_code" true "Got 200 (expected 200-299)"
        ∷ check "latency" true "42ms (max 500ms)"
        ∷ check "required_field:result" true "present"
        ∷ check "json_schema" true "valid"
        ∷ check "body_length" true "6 bytes (min 3)"
        ∷ [];
  };
  signature = some "sig";
  resolution_hash = 3 ∷ [];
}

completes :
    (run_pipeline sample_deps sample_config sample_env sample_job sample_shared).0
    ≡ ok sample_outcome
unfolding run_pipeline ◌>>=◌ is_eligible payment_eligible chain_unix_timestamp fetch fetch_evidence
    mirrors attempts handle_reply pause check_body trim_end_slashes evaluate all_checks
    version_checks profile_checks status_check latency_check field_checks schema_checks
    length_checks join show resolution_reason compute_resolution_hash payload_of submit settle
    confirm_oracle
completes = refl

run_pipeline-IsReal_example :
    (tx : ConfirmOracle) × ((run_pipeline sample_deps sample_config sample_env sample_job
        sample_shared).1.submitted
      ≡ sample_shared.submitted ++ tx ∷ [])
    × IsReal sample_deps sample_config sample_env sample_job sample_outcome tx
run_pipeline-IsReal_example =
    run_pipeline-IsReal sample_deps sample_config sample_env sample_job sample_shared sample_outcome
      completes
