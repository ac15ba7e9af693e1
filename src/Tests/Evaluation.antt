-- ===== src/Tests/Evaluation.antt =====
-- The evaluator on the samples: src/evaluator.rs, its tests among them.
use oracle_qa.Prelude.{◌≡◌, refl, ◌↔◌, true, false, none, ok}
use oracle_qa.Prelude.Text.{join}
use oracle_qa.Types.{EvaluationResult, SlaDocument}
use oracle_qa.Samples.{Keys, sample_deps, sample_sla, sample_evidence, late_evidence}
use oracle_qa.Evaluator.Checks.{
  evaluate, all_checks, version_checks, profile_checks, status_check, latency_check, field_checks,
  schema_checks, length_checks,
}
use oracle_qa.Evaluator.Verdict.{Complies, approved_iff_Complies, passes}
use oracle_qa.Evaluator.Reason.{expected_reason, evaluate-expected_reason}

approves : passes (all_checks sample_deps true sample_sla sample_evidence) ≡ true
unfolding all_checks version_checks profile_checks status_check latency_check field_checks
    schema_checks length_checks join
approves = refl

abbrev no_profile : SlaDocument Keys
no_profile = record sample_sla { profile_id = none }

strict_wants_profile : passes (all_checks sample_deps true no_profile sample_evidence) ≡ false
unfolding all_checks version_checks profile_checks status_check latency_check field_checks
    schema_checks length_checks join
strict_wants_profile = refl

late_reason : expected_reason sample_deps true sample_sla late_evidence ≡ 3
unfolding expected_reason
late_reason = refl

approved_iff_Complies_example :
    (r : EvaluationResult) × (evaluate sample_deps true sample_sla sample_evidence ≡ ok r)
    × ((r.approved ≡ true) ↔ Complies sample_deps true sample_sla sample_evidence)
approved_iff_Complies_example = approved_iff_Complies sample_deps true sample_sla sample_evidence

evaluate-expected_reason_example :
    (r : EvaluationResult) × (evaluate sample_deps true sample_sla late_evidence ≡ ok r)
    × (r.resolution_reason ≡ expected_reason sample_deps true sample_sla late_evidence)
evaluate-expected_reason_example =
    evaluate-expected_reason sample_deps true sample_sla late_evidence
