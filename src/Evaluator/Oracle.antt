-- ===== src/Evaluator/Oracle.antt =====
-- src/evaluator.rs, the trait `QualityOracle` and the struct `Evaluator` that implements it.
use oracle_qa.Prelude.{Bool, String, Result}
use oracle_qa.Error.{OracleError}
use oracle_qa.Types.{SlaDocument, DeliveryEvidence, EvaluationResult, api_quality_v1_profile_id}
use oracle_qa.External.{Deps}
use oracle_qa.Evaluator.Checks.{evaluate}

module _ (x : Deps) where
  open x use {Value, Object}

  -- What a run of the pipeline asks of an oracle.
  pub record QualityOracle : Type 0 where
    pub profile_id : String
    pub judge :
        SlaDocument Value → DeliveryEvidence Value Object → Result OracleError EvaluationResult

-- `Evaluator`, with `new` as its constructor.
pub record Evaluator : Type 0 where
  pub strict_profile : Bool

module _ (x : Deps) where
  open x use {Value, Object}

  -- `impl QualityOracle for Evaluator`.
  abbrev pub oracle_of : Evaluator → QualityOracle x
  oracle_of evaluator = record {
    profile_id = api_quality_v1_profile_id;
    judge = evaluate x evaluator.strict_profile;
  }

  -- `Evaluator::evaluate`.
  abbrev pub evaluate_directly :
      SlaDocument Value → DeliveryEvidence Value Object → Bool → Result OracleError EvaluationResult
  evaluate_directly sla evidence strict_profile = evaluate x strict_profile sla evidence
