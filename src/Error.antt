-- ===== src/Error.antt =====
-- src/error.rs: the errors of the service, each with its text.
use oracle_qa.Prelude.{String}
use oracle_qa.Prelude.Text.{◌⊹◌}

pub data OracleError : Type 0 where
  chain evidence_not_found sla_parse delivery_parse evaluation settlement database :
      String → OracleError

-- `Display`.
unfoldable pub error_text : OracleError → String
error_text (chain e) = "Chain error: " ⊹ e
error_text (evidence_not_found e) = "Evidence not found for hash: " ⊹ e
error_text (sla_parse e) = "SLA document parse error: " ⊹ e
error_text (delivery_parse e) = "Delivery evidence parse error: " ⊹ e
error_text (evaluation e) = "Evaluation failed: " ⊹ e
error_text (settlement e) = "Settlement failed: " ⊹ e
error_text (database e) = "Database failed: " ⊹ e
