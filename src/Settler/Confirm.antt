-- ===== src/Settler/Confirm.antt =====
-- src/settler.rs, `compute_resolution_hash` and `settle`.
use oracle_qa.Prelude.{ℕ, Bool, String, Bytes, List, [], ◌∷◌, Result, ok, err, if◌then◌else◌}
use oracle_qa.Prelude.Text.{◌⊹◌}
use oracle_qa.Error.{OracleError, settlement}
use oracle_qa.Types.{SlaDocument, EvaluationResult, EvaluationJob, ResolutionPayload}
use oracle_qa.State.{OracleConfig}
use oracle_qa.External.{Deps}

-- The arguments of `EscrowSdk::confirm_oracle`: the instruction that a settlement transaction holds.
pub record ConfirmOracle : Type 0 where
  pub oracle : Bytes
  pub mint : Bytes
  pub payment_uid_hex : String
  pub delivery_hash : Bytes
  pub resolution_hash : Bytes
  pub resolution_state : ℕ  -- u8
  pub resolution_reason : ℕ  -- u16

-- What a settlement returns, and the transactions that it has handed to the chain.
pub record Settled : Type 0 where
  pub result : Result OracleError String
  pub submitted : List ConfirmOracle

module _ (x : Deps) where
  open x use {Value, resolution_to_vec, digest, hex, pubkey_text}

  unfoldable pub payload_of :
      EvaluationJob → SlaDocument Value → EvaluationResult → ResolutionPayload
  payload_of job sla result = record {
    profile = "x402/oracle-qa/resolution/v1";
    payment_uid = hex job.payment_uid;
    payment_pubkey = pubkey_text job.payment_pubkey;
    sla_hash = hex job.sla_hash;
    delivery_hash = hex job.delivery_hash;
    sla_version = sla.version;
    sla_profile_id = sla.profile_id;
    approved = result.approved;
    resolution_reason = result.resolution_reason;
    checks = result.checks;
  }

  unfoldable pub compute_resolution_hash :
      EvaluationJob → SlaDocument Value → EvaluationResult → Result OracleError Bytes
  compute_resolution_hash job sla result = elim (resolution_to_vec (payload_of job sla result)) [
    | ok bytes ↦ ok (digest bytes)
    | err e ↦ err (settlement ("resolution hash encode: " ⊹ e))
  ]

  unfoldable pub confirm_oracle : OracleConfig → EvaluationJob → Bool → ℕ → Bytes → ConfirmOracle
  confirm_oracle config job approved reason hash = record {
    oracle = config.oracle_pubkey;
    mint = job.mint;
    payment_uid_hex = hex job.payment_uid;
    delivery_hash = job.delivery_hash;
    resolution_hash = hash;
    resolution_state = if approved then 1 else 2;
    resolution_reason = reason;
  }

  -- The replies are those to `get_latest_blockhash` and `send_and_confirm_transaction`, whose text is
  -- the signature. A transaction counts as handed over also when its confirmation fails.
  unfoldable pub settle :
      OracleConfig
      → Result String Bytes
      → Result String String
      → EvaluationJob
      → Bool
      → ℕ
      → Bytes
      → Settled
  settle config (err e) sent job approved reason hash = record {
    result = err (settlement ("Failed to get blockhash: " ⊹ e));
    submitted = [];
  }
  settle config (ok blockhash) (err e) job approved reason hash = record {
    result = err (settlement ("Transaction failed: " ⊹ e));
    submitted = confirm_oracle config job approved reason hash ∷ [];
  }
  settle config (ok blockhash) (ok sig) job approved reason hash = record {
    result = ok sig;
    submitted = confirm_oracle config job approved reason hash ∷ [];
  }
