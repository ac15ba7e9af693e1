-- ===== src/State.antt =====
-- The state that the tasks share: src/config.rs `OracleConfig`, src/server.rs `OracleStats`.
use oracle_qa.Prelude.{ℕ, Bool, String, Bytes, List, Option, none}

-- The keypair shows as its public key: `oracle_pubkey`.
pub record OracleConfig : Type 0 where
  pub solana_rpc_url : String
  pub solana_ws_url : String
  pub oracle_pubkey : Bytes
  pub escrow_program_id : Bytes
  pub bind_addr : String
  pub evaluation_timeout_ms : ℕ  -- u64
  pub evidence_registry_urls : List String
  pub evidence_registry_auth_header : Option String
  pub evidence_fetch_max_retries : ℕ  -- u32
  pub evidence_fetch_retry_base_ms : ℕ  -- u64
  pub database_url : Option String
  pub operator_token_sha256 : Option Bytes
  pub allow_unauthenticated_manual_evaluate : Bool
  pub cors_allowed_origins : List String
  pub manual_evaluate_rate_limit : ℕ  -- usize
  pub manual_evaluate_rate_window_ms : ℕ  -- u64
  pub strict_profile : Bool
  pub dead_letter_max_attempts : ℕ  -- u32
  pub job_channel_capacity : ℕ  -- usize
  pub require_event_match : Bool
  pub backfill_lookback_signatures : ℕ  -- usize

-- All but the last two fields are `u64` counters.
pub record OracleStats : Type 0 where
  pub total_evaluated : ℕ
  pub total_approved : ℕ
  pub total_rejected : ℕ
  pub total_errors : ℕ
  pub total_dead_letter : ℕ
  pub total_evidence_fetch_failures : ℕ
  pub uptime_seconds : ℕ
  pub last_evaluation_at : Option String

abbrev pub default_stats : OracleStats
default_stats = record {
  total_evaluated = 0;
  total_approved = 0;
  total_rejected = 0;
  total_errors = 0;
  total_dead_letter = 0;
  total_evidence_fetch_failures = 0;
  uptime_seconds = 0;
  last_evaluation_at = none;
}
