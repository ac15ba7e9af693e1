-- ===== src/Types.antt =====
-- src/types.rs: the off-chain documents, the verdict of an evaluation, a job, and the run-time
-- health. `V` is the JSON library's type of values, and `M` its type of maps from names to values.
use oracle_qa.Prelude.{ℕ, ℤ, Bool, false, String, Bytes, List, Option, none}

abbrev pub api_quality_v1_profile_id : String
api_quality_v1_profile_id = "x402/oracle-qa/api-quality/v1"

abbrev pub param_last_seen_slot : String
param_last_seen_slot = "chain.last_seen_slot"

pub record SlaDocument (V : Type 0) : Type 0 where
  pub version : ℕ  -- u32
  pub profile_id : Option String
  pub endpoint : String
  pub method : String
  pub response_schema : Option V
  pub required_fields : List String
  pub max_latency_ms : ℕ  -- u64
  pub min_status_code : ℕ  -- u16
  pub max_status_code : ℕ  -- u16
  pub min_body_length : Option ℕ  -- usize

abbrev pub default_max_latency : ℕ
default_max_latency = 5000

abbrev pub default_min_status : ℕ
default_min_status = 200

abbrev pub default_max_status : ℕ
default_max_status = 299

pub record DeliveryEvidence (V M : Type 0) : Type 0 where
  pub status_code : ℕ  -- u16
  pub latency_ms : ℕ  -- u64
  pub response_body : V
  pub response_headers : Option M
  pub timestamp : ℤ

pub record CheckResult : Type 0 where
  pub name : String
  pub passed : Bool
  pub detail : String

pub record EvaluationResult : Type 0 where
  pub approved : Bool
  pub resolution_reason : ℕ  -- u16
  pub checks : List CheckResult

-- Public keys, uids and hashes are 32 bytes each.
pub record EvaluationJob : Type 0 where
  pub payment_uid : Bytes
  pub payment_pubkey : Bytes
  pub sla_hash : Bytes
  pub delivery_hash : Bytes
  pub amount : ℕ  -- u64
  pub mint : Bytes
  pub oracle_authority : Bytes
  pub expires_at : ℤ

pub record RuntimeHealth : Type 0 where
  pub websocket_connected : Bool
  pub last_websocket_connected_at : Option String
  pub last_websocket_message_at : Option String
  pub last_monitor_error : Option String
  pub queue_depth : ℕ
  pub deliveries_observed : ℕ  -- u64
  pub last_seen_slot : ℕ  -- u64

abbrev pub default_health : RuntimeHealth
default_health = record {
  websocket_connected = false;
  last_websocket_connected_at = none;
  last_websocket_message_at = none;
  last_monitor_error = none;
  queue_depth = 0;
  deliveries_observed = 0;
  last_seen_slot = 0;
}

-- src/settler.rs: the JSON object whose digest goes on chain as the resolution hash.
pub record ResolutionPayload : Type 0 where
  pub profile : String
  pub payment_uid : String
  pub payment_pubkey : String
  pub sla_hash : String
  pub delivery_hash : String
  pub sla_version : ℕ
  pub sla_profile_id : Option String
  pub approved : Bool
  pub resolution_reason : ℕ
  pub checks : List CheckResult
