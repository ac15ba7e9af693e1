-- ===== src/Tests/Unit/Pipeline.antt =====
-- src/pipeline.rs, `mod tests`.
use oracle_qa.Prelude.{
  ◌≡◌, refl, Bool, true, false, ◌&&◌, String, Bytes, [], ◌∷◌, Option, none, some, Result, ok, err,
  ◌==◌, bytes_eq, if◌then◌else◌,
}
use oracle_qa.Prelude.Text.{str_eq, contains, as_bytes, show, trim_end_slashes}
use oracle_qa.Error.{OracleError, sla_parse, error_text}
use oracle_qa.Types.{
  SlaDocument, api_quality_v1_profile_id, default_max_latency, default_min_status,
  default_max_status,
}
use oracle_qa.State.{OracleConfig, default_stats}
use oracle_qa.Samples.{sample_deps, repeat, Keys}
use oracle_qa.Fetch.Loop.{
  Network, response, fetch_evidence, mirrors, attempts, handle_reply, pause, check_body,
}

abbrev test_config : String → OracleConfig
test_config base_url = record {
  solana_rpc_url = "http://127.0.0.1:8899";
  solana_ws_url = "ws://127.0.0.1:8900";
  oracle_pubkey = 9 ∷ [];
  escrow_program_id = 8 ∷ [];
  bind_addr = "127.0.0.1:0";
  evaluation_timeout_ms = 30000;
  evidence_registry_urls = base_url ∷ [];
  evidence_registry_auth_header = none;
  evidence_fetch_max_retries = 1;
  evidence_fetch_retry_base_ms = 1;
  database_url = none;
  operator_token_sha256 = none;
  allow_unauthenticated_manual_evaluate = false;
  cors_allowed_origins = [];
  manual_evaluate_rate_limit = 30;
  manual_evaluate_rate_window_ms = 60000;
  strict_profile = true;
  dead_letter_max_attempts = 5;
  job_channel_capacity = 16;
  require_event_match = false;
  backfill_lookback_signatures = 0;
}

-- A registry that answers every path with one body.
abbrev spawn_registry : Bytes → Network
spawn_registry content n url = response 200 (ok content)

-- The body of the first test, and the document that it is read as.
abbrev body : Bytes
body =
    as_bytes
      "{\"endpoint\":\"https://api.example.test\",\"method\":\"GET\",\"profile_id\":\"x402/oracle-qa/api-quality/v1\",\"version\":1}"

abbrev document : SlaDocument Keys
document = record {
  version = 1;
  profile_id = some api_quality_v1_profile_id;
  endpoint = "https://api.example.test";
  method = "GET";
  response_schema = none;
  required_fields = [];
  max_latency_ms = default_max_latency;
  min_status_code = default_min_status;
  max_status_code = default_max_status;
  min_body_length = none;
}

abbrev parse : Bytes → Result String (SlaDocument Keys)
parse raw = if bytes_eq raw body then ok document else err "missing field"

abbrev fetched : Bytes → Bytes → Result OracleError (SlaDocument Keys)
fetched served hash =
    (fetch_evidence sample_deps (test_config "http://127.0.0.1:1") parse sla_parse
      (spawn_registry served) hash default_stats 0).result

abbrev is_text : Option String → String → Bool
is_text none s = false
is_text (some t) s = str_eq t s

abbrev has_header : Result OracleError (SlaDocument Keys) → Bool
has_header (err e) = false
has_header (ok sla) = sla.version == 1 && is_text sla.profile_id api_quality_v1_profile_id

abbrev fails_with : String → Result OracleError (SlaDocument Keys) → Bool
fails_with part (ok sla) = false
fails_with part (err e) = contains (error_text e) part

abbrev fetch_evidence_accepts_hash_bound_document : Bool
fetch_evidence_accepts_hash_bound_document = has_header (fetched body (sample_deps.digest body))

abbrev fetch_evidence_rejects_hash_mismatch : Bool
fetch_evidence_rejects_hash_mismatch =
    fails_with "Hash mismatch" (fetched (as_bytes "{\"version\":1}") (repeat 9 32))

all_pass :
    (fetch_evidence_accepts_hash_bound_document && fetch_evidence_rejects_hash_mismatch) ≡ true
unfolding as_bytes fetch_evidence mirrors attempts handle_reply pause check_body contains show
    trim_end_slashes error_text
all_pass = refl
