-- ===== src/Samples.antt =====
-- Concrete libraries, documents and replies, on which the theorems are run. A JSON value is here the
-- list of an object's keys, a schema is a list of keys that a body must have, and a digest is the
-- bytes themselves.
use oracle_qa.Prelude.{
  ℕ, zero, suc, ◌≤◌, ◌≡◌, subst, arith, length, Option, pos, Bool, true, false, ◌&&◌, String, Bytes,
  List, [], ◌∷◌, none, some, ok, err, leb, if◌then◌else◌, any, all, bytes_eq,
}
use oracle_qa.Prelude.Text.{str_eq, ◌⊹◌, show, join}
use oracle_qa.Types.{SlaDocument, DeliveryEvidence, EvaluationJob, api_quality_v1_profile_id}
use oracle_qa.State.{OracleConfig, default_stats}
use oracle_qa.External.{Deps, Json, Schemas, Reasons, Http, Payment}
use oracle_qa.Fetch.Loop.{Network, failed, response}
use oracle_qa.Pipeline.Exec.{Shared}
use oracle_qa.Pipeline.Run.{Surroundings}
use oracle_qa.Monitor.Instructions.{UiInstruction, partially_decoded}
use oracle_qa.Monitor.Delivery.{TransactionMeta, Confirmed, Rpc, json_transaction, parsed_message}
use oracle_qa.Monitor.Backfill.{SignatureEntry, Surroundings as World}

abbrev pub Keys : Type 0
Keys = List String

abbrev has_key : Keys → String → Bool
has_key keys k = any (λ j. str_eq j k) keys

abbrev pub sample_sla : SlaDocument Keys
sample_sla = record {
  version = 1;
  profile_id = some api_quality_v1_profile_id;
  endpoint = "https://api.example.test/data";
  method = "GET";
  response_schema = some ("result" ∷ []);
  required_fields = "result" ∷ [];
  max_latency_ms = 500;
  min_status_code = 200;
  max_status_code = 299;
  min_body_length = some 3;
}

abbrev pub sample_evidence : DeliveryEvidence Keys Keys
sample_evidence = record {
  status_code = 200;
  latency_ms = 42;
  response_body = "result" ∷ [];
  response_headers = none;
  timestamp = pos 1700000000;
}

-- The delivery of a slow answer.
abbrev pub late_evidence : DeliveryEvidence Keys Keys
late_evidence = record sample_evidence { latency_ms = 900 }

-- `[byte; n]`.
abbrev pub repeat : ℕ → ℕ → Bytes
repeat byte zero = []
repeat byte (suc n) = byte ∷ repeat byte n

abbrev pub sla_bytes : Bytes
sla_bytes = 1 ∷ 1 ∷ []

abbrev pub delivery_bytes : Bytes
delivery_bytes = 2 ∷ 2 ∷ []

abbrev hex_text : Bytes → String
hex_text [] = ""
hex_text (b ∷ bs) = "0" ⊹ hex_text bs

abbrev pub sample_payment : Payment
sample_payment = record {
  payment_uid = 7 ∷ [];
  oracle_authority = 9 ∷ [];
  sla_hash = sla_bytes;
  delivery_hash = delivery_bytes;
  amount = 100;
  mint = 5 ∷ [];
  expires_at = pos 1900000000;
  delivery_timestamp = pos 1700000000;
  resolution_state = 0;
}

abbrev sample_json : Json
sample_json = record {
  Value = Keys;
  Object = Keys;
  as_object = λ v. some v;
  contains_key = has_key;
  to_string = λ v. ok (join "," v);
  sla_from_slice = λ raw. if bytes_eq raw sla_bytes then ok sample_sla else err "not an SLA";
  delivery_from_slice =
      λ raw. if bytes_eq raw delivery_bytes then ok sample_evidence else err "not a delivery";
  resolution_to_vec = λ p. ok (3 ∷ []);
}

abbrev sample_schemas : Schemas Keys
sample_schemas = record {
  Validator = Keys;
  validator_for = λ s. ok s;
  is_valid = λ v body. all (has_key body) v;
  iter_errors = λ v body. [];
}

abbrev sample_reasons : Reasons
sample_reasons = record {
  no_reason = 0;
  general_rejection = 1;
  status_code_out_of_range = 2;
  latency_exceeded = 3;
  required_fields_missing = 4;
  schema_validation_failed = 5;
  body_too_short = 6;
}

abbrev sample_http : Http
sample_http = record {
  is_success = λ c. leb 200 c && leb c 299;
  is_server_error = λ c. leb 500 c && leb c 599;
  is_client_error = λ c. leb 400 c && leb c 499;
  status_text = show;
  header_value = λ s. ok s;
}

abbrev pub sample_deps : Deps
sample_deps = record {
  json = sample_json;
  schemas = sample_schemas;
  http = sample_http;
  reasons = sample_reasons;
  layouts = record {
    payment_size = 1;
    payment_of = λ b. sample_payment;
    clock_of = λ b. ok (pos 1800000000);
  };
  wire = record {
    parse_pubkey = λ t. if str_eq t "six" then some (6 ∷ []) else none;
    parse_signature = λ t. if str_eq t "sig" then some (4 ∷ []) else none;
    signature_text = hex_text;
    bs58_decode = λ t. some (3 ∷ []);
    base64_decode = λ t. if str_eq t "event" then some (1 ∷ []) else none;
    submit_delivery = 3;
    event_size = 1;
    event_of = λ b. some (record { payment_uid = 7 ∷ []; delivery_hash = delivery_bytes });
  };
  encodings = record { digest = λ b. b; hex = hex_text; pubkey_text = hex_text };
}

abbrev pub sample_config : OracleConfig
sample_config = record {
  solana_rpc_url = "http://127.0.0.1:8899";
  solana_ws_url = "ws://127.0.0.1:8900";
  oracle_pubkey = 9 ∷ [];
  escrow_program_id = 8 ∷ [];
  bind_addr = "127.0.0.1:0";
  evaluation_timeout_ms = 30000;
  evidence_registry_urls = "http://a/" ∷ "http://b" ∷ [];
  evidence_registry_auth_header = none;
  evidence_fetch_max_retries = 2;
  evidence_fetch_retry_base_ms = 200;
  database_url = none;
  operator_token_sha256 = none;
  allow_unauthenticated_manual_evaluate = false;
  cors_allowed_origins = [];
  manual_evaluate_rate_limit = 30;
  manual_evaluate_rate_window_ms = 60000;
  strict_profile = true;
  dead_letter_max_attempts = 5;
  job_channel_capacity = 16;
  require_event_match = true;
  backfill_lookback_signatures = 10;
}

-- The first mirror is down; the second has both documents.
abbrev pub sample_net : Network
sample_net n url =
    if str_eq url "http://b/00"
    then response 200 (ok (if leb n 3 then sla_bytes else delivery_bytes))
    else failed "connection refused"

abbrev pub sample_job : EvaluationJob
sample_job = record {
  payment_uid = 7 ∷ [];
  payment_pubkey = 6 ∷ [];
  sla_hash = sla_bytes;
  delivery_hash = delivery_bytes;
  amount = 100;
  mint = 5 ∷ [];
  oracle_authority = 9 ∷ [];
  expires_at = pos 1900000000;
}

abbrev pub sample_account : Bytes
sample_account = 0 ∷ 0 ∷ 0 ∷ 0 ∷ 0 ∷ 0 ∷ 0 ∷ 0 ∷ 0 ∷ []

abbrev pub sample_env : Surroundings
sample_env = record {
  payment_reply = λ pk. if bytes_eq pk (6 ∷ []) then ok (some sample_account) else ok none;
  clock_reply = ok (some []);
  wall_clock = pos 0;
  net = sample_net;
  blockhash_reply = ok [];
  send_reply = ok "sig";
}

abbrev pub sample_shared : Shared
sample_shared = record { stats = default_stats; requests = 0; submitted = [] }

-- A transaction whose one instruction is a `SubmitDelivery`, with its event.
abbrev pub sample_instruction : UiInstruction
sample_instruction = partially_decoded "0" ("a" ∷ "b" ∷ "c" ∷ "d" ∷ "six" ∷ []) "data"

abbrev pub sample_meta : TransactionMeta
sample_meta = record {
  log_messages = some ("Program log: x" ∷ " Program data: event " ∷ []);
  inner_instructions = none;
}

abbrev pub sample_keys : List String
sample_keys = "six" ∷ []

abbrev pub sample_confirmed : Confirmed
sample_confirmed = record {
  transaction = json_transaction (parsed_message (sample_instruction ∷ []) sample_keys);
  meta = some sample_meta;
}

abbrev pub sample_rpc : Rpc
sample_rpc = record {
  get_transaction = λ sig. ok sample_confirmed;
  get_account = λ n pk. ok (some sample_account);
}

abbrev pub sample_entry : SignatureEntry
sample_entry = record { slot = 50; signature = "sig"; failed = false }

abbrev pub failed_entry : SignatureEntry
failed_entry = record { slot = 51; signature = "sig"; failed = true }

-- One page with a failed transaction and a delivery, and nothing below it.
abbrev first_page : ℕ → ℕ → List SignatureEntry
first_page zero (suc (suc limit)) = failed_entry ∷ sample_entry ∷ []
first_page zero limit = []
first_page (suc n) limit = []

abbrev pub sample_world : World
sample_world = record {
  page = λ n before limit. ok (first_page n limit);
  rpc = λ n. sample_rpc;
  channel_open = λ n. true;
  stored_slot = some (ok (some "40"));
}

first_page_le : (n limit : ℕ) → length (first_page n limit) ≤ limit
first_page_le zero zero = omega arith
first_page_le zero (suc zero) = omega arith
first_page_le zero (suc (suc limit)) = omega arith
first_page_le (suc n) limit = omega arith

pub sample_world_bounded :
    (n : ℕ) (before : Option Bytes) (limit : ℕ) (batch : List SignatureEntry)
    → sample_world.page n before limit ≡ ok batch
    → length batch ≤ limit
sample_world_bounded n before limit batch h =
    let e : first_page n limit ≡ batch = cc in
    subst (λ (b : List SignatureEntry). length b ≤ limit) e (first_page_le n limit)
