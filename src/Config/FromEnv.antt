-- ===== src/Config/FromEnv.antt =====
-- src/config.rs, `OracleConfig::from_env`: the whole configuration, or why there is none.
use oracle_qa.Prelude.{
  ◌==◌, true, false, String, Bytes, List, [], ◌∷◌, Option, none, some, Result, ok, err, ◌>>=◌,
  map_err, if◌then◌else◌, length,
}
use oracle_qa.Prelude.Text.{◌⊹◌, as_bytes}
use oracle_qa.State.{OracleConfig}
use oracle_qa.External.{Deps}
use oracle_qa.Config.Parse.{Env, unwrap_or, trimmed, comma_list, u64_or, u32_or, env_bool}

-- What the configuration takes from elsewhere: `read_keypair_file`, as the public key of the pair,
-- `sla_escrow_api::ID`, and `hex::decode`.
pub record Setup : Type 0 where
  pub read_keypair_file : String → Result String Bytes
  pub default_program_id : Bytes
  pub hex_decode : String → Result String Bytes

-- Why there is no configuration: an error that `main` returns, or a panic.
pub data Failure : Type 0 where
  refused panicked : String → Failure

module _ (x : Deps) (setup : Setup) (env : Env) where
  open setup use {read_keypair_file, default_program_id, hex_decode}

  abbrev pub required : Option String → String → Result Failure String
  required none message = err (refused message)
  required (some s) message = ok s

  unfoldable pub oracle_keypair : Result Failure Bytes
  oracle_keypair = do
    path ← required (env "ORACLE_KEYPAIR_PATH") "ORACLE_KEYPAIR_PATH is required"
    map_err (λ e. refused ("Failed to read oracle keypair at " ⊹ path ⊹ ": " ⊹ e))
        (read_keypair_file path)

  -- `Pubkey::from_str(&s).expect(..)`.
  abbrev pub expect_pubkey : Option Bytes → Result Failure Bytes
  expect_pubkey none = err (panicked "Invalid ESCROW_PROGRAM_ID")
  expect_pubkey (some key) = ok key

  abbrev pub program_id_of : Option String → Result Failure Bytes
  program_id_of none = ok default_program_id
  program_id_of (some s) = expect_pubkey (x.parse_pubkey s)

  unfoldable pub escrow_program_id : Result Failure Bytes
  escrow_program_id = program_id_of (env "ESCROW_PROGRAM_ID")

  abbrev pub single_registry : List String
  single_registry = unwrap_or (env "EVIDENCE_REGISTRY_URL") "http://localhost:4021" ∷ []

  abbrev pub or_single : List String → List String
  or_single [] = single_registry
  or_single (p ∷ ps) = p ∷ ps

  abbrev pub registries_of : Option String → List String
  registries_of none = single_registry
  registries_of (some s) = or_single (comma_list s)

  unfoldable pub evidence_registry_urls : List String
  evidence_registry_urls = registries_of (env "EVIDENCE_REGISTRY_URLS")

  -- `decoded.try_into()` into an array of 32 bytes.
  abbrev pub into_hash : Bytes → Result Failure (Option Bytes)
  into_hash decoded =
      if length decoded == 32
      then ok (some decoded)
      else err (refused "ORACLE_OPERATOR_TOKEN_SHA256 must decode to 32 bytes")

  abbrev pub decode_hash : String → Result Failure (Option Bytes)
  decode_hash hex =
      map_err (λ e. refused "ORACLE_OPERATOR_TOKEN_SHA256 must be 64 hex characters")
        (hex_decode hex)
      >>= into_hash

  abbrev pub sha256_bytes : Bytes → Bytes
  sha256_bytes bytes = x.digest bytes

  abbrev pub hash_token : Option String → Option Bytes
  hash_token none = none
  hash_token (some token) = some (sha256_bytes (as_bytes token))

  abbrev pub token_hash : Option String → Option String → Result Failure (Option Bytes)
  token_hash none token = ok (hash_token token)
  token_hash (some hex) token = decode_hash hex

  -- The digest, if there is one that is not blank, and else that of the token.
  unfoldable pub operator_token_sha256 : Result Failure (Option Bytes)
  operator_token_sha256 =
      token_hash (trimmed (env "ORACLE_OPERATOR_TOKEN_SHA256"))
        (trimmed (env "ORACLE_OPERATOR_TOKEN"))

  abbrev pub config_of : Bytes → Bytes → Option Bytes → OracleConfig
  config_of keypair program_id token = record {
    solana_rpc_url = unwrap_or (env "SOLANA_RPC_URL") "https://api.devnet.solana.com";
    solana_ws_url = unwrap_or (env "SOLANA_WS_URL") "wss://api.devnet.solana.com";
    oracle_pubkey = keypair;
    escrow_program_id = program_id;
    bind_addr = unwrap_or (env "BIND_ADDR") "127.0.0.1:4020";
    evaluation_timeout_ms = u64_or (env "EVALUATION_TIMEOUT_MS") 30000;
    evidence_registry_urls = evidence_registry_urls;
    evidence_registry_auth_header = trimmed (env "EVIDENCE_REGISTRY_AUTH_HEADER");
    evidence_fetch_max_retries = u32_or (env "EVIDENCE_FETCH_MAX_RETRIES") 3;
    evidence_fetch_retry_base_ms = u64_or (env "EVIDENCE_FETCH_RETRY_BASE_MS") 200;
    database_url = trimmed (env "DATABASE_URL");
    operator_token_sha256 = token;
    allow_unauthenticated_manual_evaluate =
        env_bool env "ORACLE_ALLOW_UNAUTHENTICATED_MANUAL_EVALUATE" false;
    cors_allowed_origins = comma_list (unwrap_or (env "ORACLE_CORS_ALLOWED_ORIGINS") "");
    manual_evaluate_rate_limit = u64_or (env "ORACLE_MANUAL_EVALUATE_RATE_LIMIT") 30;
    manual_evaluate_rate_window_ms = u64_or (env "ORACLE_MANUAL_EVALUATE_RATE_WINDOW_MS") 60000;
    strict_profile = env_bool env "ORACLE_STRICT_PROFILE" true;
    dead_letter_max_attempts = u32_or (env "ORACLE_DEAD_LETTER_MAX_ATTEMPTS") 5;
    job_channel_capacity = u64_or (env "ORACLE_JOB_CHANNEL_CAPACITY") 256;
    require_event_match = env_bool env "ORACLE_REQUIRE_EVENT_MATCH" false;
    backfill_lookback_signatures = u64_or (env "ORACLE_BACKFILL_LOOKBACK_SIGNATURES") 2000;
  }

  unfoldable pub from_env : Result Failure OracleConfig
  from_env = do
    keypair ← oracle_keypair
    program_id ← escrow_program_id
    token ← operator_token_sha256
    ok (config_of keypair program_id token)
