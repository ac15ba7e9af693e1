-- ===== src/Tests/Interface.antt =====
-- The metrics, the CORS layer and the start of the service on samples.
use oracle_qa.Prelude.{
  ◌≡◌, refl, true, [], ◌∷◌, none, some, ok, err, String, Bytes, Option, if◌then◌else◌,
}
use oracle_qa.Prelude.Text.{contains, show, str_eq, trim, parse_u64}
use oracle_qa.Samples.{sample_config}
use oracle_qa.Types.{default_health}
use oracle_qa.State.{OracleConfig, default_stats}
use oracle_qa.Config.Parse.{trimmed, u64_or}
use oracle_qa.Config.FromEnv.{
  panicked, refused, from_env, oracle_keypair, escrow_program_id, operator_token_sha256,
}
use oracle_qa.Ledger.Calls.{timeout}
use oracle_qa.Server.Metrics.{metrics, metrics_body}
use oracle_qa.Server.Router.{cors_layer, parsed_origins}
use oracle_qa.Worker.Startup.{from_url, open_channel, start_up}
use oracle_qa.Tests.Settings.{wide_deps, setup, look_up}

line_of_dead_letters :
    contains
      (metrics (record default_stats { total_dead_letter = 12 }) default_health 5).2
      "\noracle_qa_total_dead_letter 12\n"
    ≡ true
unfolding metrics metrics_body contains show
line_of_dead_letters = refl

abbrev only_b : String → Option Bytes
only_b origin = if str_eq origin "b" then some (98 ∷ []) else none

abbrev two_origins : OracleConfig
two_origins = record sample_config { cors_allowed_origins = "a" ∷ "b" ∷ [] }

-- An origin that is no header value is left out.
one_origin : (cors_layer only_b two_origins).allow_origin ≡ some ((98 ∷ []) ∷ [])
unfolding cors_layer parsed_origins
one_origin = refl

-- A channel without room cannot be made.
no_room :
    start_up wide_deps setup
      (λ url. err timeout)
      (ok tt)
      (look_up (("ORACLE_KEYPAIR_PATH", "/key") ∷ ("ORACLE_JOB_CHANNEL_CAPACITY", "0") ∷ []))
    ≡ err (panicked "mpsc bounded channel")
unfolding start_up from_env oracle_keypair escrow_program_id operator_token_sha256 trimmed trim
    from_url open_channel u64_or parse_u64
no_room = refl

-- An HTTP client that cannot be built ends the start before the channel is made.
no_client :
    start_up wide_deps setup
      (λ url. err timeout)
      (err "no TLS backend")
      (look_up (("ORACLE_KEYPAIR_PATH", "/key") ∷ ("ORACLE_JOB_CHANNEL_CAPACITY", "0") ∷ []))
    ≡ err (refused "no TLS backend")
unfolding start_up from_env oracle_keypair escrow_program_id operator_token_sha256 trimmed trim
no_client = refl
