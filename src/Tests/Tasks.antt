-- ===== src/Tests/Tasks.antt =====
-- The service from its start on: the monitor subscribes, the backfill catches a delivery up, the worker
-- takes the job, the monitor is told of the same delivery, and an operator asks for its payment.
use oracle_qa.Prelude.{
  ℕ, zero, suc, ◌≡◌, refl, Bytes, none, some, ok, err, [], ◌∷◌, arith, leb→le, length,
}
use oracle_qa.Prelude.Text.{contains, trim, strip_prefix, parse_u64, show, join, trim_end_slashes}
use oracle_qa.Samples.{sample_deps, sample_job, sample_world, sample_env, sla_bytes, delivery_bytes}
use oracle_qa.Types.{default_health}
use oracle_qa.State.{OracleConfig}
use oracle_qa.Fetch.Loop.{
  response, Network, fetch_evidence, mirrors, attempts, handle_reply, pause, check_body,
}
use oracle_qa.Pipeline.Run.{Surroundings, run_pipeline, fetch, submit}
use oracle_qa.Pipeline.Exec.{◌>>=◌}
use oracle_qa.Settler.Chain.{
  read_payment, select_payment, is_eligible, payment_eligible, chain_unix_timestamp,
}
use oracle_qa.Settler.Confirm.{compute_resolution_hash, payload_of, settle, confirm_oracle}
use oracle_qa.Evaluator.Checks.{
  evaluate, all_checks, version_checks, profile_checks, status_check, latency_check, field_checks,
  schema_checks, length_checks, resolution_reason,
}
use oracle_qa.Config.Parse.{
  Env, u64_or, u32_or, parse_u32, trimmed, env_bool, is_switched_on, comma_list, split_commas, fill,
}
use oracle_qa.Config.FromEnv.{
  from_env, config_of, oracle_keypair, escrow_program_id, operator_token_sha256,
  evidence_registry_urls,
}
use oracle_qa.Ledger.Calls.{query}
use oracle_qa.Monitor.Instructions.{
  candidate, event_of_line, parse_delivery_events_from_logs, payment_from_partial_ix,
  collect_payment_candidates_from_instructions,
}
use oracle_qa.Monitor.Delivery.{
  log_events, candidates, dedup, dedup_after, sort_by_key, insert_key, group_candidates, scan,
  find_job, delivery_in, event_matches_job, fetch_delivery_job,
}
use oracle_qa.Monitor.Backfill.{
  Backfilled, stored_last_seen_slot, scan_loop, turn, scan_page, scan_batch, scan_entry, look_up,
  send_job, wrapping_sub, raise, persist_slot_watermark, raise_health, record_watermark,
  backfill_missed_deliveries,
}
use oracle_qa.Monitor.Subscription.{
  streaming, Monitor, connect, hand_over, look, on_notification, subscribed, notified,
}
use oracle_qa.Server.Access.{check_token, limit_rate, expire, authorize_manual_evaluate}
use oracle_qa.Server.Manual.{Situation, manual_evaluate, evaluate_job, conclude}
use oracle_qa.Worker.Process.{Round, process, admit, start, run_job, succeed}
use oracle_qa.Worker.Startup.{Connect, first_worker, from_url, open_channel, start_up}
use oracle_qa.Service.Steps.{
  Service, first_service, take_job, app_of, leave_app, observed, caught_up, worked, asked, Run,
  at_start, then_move,
}
use oracle_qa.Service.Owed.{IsSafe}
use oracle_qa.Service.Whole.{start_up-IsSafe}
use oracle_qa.Tests.Jobs.{fine, round}
use oracle_qa.Tests.Live.{nodes, note}
use oracle_qa.Tests.Requests.{request, situation}
use oracle_qa.Tests.Settings

-- A key, one mirror, and requests without a token.
abbrev env : Env
env = Settings.look_up (
    ("ORACLE_KEYPAIR_PATH", "/key")
    ∷ ("EVIDENCE_REGISTRY_URLS", "http://b")
    ∷ ("ORACLE_ALLOW_UNAUTHENTICATED_MANUAL_EVALUATE", "true")
    ∷ ("ORACLE_BACKFILL_LOOKBACK_SIGNATURES", "10")
    ∷ [])

abbrev config : OracleConfig
config = config_of sample_deps Settings.setup env (9 ∷ []) (8 ∷ []) none

abbrev no_server : Connect
no_server url = err (query "no server")

started : start_up sample_deps Settings.setup no_server (ok tt) env ≡ ok (config, first_worker none)
unfolding start_up from_env oracle_keypair escrow_program_id operator_token_sha256 trimmed trim
    from_url open_channel u64_or
started = refl

abbrev missed : Backfilled
missed = record {
  sent = sample_job ∷ [];
  persisted = some "51";
  health = record default_health { last_seen_slot = 51 };
}

backfilled :
    backfill_missed_deliveries sample_deps config sample_world 11 default_health ≡ some missed
unfolding backfill_missed_deliveries stored_last_seen_slot parse_u64 scan_loop turn scan_page
    scan_batch scan_entry look_up send_job wrapping_sub raise raise_health record_watermark show
    fetch_delivery_job delivery_in find_job scan candidates dedup dedup_after sort_by_key insert_key
    group_candidates collect_payment_candidates_from_instructions candidate payment_from_partial_ix
    log_events parse_delivery_events_from_logs event_of_line event_matches_job read_payment
    select_payment trim strip_prefix u64_or env_bool is_switched_on
backfilled = refl

-- The registry answers with the two documents in turn.
abbrev in_turn : ℕ → Bytes
in_turn zero = sla_bytes
in_turn (suc zero) = delivery_bytes
in_turn (suc (suc n)) = in_turn n

abbrev registry : Network
registry n url = response 200 (ok (in_turn n))

abbrev replies : Surroundings
replies = record sample_env { net = registry }

abbrev last_round : Round
last_round = record round { waiting = 0; env = replies }

abbrev asking : Situation
asking = record situation { env = replies }

abbrev begun : Service
begun = first_service (first_worker none) (sample_job ∷ [])

abbrev listening : Monitor
listening = record begun.monitor { phase = streaming; health = connect "now" default_health }

abbrev caught : Service
caught = record begun { monitor = listening; pending = []; queue = sample_job ∷ [] }

abbrev settled_once : Service
settled_once = take_job sample_deps config fine nodes last_round sample_job [] caught

abbrev informed : Monitor
informed = on_notification sample_deps config nodes note settled_once.monitor

abbrev waiting : Service
waiting = record settled_once { monitor = informed; queue = sample_job ∷ [] }

abbrev idle : Service
idle = take_job sample_deps config fine nodes last_round sample_job [] waiting

abbrev finished : Service
finished =
    leave_app sample_deps config fine nodes
      (manual_evaluate sample_deps config fine request asking
        (app_of sample_deps config fine nodes idle)).1
      idle

turns : Run sample_deps config fine nodes begun finished
unfolding on_notification contains look hand_over fetch_delivery_job delivery_in find_job scan
    candidates dedup dedup_after sort_by_key insert_key group_candidates
    collect_payment_candidates_from_instructions candidate payment_from_partial_ix log_events
    parse_delivery_events_from_logs event_of_line event_matches_job read_payment select_payment trim
    strip_prefix connect u64_or env_bool is_switched_on
turns =
    then_move
      (then_move
        (then_move
          (then_move
            (then_move
              (then_move at_start (observed listening (subscribed "now" refl) (omega arith)))
              (caught_up sample_job [] refl (leb→le 1 256 refl)))
            (worked last_round sample_job [] refl refl (λ left e. absurd (cc))))
          (observed informed (notified note refl) (leb→le 1 256 refl)))
        (worked last_round sample_job [] refl refl (λ left e. absurd (cc))))
      (asked request asking (λ job left named e. absurd (cc)))

-- The first turn of the worker and the request have handed over a transaction each.
two_handed : length finished.worker.shared.submitted ≡ 2
unfolding manual_evaluate authorize_manual_evaluate check_token limit_rate expire evaluate_job
    conclude read_payment select_payment run_pipeline ◌>>=◌ is_eligible payment_eligible
    chain_unix_timestamp fetch fetch_evidence mirrors attempts handle_reply pause check_body
    trim_end_slashes evaluate all_checks version_checks profile_checks status_check latency_check
    field_checks schema_checks length_checks join show resolution_reason compute_resolution_hash
    payload_of submit settle confirm_oracle process admit start run_job succeed env_bool
    is_switched_on trim u32_or parse_u32 parse_u64 u64_or evidence_registry_urls comma_list
    split_commas fill trimmed persist_slot_watermark connect
two_handed = refl

start_up-IsSafe_example : IsSafe sample_deps config fine nodes sample_world begun finished turns
start_up-IsSafe_example =
    start_up-IsSafe sample_deps config fine nodes sample_world Settings.setup no_server (ok tt) env
      (first_worker none) 11 missed finished started backfilled turns
