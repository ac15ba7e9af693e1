-- ===== src/Tests/Restarts.antt =====
-- A settlement, and the backfill of the start after it.
use oracle_qa.Prelude.{ℕ, ◌≡◌, refl, true, [], ◌∷◌, none, some, arith, All}
use oracle_qa.Prelude.Text.{show, parse_u64}
use oracle_qa.Samples.{sample_deps, sample_config, sample_job, sample_shared, sample_world}
use oracle_qa.Types.{RuntimeHealth, default_health, param_last_seen_slot}
use oracle_qa.Pipeline.Run.{PipelineOutcome}
use oracle_qa.Ledger.Calls.{Db, Fate, works, set_parameter, record_settled}
use oracle_qa.Monitor.Backfill.{
  Surroundings, Backfilled, stored_last_seen_slot, backfill_missed_deliveries, scan_loop, turn,
  wrapping_sub, record_watermark, raise_health, raise,
}
use oracle_qa.Worker.Process.{Worker}
use oracle_qa.Worker.Resume.{told, IsAbove, succeed_resumes, succeed_db}
use oracle_qa.Prelude.Text.{trim, strip_prefix}
use oracle_qa.Settler.Chain.{read_payment, select_payment}
use oracle_qa.Monitor.Instructions.{
  candidate, event_of_line, parse_delivery_events_from_logs, payment_from_partial_ix,
  collect_payment_candidates_from_instructions,
}
use oracle_qa.Monitor.Delivery.{
  log_events, candidates, dedup, dedup_after, sort_by_key, insert_key, group_candidates, scan,
  find_job, delivery_in, event_matches_job, fetch_delivery_job,
}
use oracle_qa.Monitor.Backfill.{scan_entry, scan_batch, scan_page, look_up, send_job}
use oracle_qa.Ledger.Calls.{get_parameter, execute, ask, upsert_job, insert_event, ◌>>=◌}
use oracle_qa.Ledger.Tables.{
  upsert_row, fresh_row, insert_verdict, append_event, find_row, put_verdict, put_parameter,
  find_parameter,
}

abbrev fine : ℕ → Fate
fine n = works

abbrev empty_db : Db
empty_db = record {
  tables = record { jobs = []; verdicts = []; events = []; parameters = [] };
  calls = 0;
}

abbrev seen_health : RuntimeHealth
seen_health = record default_health { last_seen_slot = 45 }

abbrev worker : Worker
worker = record {
  db = none;
  processed = [];
  attempts = [];
  shared = sample_shared;
  health = seen_health;
}

abbrev outcome : PipelineOutcome
outcome = record {
  result = record { approved = true; resolution_reason = 0; checks = [] };
  signature = some "sig";
  resolution_hash = 3 ∷ [];
}

abbrev left : Db
left =
    (set_parameter sample_deps fine param_last_seen_slot (show 45)
      (record_settled sample_deps fine sample_job outcome.result outcome.signature
        outcome.resolution_hash empty_db).1).1

-- The start after it.
abbrev next_world : Surroundings
next_world = record sample_world {
  stored_slot = told sample_deps sample_config fine (λ n. refl) left;
}

abbrev resumed : Backfilled
resumed = record {
  sent = sample_job ∷ [];
  persisted = some "51";
  health = record default_health { last_seen_slot = 51 };
}

next_backfill :
    backfill_missed_deliveries sample_deps sample_config next_world 11 default_health ≡ some resumed
unfolding backfill_missed_deliveries stored_last_seen_slot parse_u64 scan_loop turn scan_page
    scan_batch scan_entry look_up send_job wrapping_sub raise raise_health record_watermark show
    fetch_delivery_job delivery_in find_job scan candidates dedup dedup_after sort_by_key insert_key
    group_candidates collect_payment_candidates_from_instructions candidate payment_from_partial_ix
    log_events parse_delivery_events_from_logs event_of_line event_matches_job read_payment
    select_payment trim strip_prefix set_parameter get_parameter record_settled execute ask
    upsert_job upsert_row fresh_row insert_verdict insert_event append_event find_row put_verdict
    put_parameter find_parameter ◌>>=◌
next_backfill = refl

succeed_resumes_example :
    (stored_last_seen_slot next_world.stored_slot ≡ 45)
    × All (IsAbove sample_deps sample_config fine (λ n. refl) next_world 45) resumed.sent
succeed_resumes_example =
    succeed_resumes sample_deps sample_config fine (λ n. refl) sample_job "now" outcome worker
      empty_db left next_world 11 default_health resumed (omega arith) (omega arith)
      (succeed_db sample_deps sample_config fine (λ n. refl) sample_job "now" outcome worker
        empty_db (omega arith))
      refl next_backfill
