-- ===== src/Tests/Deliveries.antt =====
-- Looking up a transaction and a backfill on the samples.
use oracle_qa.Prelude.{
  ℕ, ◌≤◌, ◌≡◌, ◌↔◌, inl, inr, refl, [], ◌∷◌, none, some, ok, arith, length, All,
}
use oracle_qa.Samples.{
  sample_deps, sample_config, sample_job, sample_instruction, sample_keys, sample_meta,
  sample_confirmed, sample_rpc, failed_entry, sample_world, sample_world_bounded,
}
use oracle_qa.Types.{EvaluationJob, default_health}
use oracle_qa.State.{OracleConfig}
use oracle_qa.Prelude.Text.{trim, strip_prefix, parse_u64, show}
use oracle_qa.Settler.Chain.{read_payment, select_payment}
use oracle_qa.Monitor.Instructions.{
  candidate, event_of_line, parse_delivery_events_from_logs, payment_from_partial_ix,
  collect_payment_candidates_from_instructions,
}
use oracle_qa.Monitor.Delivery.{
  log_events, candidates, dedup, dedup_after, sort_by_key, insert_key, Confirmed, Rpc,
  group_candidates, scan, find_job, delivery_in, event_matches_job, fetch_delivery_job,
}
use oracle_qa.Monitor.Matching.{Names, candidate_iff}
use oracle_qa.Monitor.Justified.{Justified, fetch_delivery_job-Justified}
use oracle_qa.Monitor.Complete.{fetch_delivery_job_finds}
use oracle_qa.Monitor.Backfill.{
  Scan, Surroundings, Backfilled, first_scan, stored_last_seen_slot, scan_entry, scan_batch,
  scan_page, turn, scan_loop, look_up, send_job, want, again, wrapping_sub, raise, raise_health,
  record_watermark, backfill_missed_deliveries,
}
use oracle_qa.Monitor.Restart.{
  IsCatch, IsWatermark, backfill-IsCatch, backfill-IsWatermark, backfill_ends,
}
use oracle_qa.Monitor.Cursor.{turn-PassedOver}

candidate_iff_example :
    (candidate sample_deps sample_keys (8 ∷ []) sample_instruction ≡ some (6 ∷ []))
    ↔ Names sample_deps sample_keys (8 ∷ []) (6 ∷ []) sample_instruction
candidate_iff_example = candidate_iff sample_deps sample_keys (8 ∷ []) (6 ∷ []) sample_instruction

looked_up : fetch_delivery_job sample_deps sample_config sample_rpc (4 ∷ []) ≡ ok (some sample_job)
unfolding fetch_delivery_job delivery_in find_job scan candidates dedup dedup_after sort_by_key
    insert_key group_candidates collect_payment_candidates_from_instructions candidate
    payment_from_partial_ix log_events parse_delivery_events_from_logs event_of_line
    event_matches_job read_payment select_payment trim strip_prefix
looked_up = refl

fetch_delivery_job-Justified_example :
    Justified sample_deps sample_config sample_rpc (4 ∷ []) sample_job
fetch_delivery_job-Justified_example =
    fetch_delivery_job-Justified sample_deps sample_config sample_rpc (4 ∷ []) sample_job looked_up

named : Names sample_deps sample_keys (8 ∷ []) (6 ∷ []) sample_instruction
named = (refl, ([], refl), ("six", refl, refl))

always :
    (n : ℕ)
    → read_payment sample_deps (sample_rpc.get_account n (6 ∷ [])) (6 ∷ []) (9 ∷ [])
      ≡ ok (some sample_job)
unfolding read_payment select_payment
always n = refl

-- A transaction without events.
abbrev silent_confirmed : Confirmed
silent_confirmed = record sample_confirmed {
  meta = some (record sample_meta { log_messages = some [] });
}

abbrev silent_rpc : Rpc
silent_rpc = record sample_rpc { get_transaction = λ sig. ok silent_confirmed }

silent : log_events sample_deps silent_confirmed.meta ≡ []
unfolding log_events parse_delivery_events_from_logs
silent = refl

-- The configuration is a strict one.
fetch_delivery_job_finds_example :
    (found : EvaluationJob) × (fetch_delivery_job sample_deps sample_config silent_rpc (4 ∷ [])
      ≡ ok (some found))
fetch_delivery_job_finds_example =
    fetch_delivery_job_finds sample_deps sample_config silent_rpc sample_job (4 ∷ [])
      silent_confirmed (sample_instruction ∷ []) sample_keys (6 ∷ []) refl refl (inl (inl named))
      always (inl silent)

abbrev pub sample_backfilled : Backfilled
sample_backfilled = record {
  sent = sample_job ∷ [];
  persisted = some "51";
  health = record default_health { last_seen_slot = 51 };
}

pub caught_up :
    backfill_missed_deliveries sample_deps sample_config sample_world 11 default_health
    ≡ some sample_backfilled
unfolding backfill_missed_deliveries stored_last_seen_slot parse_u64 scan_loop turn scan_page
    scan_batch scan_entry look_up send_job wrapping_sub raise raise_health record_watermark show
    fetch_delivery_job delivery_in find_job scan candidates dedup dedup_after sort_by_key insert_key
    group_candidates collect_payment_candidates_from_instructions candidate payment_from_partial_ix
    log_events parse_delivery_events_from_logs event_of_line event_matches_job read_payment
    select_payment trim strip_prefix
caught_up = refl

backfill-IsCatch_example : All (IsCatch sample_deps sample_config sample_world) (sample_job ∷ [])
backfill-IsCatch_example =
    backfill-IsCatch sample_deps sample_config sample_world 11 default_health sample_backfilled
      caught_up

backfill-IsWatermark_example :
    (0 ≤ 51)
    × IsWatermark sample_deps sample_config sample_world sample_backfilled.health (some "51")
backfill-IsWatermark_example =
    backfill-IsWatermark sample_deps sample_config sample_world 11 default_health sample_backfilled
      caught_up

backfill_ends_example :
    (r : Backfilled) × (backfill_missed_deliveries sample_deps sample_config sample_world 11
        default_health
      ≡ some r)
    × (length r.sent ≤ 10)
backfill_ends_example =
    backfill_ends sample_deps sample_config sample_world default_health sample_world_bounded
      (omega arith)

-- A page of failed transactions only.
abbrev failing_world : Surroundings
failing_world = record sample_world {
  page = λ n before limit. ok (failed_entry ∷ failed_entry ∷ []);
}

abbrev two_left : OracleConfig
two_left = record sample_config { backfill_lookback_signatures = 2 }

two_wanted : want sample_deps two_left failing_world 40 (first_scan 40) ≡ 2
unfolding wrapping_sub
two_wanted = refl

turn-PassedOver_example :
    (t : Scan) × (turn sample_deps two_left failing_world 40 (first_scan 40) ≡ again t)
    × (t.before ≡ none)
    × (t.emitted ≡ [])
    × (t.pages ≡ 1)
turn-PassedOver_example =
    turn-PassedOver sample_deps two_left failing_world 40 (first_scan 40) failed_entry
      (failed_entry ∷ []) (omega (arith, two_wanted)) refl (omega (arith, two_wanted))
      ((inr (omega arith), inl refl), ((inr (omega arith), inl refl), tt))
