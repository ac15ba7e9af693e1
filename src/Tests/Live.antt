-- ===== src/Tests/Live.antt =====
-- The live monitor on the samples.
use oracle_qa.Prelude.{ℕ, ◌≤◌, ◌≡◌, ◌↔◌, refl, true, ok, err, [], ◌∷◌}
use oracle_qa.Prelude.Text.{contains, trim, strip_prefix}
use oracle_qa.Samples.{sample_deps, sample_config, sample_job, sample_rpc}
use oracle_qa.Types.{default_health}
use oracle_qa.Settler.Chain.{read_payment, select_payment}
use oracle_qa.Monitor.Instructions.{
  candidate, event_of_line, parse_delivery_events_from_logs, payment_from_partial_ix,
  collect_payment_candidates_from_instructions,
}
use oracle_qa.Monitor.Delivery.{
  Rpc, log_events, candidates, dedup, dedup_after, sort_by_key, insert_key, group_candidates, scan,
  find_job, delivery_in, event_matches_job, fetch_delivery_job,
}
use oracle_qa.Monitor.Subscription.{
  connecting, streaming, Monitor, Notification, connect, hand_over, look, on_notification,
  subscribed, notified, Reach, here, after_step,
}
use oracle_qa.Server.Health.{Probes, health}
use oracle_qa.Server.Liveness.{health-Reach}
use oracle_qa.Monitor.Reachable.{IsGood, subscribed_in, Reach-IsGood, Reach-last_seen_slot}

abbrev pub nodes : ℕ → Rpc
nodes n = sample_rpc

abbrev pub fresh : Monitor
fresh = record { phase = connecting; health = default_health; handled = 0; sent = [] }

abbrev pub note : Notification
note = record {
  slot = 77;
  logs = "Program data: event" ∷ [];
  signature = "sig";
  now = "later";
  channel_open = true;
}

abbrev pub listening : Monitor
listening = record fresh { phase = streaming; health = connect "now" default_health }

abbrev informed : Monitor
informed = on_notification sample_deps sample_config nodes note listening

path : Reach sample_deps sample_config nodes fresh informed
path = after_step (after_step here (subscribed "now" refl)) (notified note refl)

-- The notification's job is sent.
job_sent : informed.sent ≡ sample_job ∷ []
unfolding on_notification contains look hand_over fetch_delivery_job delivery_in find_job scan
    candidates dedup dedup_after sort_by_key insert_key group_candidates
    collect_payment_candidates_from_instructions candidate payment_from_partial_ix log_events
    parse_delivery_events_from_logs event_of_line event_matches_job read_payment select_payment trim
    strip_prefix connect
job_sent = refl

Reach-IsGood_example : IsGood sample_deps sample_config nodes informed
Reach-IsGood_example = Reach-IsGood sample_deps sample_config nodes fresh informed path (refl, tt)

Reach-last_seen_slot_example : 0 ≤ informed.health.last_seen_slot
Reach-last_seen_slot_example =
    Reach-last_seen_slot sample_deps sample_config nodes fresh informed path

abbrev probes : Probes
probes = record { slot = ok 80; balance = err "timeout"; head = λ url. ok 404 }

health-Reach_example :
    (((health sample_deps sample_config probes true informed.health).code ≡ 200)
      ↔ ((true ≡ true) × (subscribed_in informed.phase ≡ true)))
    × (((health sample_deps sample_config probes true informed.health).status ≡ "healthy")
        ↔ (true ≡ true))
health-Reach_example =
    health-Reach sample_deps sample_config nodes fresh informed probes true path (refl, tt)
