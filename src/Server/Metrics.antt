-- ===== src/Server/Metrics.antt =====
-- src/server.rs, `metrics`: the counters and gauges as Prometheus text.
use oracle_qa.Prelude.{ℕ, String, if◌then◌else◌}
use oracle_qa.Prelude.Text.{◌⊹◌, show}
use oracle_qa.Types.{RuntimeHealth}
use oracle_qa.State.{OracleStats}

unfoldable pub metrics_body : OracleStats → RuntimeHealth → ℕ → String
metrics_body stats runtime uptime =
    "# HELP oracle_qa_uptime_seconds Process uptime in seconds\n"
    ⊹ "# TYPE oracle_qa_uptime_seconds counter\n"
    ⊹ "oracle_qa_uptime_seconds "
    ⊹ show uptime
    ⊹ "\n# HELP oracle_qa_total_evaluated Total evaluations completed\n"
    ⊹ "# TYPE oracle_qa_total_evaluated counter\n"
    ⊹ "oracle_qa_total_evaluated "
    ⊹ show stats.total_evaluated
    ⊹ "\n# HELP oracle_qa_total_approved Total evaluations approved\n"
    ⊹ "# TYPE oracle_qa_total_approved counter\n"
    ⊹ "oracle_qa_total_approved "
    ⊹ show stats.total_approved
    ⊹ "\n# HELP oracle_qa_total_rejected Total evaluations rejected\n"
    ⊹ "# TYPE oracle_qa_total_rejected counter\n"
    ⊹ "oracle_qa_total_rejected "
    ⊹ show stats.total_rejected
    ⊹ "\n# HELP oracle_qa_total_errors Total pipeline errors\n"
    ⊹ "# TYPE oracle_qa_total_errors counter\n"
    ⊹ "oracle_qa_total_errors "
    ⊹ show stats.total_errors
    ⊹ "\n# HELP oracle_qa_total_dead_letter Total jobs moved to dead_letter\n"
    ⊹ "# TYPE oracle_qa_total_dead_letter counter\n"
    ⊹ "oracle_qa_total_dead_letter "
    ⊹ show stats.total_dead_letter
    ⊹ "\n# HELP oracle_qa_total_evidence_fetch_failures Total evidence registry fetch failures (post-retry)\n"
    ⊹ "# TYPE oracle_qa_total_evidence_fetch_failures counter\n"
    ⊹ "oracle_qa_total_evidence_fetch_failures "
    ⊹ show stats.total_evidence_fetch_failures
    ⊹ "\n# HELP oracle_qa_queue_depth Current job channel queue depth\n"
    ⊹ "# TYPE oracle_qa_queue_depth gauge\n"
    ⊹ "oracle_qa_queue_depth "
    ⊹ show runtime.queue_depth
    ⊹ "\n# HELP oracle_qa_websocket_connected 1 when the chain WebSocket subscription is active\n"
    ⊹ "# TYPE oracle_qa_websocket_connected gauge\n"
    ⊹ "oracle_qa_websocket_connected "
    ⊹ show (if runtime.websocket_connected then 1 else 0)
    ⊹ "\n# HELP oracle_qa_deliveries_observed Monotonic count of delivery events accepted into the pipeline\n"
    ⊹ "# TYPE oracle_qa_deliveries_observed counter\n"
    ⊹ "oracle_qa_deliveries_observed "
    ⊹ show runtime.deliveries_observed
    ⊹ "\n# HELP oracle_qa_last_seen_slot Highest Solana slot observed by the chain monitor\n"
    ⊹ "# TYPE oracle_qa_last_seen_slot gauge\n"
    ⊹ "oracle_qa_last_seen_slot "
    ⊹ show runtime.last_seen_slot
    ⊹ "\n"

-- The status, the content type and the body; the uptime is in seconds.
unfoldable pub metrics : OracleStats → RuntimeHealth → ℕ → ℕ × String × String
metrics stats runtime uptime =
    (200, "text/plain; version=0.0.4; charset=utf-8", metrics_body stats runtime uptime)
