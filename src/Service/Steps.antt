-- ===== src/Service/Steps.antt =====
-- src/main.rs, `main`: the tasks that run side by side, as steps in any order. The live monitor and the
-- backfill send jobs into one bounded channel, the worker takes them out in order, and requests of
-- operators run the pipeline beside it; they share the health record, the counters and the ledger.
use oracle_qa.Prelude.{ℕ, ◌+◌, ◌-◌, ◌≤◌, ◌<◌, ◌≡◌, List, [], ◌∷◌, ◌++◌, length, take}
use oracle_qa.Prelude.Text.{show}
use oracle_qa.Types.{EvaluationJob, param_last_seen_slot}
use oracle_qa.State.{OracleConfig}
use oracle_qa.External.{Deps}
use oracle_qa.Monitor.Delivery.{Rpc}
use oracle_qa.Monitor.Backfill.{raise_health}
use oracle_qa.Monitor.Subscription.{connecting, Monitor, Step}
use oracle_qa.Ledger.Calls.{Fate, set_parameter}
use oracle_qa.Server.Manual.{Request, Situation, AppState, manual_evaluate}
use oracle_qa.Server.Origin.{IsPartial}
use oracle_qa.Worker.Process.{Worker, Round, with_ledger, process}
use oracle_qa.Worker.Transactions.{IsPart}

-- `pending` holds the jobs that the backfill has found and not sent yet, and `queue` those in the
-- channel, both the next one first. The health record is the monitor's; `requests` are the times that
-- the rate limit keeps.
pub record Service : Type 0 where
  pub monitor : Monitor
  pub pending : List EvaluationJob
  pub queue : List EvaluationJob
  pub worker : Worker
  pub requests : List ℕ

-- The jobs that the backfill has found, of which it holds the latest first.
abbrev pub oldest_first : List EvaluationJob → List EvaluationJob
oldest_first [] = []
oldest_first (job ∷ jobs) = oldest_first jobs ++ job ∷ []

-- The tasks before their first step, with what the backfill is going to find.
abbrev pub first_service : Worker → List EvaluationJob → Service
first_service worker found = record {
  monitor = record { phase = connecting; health = worker.health; handled = 0; sent = [] };
  pending = oldest_first found;
  queue = [];
  worker = worker;
  requests = [];
}

-- The jobs that a step of the monitor has sent.
abbrev pub sent_since : Monitor → Monitor → List EvaluationJob
sent_since m n = take (length n.sent - length m.sent) n.sent

-- The worker sees the shared health record, and notes the depth of the queue in it.
abbrev pub with_health : Service → Worker
with_health s = record s.worker { health = s.monitor.health }

module _ (x : Deps) (config : OracleConfig) (fates : ℕ → Fate) (nodes : ℕ → Rpc) where
  abbrev pub take_job : Round → EvaluationJob → List EvaluationJob → Service → Service
  take_job round job rest s = record s {
    queue = rest;
    worker = process x config fates round job (with_health s);
    monitor = record s.monitor { health = record s.monitor.health { queue_depth = round.waiting } };
  }

  -- What the end of a backfill leaves: the watermark in the ledger, and the slot in the health record.
  abbrev pub note_slot : ℕ → Service → Service
  note_slot slot s = record s {
    monitor = record s.monitor { health = raise_health slot s.monitor.health };
    worker =
        with_ledger x config fates (set_parameter x fates param_last_seen_slot (show slot))
          s.worker;
  }

  -- `AppState` as a request finds it, and what it leaves.
  abbrev pub app_of : Service → AppState
  app_of s = record { db = s.worker.db; shared = s.worker.shared; requests = s.requests }

  abbrev pub leave_app : AppState → Service → Service
  leave_app a s = record s {
    worker = record s.worker { db = a.db; shared = a.shared };
    requests = a.requests;
  }

  -- A send waits while the channel is full, so that it happens when there is room.
  pub data Move : Service → Service → Type 0 where
    observed :
        {s : Service} (m : Monitor)
        → Step x config nodes s.monitor m
        → length s.queue + length (sent_since s.monitor m) ≤ config.job_channel_capacity
        → Move s (record s { monitor = m; queue = s.queue ++ sent_since s.monitor m })
    caught_up :
        {s : Service} (job : EvaluationJob) (rest : List EvaluationJob)
        → s.pending ≡ job ∷ rest
        → length s.queue < config.job_channel_capacity
        → Move s (record s { pending = rest; queue = s.queue ++ job ∷ [] })
    -- The end of the backfill, with the highest slot of its scan.
    scanned : {s : Service} (slot : ℕ) → s.pending ≡ [] → Move s (note_slot slot s)
    worked :
        {s : Service} (round : Round) (job : EvaluationJob) (rest : List EvaluationJob)
        → s.queue ≡ job ∷ rest
        → round.waiting ≡ length rest
        → IsPart x config fates job round s.worker.shared
        → Move s (take_job round job rest s)
    asked :
        {s : Service} (req : Request) (sit : Situation)
        → IsPartial x config fates req sit s.worker.shared
        → Move s (leave_app (manual_evaluate x config fates req sit (app_of s)).1 s)

  -- The states that a sequence of steps leads to.
  pub data Run (start : Service) : Service → Type 0 where
    at_start : Run start start
    then_move : {s t : Service} → Run start s → Move s t → Run start t
