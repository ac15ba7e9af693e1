-- ===== src/Monitor/Subscription.antt =====
-- src/chain.rs, `monitor_deliveries`: the subscription to the logs of the escrow program, as steps
-- between its states.
use oracle_qa.Prelude.{
  ℕ, ◌+◌, ◌≡◌, Bool, true, false, ◌||◌, not, String, Bytes, List, ◌∷◌, none, some, ok, err,
  if◌then◌else◌, any, saturating_add,
}
use oracle_qa.Prelude.Text.{contains}
use oracle_qa.Types.{EvaluationJob, RuntimeHealth}
use oracle_qa.State.{OracleConfig}
use oracle_qa.External.{Deps}
use oracle_qa.Monitor.Delivery.{Rpc, fetch_delivery_job}
use oracle_qa.Monitor.Backfill.{raise_health}

-- Before a subscription, within one, and after the job channel has closed.
pub data Phase : Type 0 where
  connecting streaming stopped : Phase

-- `handled` counts the notifications, and `sent` holds the jobs that the channel took, the latest
-- first.
pub record Monitor : Type 0 where
  pub phase : Phase
  pub health : RuntimeHealth
  pub handled : ℕ
  pub sent : List EvaluationJob

-- A notification, with the time, and whether the channel still takes jobs.
pub record Notification : Type 0 where
  pub slot : ℕ
  pub logs : List String
  pub signature : String
  pub now : String
  pub channel_open : Bool

abbrev pub has_delivery : List String → Bool
has_delivery = any (λ l. contains l "DeliverySubmittedEvent" || contains l "Program data:")

-- `websocket_connected = false`, with the error.
unfoldable pub disconnect : String → RuntimeHealth → RuntimeHealth
disconnect e h = record h { websocket_connected = false; last_monitor_error = some e }

unfoldable pub connect : String → RuntimeHealth → RuntimeHealth
connect now h = record h {
  websocket_connected = true;
  last_websocket_connected_at = some now;
  last_monitor_error = none;
}

unfoldable pub touch : String → ℕ → RuntimeHealth → RuntimeHealth
touch now slot h = raise_health slot (record h { last_websocket_message_at = some now })

unfoldable pub count_delivery : RuntimeHealth → RuntimeHealth
count_delivery h = record h { deliveries_observed = saturating_add h.deliveries_observed 1 }

-- `nodes n` is the RPC node while the n-th notification is handled.
module _ (x : Deps) (config : OracleConfig) (nodes : ℕ → Rpc) where
  -- The job is counted, then sent; a closed channel ends the monitor.
  unfoldable pub hand_over : Notification → EvaluationJob → Monitor → Monitor
  hand_over note job m =
      if note.channel_open
      then record m { health = count_delivery m.health; sent = job ∷ m.sent }
      else record m { health = count_delivery m.health; phase = stopped }

  unfoldable pub look : Notification → Bytes → Monitor → Monitor
  look note sig m = elim (fetch_delivery_job x config (nodes m.handled) sig) [
    | ok (some job) ↦ hand_over note job m
    | ok none ↦ m
    | err e ↦ m
  ]

  -- The body of `while let Some(log_response) = stream.next().await`.
  unfoldable pub on_notification : Notification → Monitor → Monitor
  on_notification note m =
      let seen = record m { health = touch note.now note.slot m.health; handled = m.handled + 1 } in
      if not (has_delivery note.logs)
      then seen
      else (elim (x.parse_signature note.signature) [ some sig ↦ look note sig seen | none ↦ seen ])

  -- One step of the outer loop's body; after a failure or the end of a stream it starts again.
  pub data Step : Monitor → Monitor → Type 0 where
    no_socket :
        {m : Monitor} (e : String)
        → m.phase ≡ connecting
        → Step m (record m { health = disconnect e m.health })
    no_subscription :
        {m : Monitor} (e : String)
        → m.phase ≡ connecting
        → Step m (record m { health = disconnect e m.health })
    subscribed :
        {m : Monitor} (now : String)
        → m.phase ≡ connecting
        → Step m (record m { phase = streaming; health = connect now m.health })
    notified :
        {m : Monitor} (note : Notification) → m.phase ≡ streaming → Step m (on_notification note m)
    ended :
        {m : Monitor}
        → m.phase ≡ streaming
        → Step m (record m {
          phase = connecting;
          health = disconnect "log subscription stream ended" m.health;
        })

  -- The states that a sequence of steps leads to.
  pub data Reach (start : Monitor) : Monitor → Type 0 where
    here : Reach start start
    after_step : {m n : Monitor} → Reach start m → Step m n → Reach start n
