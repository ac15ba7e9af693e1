-- ===== src/Monitor/Reachable.antt =====
-- src/chain.rs, `monitor_deliveries`: what holds in every state that it reaches.
use oracle_qa.Prelude.{
  ℕ, ◌+◌, ◌≤◌, ◌≡◌, refl, inl, inr, Bool, true, false, Bytes, none, some, arith, All, Bool-cases,
  Option-cases, Result-cases,
}
use oracle_qa.Types.{EvaluationJob}
use oracle_qa.State.{OracleConfig}
use oracle_qa.External.{Deps}
use oracle_qa.Monitor.Delivery.{Rpc, fetch_delivery_job}
use oracle_qa.Monitor.Backfill.{raise, raise_health}
use oracle_qa.Monitor.Justified.{Justified, fetch_delivery_job-Justified}
use oracle_qa.Monitor.Subscription.{
  Phase, connecting, streaming, stopped, Monitor, Notification, has_delivery, disconnect, connect,
  touch, count_delivery, hand_over, look, on_notification, Step, no_socket, no_subscription,
  subscribed, notified, ended, Reach, here, after_step,
}

-- Whether a subscription was open when the monitor last acted.
abbrev pub subscribed_in : Phase → Bool
subscribed_in connecting = false
subscribed_in streaming = true
subscribed_in stopped = true

module _ (x : Deps) (config : OracleConfig) (nodes : ℕ → Rpc) where
  -- A job that a transaction justifies, by the node's replies while some notification was handled.
  abbrev pub IsSound : EvaluationJob → Type 0
  IsSound job = (n : ℕ) × ((sig : Bytes) × Justified x config (nodes n) sig job)

  -- The health record tells whether there is a subscription, and every job that was sent is sound.
  abbrev pub IsGood : Monitor → Type 0
  IsGood m = (m.health.websocket_connected ≡ subscribed_in m.phase) × All IsSound m.sent

  hand_over-IsGood :
      (note : Notification) (job : EvaluationJob) (m : Monitor)
      → IsSound job
      → m.phase ≡ streaming
      → IsGood m
      → IsGood (hand_over x config nodes note job m)
  unfolding hand_over count_delivery
  hand_over-IsGood note job m sound phase (flag, jobs) = elim (Bool-cases note.channel_open) [
    | inl e ↦ rw e (flag, (sound, jobs))
    | inr e ↦ rw e (cc (flag, phase), jobs)
  ]

  look-IsGood :
      (note : Notification) (sig : Bytes) (m : Monitor)
      → m.phase ≡ streaming
      → IsGood m
      → IsGood (look x config nodes note sig m)
  unfolding look
  look-IsGood note sig m phase good =
      elim (Result-cases (fetch_delivery_job x config (nodes m.handled) sig)) [
        | inl (some job, e) ↦
            rw (e, look)
              (hand_over-IsGood note job m
                (
                  m.handled,
                  (sig, fetch_delivery_job-Justified x config (nodes m.handled) sig job e),
                )
                phase good)
        | inl (none, e) ↦ rw (e, look) good
        | inr (f, e) ↦ rw (e, look) good
      ]

  abbrev noticed : Notification → Monitor → Monitor
  noticed note m = record m { health = touch note.now note.slot m.health; handled = m.handled + 1 }

  noticed-IsGood : (note : Notification) (m : Monitor) → IsGood m → IsGood (noticed note m)
  unfolding touch raise_health
  noticed-IsGood note m good = good

  on_notification-IsGood :
      (note : Notification) (m : Monitor)
      → m.phase ≡ streaming
      → IsGood m
      → IsGood (on_notification x config nodes note m)
  unfolding on_notification
  on_notification-IsGood note m phase good = elim (Bool-cases (has_delivery note.logs)) [
    | inr e ↦ rw (e, on_notification) (noticed-IsGood note m good)
    | inl e ↦ elim (Option-cases (x.parse_signature note.signature)) [
      | inl k ↦ rw (e, on_notification) (rw k (noticed-IsGood note m good))
      | inr (sig, k) ↦
          rw (e, on_notification)
            (rw k (look-IsGood note sig (noticed note m) phase (noticed-IsGood note m good)))
    ]
  ]

  pub Step-IsGood : (m n : Monitor) → Step x config nodes m n → IsGood m → IsGood n
  unfolding disconnect connect
  Step-IsGood m _ (no_socket e phase) (flag, jobs) = (rw phase refl, jobs)
  Step-IsGood m _ (no_subscription e phase) (flag, jobs) = (rw phase refl, jobs)
  Step-IsGood m _ (subscribed now phase) (flag, jobs) = (refl, jobs)
  Step-IsGood m _ (notified note phase) good = on_notification-IsGood note m phase good
  Step-IsGood m _ (ended phase) (flag, jobs) = (refl, jobs)

  -- In every state that the monitor reaches from a good one, the health record's flag tells whether
  -- a subscription was open when the monitor last acted, and each job that was sent is justified by a
  -- transaction, by the RPC node's replies while a notification was handled.
  pub Reach-IsGood : (start m : Monitor) → Reach x config nodes start m → IsGood start → IsGood m
  Reach-IsGood start _ here good = good
  Reach-IsGood start m (after_step path step) good =
      Step-IsGood _ m step (Reach-IsGood start _ path good)

  slot_of : Monitor → ℕ
  slot_of m = m.health.last_seen_slot

  hand_over_slot :
      (note : Notification) (job : EvaluationJob) (m : Monitor)
      → slot_of (hand_over x config nodes note job m) ≡ slot_of m
  unfolding hand_over count_delivery slot_of
  hand_over_slot note job m = elim (Bool-cases note.channel_open) [
    | inl e ↦ rw e refl
    | inr e ↦ rw e refl
  ]

  look_slot :
      (note : Notification) (sig : Bytes) (m : Monitor)
      → slot_of (look x config nodes note sig m) ≡ slot_of m
  unfolding look slot_of
  look_slot note sig m = elim (Result-cases (fetch_delivery_job x config (nodes m.handled) sig)) [
    | inl (some job, e) ↦ rw (e, look) (hand_over_slot note job m)
    | inl (none, e) ↦ rw (e, look) refl
    | inr (f, e) ↦ rw (e, look) refl
  ]

  noticed_slot : (note : Notification) (m : Monitor) → slot_of m ≤ slot_of (noticed note m)
  unfolding touch raise_health raise slot_of
  noticed_slot note m = ground arith

  on_notification_slot :
      (note : Notification) (m : Monitor)
      → slot_of m ≤ slot_of (on_notification x config nodes note m)
  unfolding on_notification
  on_notification_slot note m =
      let up = noticed_slot note m in
      elim (Bool-cases (has_delivery note.logs)) [
        | inr e ↦ rw (e, on_notification) up
        | inl e ↦ elim (Option-cases (x.parse_signature note.signature)) [
          | inl k ↦ rw (e, on_notification) (rw k up)
          | inr (sig, k) ↦
              rw (e, on_notification)
                (rw k (omega (arith, up, look_slot note sig (noticed note m))))
        ]
      ]

  Step-slot : (m n : Monitor) → Step x config nodes m n → slot_of m ≤ slot_of n
  unfolding disconnect connect slot_of
  Step-slot m _ (no_socket e phase) = omega arith
  Step-slot m _ (no_subscription e phase) = omega arith
  Step-slot m _ (subscribed now phase) = omega arith
  Step-slot m _ (notified note phase) = on_notification_slot note m
  Step-slot m _ (ended phase) = omega arith

  Reach-slot : (start m : Monitor) → Reach x config nodes start m → slot_of start ≤ slot_of m
  Reach-slot start _ here = omega arith
  Reach-slot start m (after_step {m = k} path step) =
      omega (arith, Reach-slot start k path, Step-slot k m step)

  -- The highest slot that the monitor has seen never falls, whatever it reaches, reconnections included.
  pub Reach-last_seen_slot :
      (start m : Monitor)
      → Reach x config nodes start m
      → start.health.last_seen_slot ≤ m.health.last_seen_slot
  unfolding slot_of
  Reach-last_seen_slot start m path = Reach-slot start m path
