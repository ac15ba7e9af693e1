-- ===== src/Monitor/News.antt =====
-- src/chain.rs, `monitor_deliveries`: what one of its steps sends.
use oracle_qa.Prelude.{
  ◌+◌, ◌-◌, ◌≡◌, ◌⊎◌, inl, inr, refl, ap, ℕ, Bytes, ◌∷◌, none, some, length, take, In, All, arith,
  Bool-cases, Option-cases, Result-cases,
}
use oracle_qa.Types.{EvaluationJob}
use oracle_qa.State.{OracleConfig}
use oracle_qa.External.{Deps}
use oracle_qa.Monitor.Delivery.{Rpc, fetch_delivery_job}
use oracle_qa.Monitor.Justified.{Justified, fetch_delivery_job-Justified}
use oracle_qa.Monitor.Subscription.{
  Monitor, Notification, has_delivery, touch, hand_over, look, on_notification, Step, no_socket,
  no_subscription, subscribed, notified, ended,
}

module _ (x : Deps) (config : OracleConfig) (nodes : ℕ → Rpc) where
  -- The job is that of a transaction, by the node's replies while the latest notification was handled.
  abbrev pub IsNew : Monitor → EvaluationJob → Type 0
  IsNew n job = (sig : Bytes) × Justified x config (nodes n.handled) sig job

  -- Nothing was sent, or one job, which is new.
  abbrev SendsOne : Monitor → Monitor → Type 0
  SendsOne m n = (n.sent ≡ m.sent) ⊎ ((job : EvaluationJob) × (n.sent ≡ job ∷ m.sent) × IsNew n job)

  hand_over-SendsOne :
      (note : Notification) (job : EvaluationJob) (m : Monitor)
      → IsNew m job
      → SendsOne m (hand_over x config nodes note job m)
  unfolding hand_over
  hand_over-SendsOne note job m new = elim (Bool-cases note.channel_open) [
    | inl e ↦ rw e (inr (job, refl, new))
    | inr e ↦ rw e (inl refl)
  ]

  look-SendsOne :
      (note : Notification) (sig : Bytes) (m : Monitor)
      → SendsOne m (look x config nodes note sig m)
  unfolding look
  look-SendsOne note sig m =
      elim (Result-cases (fetch_delivery_job x config (nodes m.handled) sig)) [
        | inl (some job, e) ↦
            rw (e, look)
              (hand_over-SendsOne note job m
                (sig, fetch_delivery_job-Justified x config (nodes m.handled) sig job e))
        | inl (none, e) ↦ rw (e, look) (inl refl)
        | inr (f, e) ↦ rw (e, look) (inl refl)
      ]

  on_notification-SendsOne :
      (note : Notification) (m : Monitor) → SendsOne m (on_notification x config nodes note m)
  unfolding on_notification
  on_notification-SendsOne note m =
      let seen : Monitor = record m {
        health = touch note.now note.slot m.health;
        handled = m.handled + 1;
      } in
      elim (Bool-cases (has_delivery note.logs)) [
        | inr e ↦ rw (e, on_notification) (inl refl)
        | inl e ↦ elim (Option-cases (x.parse_signature note.signature)) [
          | inl k ↦ rw (e, on_notification) (rw k (inl refl))
          | inr (sig, k) ↦ rw (e, on_notification) (rw k (look-SendsOne note sig seen))
        ]
      ]

  Step-SendsOne : (m n : Monitor) → Step x config nodes m n → SendsOne m n
  Step-SendsOne m _ (no_socket e phase) = inl refl
  Step-SendsOne m _ (no_subscription e phase) = inl refl
  Step-SendsOne m _ (subscribed now phase) = inl refl
  Step-SendsOne m _ (notified note phase) = on_notification-SendsOne note m
  Step-SendsOne m _ (ended phase) = inl refl

  -- The jobs that a step adds to those sent are new.
  pub Step-IsNew :
      (m n : Monitor)
      → Step x config nodes m n
      → let added = take (length n.sent - length m.sent) n.sent in
        All (λ job. In job added × IsNew n job) added
  Step-IsNew m n step = elim (Step-SendsOne m n step) [
    | inl same ↦
        let none_left : length n.sent - length m.sent ≡ 0 = omega (arith, ap length same) in
        rw none_left tt
    | inr (job, more, new) ↦
        let one : length n.sent - length m.sent ≡ 1 = omega (arith, ap length more) in
        rw one (rw more ((inl refl, new), tt))
  ]
