-- ===== src/Server/Liveness.antt =====
-- src/server.rs, `health`, over the states of the live monitor.
use oracle_qa.Prelude.{ℕ, ◌≡◌, ◌↔◌, refl, ap, String, Bool, true, false, if◌then◌else◌, arith}
use oracle_qa.Prelude.Text.{str_eq}
use oracle_qa.State.{OracleConfig}
use oracle_qa.External.{Deps}
use oracle_qa.Monitor.Delivery.{Rpc}
use oracle_qa.Monitor.Subscription.{Monitor, Reach}
use oracle_qa.Monitor.Reachable.{IsGood, Reach-IsGood, subscribed_in}
use oracle_qa.Server.Health.{Probes, health, is_ok}

healthy_iff :
    (b : Bool) → (◌≡◌ {A = String} (if b then "healthy" else "degraded") "healthy") ↔ (b ≡ true)
healthy_iff true = (λ h. refl, λ h. refl)
healthy_iff false = (
  λ h. absurd (let e : false ≡ true = ap (λ (u : String). str_eq u "healthy") h in cc e),
  λ h. absurd (cc h),
)

module _ (x : Deps) (config : OracleConfig) (nodes : ℕ → Rpc) where
  -- In every state that the live monitor reaches from a good one, the health check answers 200 exactly
  -- when the node tells its slot and a subscription was open when the monitor last acted; its text says
  -- healthy by the node alone, so that a 503 can say it too.
  pub health-Reach :
      (start m : Monitor) (probes : Probes) (database : Bool)
      → Reach x config nodes start m
      → IsGood x config nodes start
      → (((health x config probes database m.health).code ≡ 200)
          ↔ ((is_ok probes.slot ≡ true) × (subscribed_in m.phase ≡ true)))
        × (((health x config probes database m.health).status ≡ "healthy")
            ↔ (is_ok probes.slot ≡ true))
  unfolding health
  health-Reach start m probes database path good =
      let flag = (Reach-IsGood x config nodes start m path good).0 in
      (ground (arith, flag), healthy_iff (is_ok probes.slot))
