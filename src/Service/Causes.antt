-- ===== src/Service/Causes.antt =====
-- src/main.rs: the moves of the service that a job in its channel and a transaction come from.
use oracle_qa.Prelude.{ℕ, ◌+◌, ◌≤◌, ◌<◌, ◌≡◌, List, [], ◌∷◌, ◌++◌, length, In}
use oracle_qa.Types.{EvaluationJob}
use oracle_qa.State.{OracleConfig}
use oracle_qa.External.{Deps}
use oracle_qa.Settler.Confirm.{ConfirmOracle}
use oracle_qa.Pipeline.Soundness.{IsJustified}
use oracle_qa.Monitor.Delivery.{Rpc}
use oracle_qa.Monitor.Backfill.{Surroundings}
use oracle_qa.Monitor.Subscription.{Monitor, Step}
use oracle_qa.Monitor.Restart.{IsCatch}
use oracle_qa.Monitor.News.{IsNew}
use oracle_qa.Ledger.Calls.{Fate}
use oracle_qa.Server.Window.{HasAccess}
use oracle_qa.Server.Manual.{Request, Situation, manual_evaluate}
use oracle_qa.Server.Origin.{Names, IsPartial}
use oracle_qa.Worker.Process.{Round}
use oracle_qa.Worker.Transactions.{IsPart}
use oracle_qa.Service.Steps.{
  Service, sent_since, take_job, app_of, leave_app, Move, observed, caught_up, worked, asked, Run,
  then_move,
}

-- `history` is what the backfill met.
module _ (x : Deps) (config : OracleConfig) (fates : ℕ → Fate) (nodes : ℕ → Rpc)
    (history : Surroundings) where
  abbrev PathTo : Service → Service → Type 0
  PathTo = Run x config fates nodes

  abbrev Turn : Service → Service → Type 0
  Turn = Move x config fates nodes

  -- One of the moves of a run, after those before it, is of the kind `E`.
  pub data Happened (start : Service) (E : (s t : Service) → PathTo start s → Turn s t → Type 0)
      : (s : Service) → PathTo start s → Type 0 where
    just_now :
        {s t : Service} (run : PathTo start s) (move : Turn s t)
        → E s t run move
        → Happened start E t (then_move run move)
    earlier :
        {s t : Service} (run : PathTo start s) (move : Turn s t)
        → Happened start E s run
        → Happened start E t (then_move run move)

  -- The move puts the job into the channel: the live monitor has found it in a transaction, by
  -- the node's replies while the notification of this move was handled, or the backfill has caught it up.
  pub data Sends (job : EvaluationJob) : (s t : Service) → Turn s t → Type 0 where
    sent_live :
        {s : Service} (m : Monitor) (step : Step x config nodes s.monitor m)
        (fits : length s.queue + length (sent_since s.monitor m) ≤ config.job_channel_capacity)
        → In job (sent_since s.monitor m)
        → IsNew x config nodes m job
        → Sends job s _ (observed m step fits)
    sent_back :
        {s : Service} (rest : List EvaluationJob) (next : s.pending ≡ job ∷ rest)
        (fits : length s.queue < config.job_channel_capacity)
        → IsCatch x config history job
        → Sends job s _ (caught_up job rest next fits)

  abbrev pub Sent : (start : Service) → EvaluationJob → (s : Service) → PathTo start s → Type 0
  Sent start job = Happened start (λ s t run move. Sends job s t move)

  -- The move hands over the transaction, and the replies to its run justify it: it is the worker's turn
  -- for a job that an earlier move sent, or a request with access that names the job's payment.
  pub data HandsIt (start : Service) (tx : ConfirmOracle)
      : (s t : Service) → PathTo start s → Turn s t → Type 0 where
    by_worker :
        {s : Service} (run : PathTo start s) (round : Round) (job : EvaluationJob)
        (rest : List EvaluationJob) (next : s.queue ≡ job ∷ rest)
        (depth : round.waiting ≡ length rest)
        (part : IsPart x config fates job round s.worker.shared)
        → Sent start job s run
        → IsJustified x config round.env job tx
        → (take_job x config fates nodes round job rest s).worker.shared.submitted
          ≡ s.worker.shared.submitted ++ tx ∷ []
        → HandsIt start tx s _ run (worked round job rest next depth part)
    by_request :
        {s : Service} (run : PathTo start s) (req : Request) (sit : Situation) (job : EvaluationJob)
        (part : IsPartial x config fates req sit s.worker.shared)
        → HasAccess config x req.headers
        → Names x config fates req sit job
        → IsJustified x config sit.env job tx
        → (leave_app x config fates nodes
            (manual_evaluate x config fates req sit (app_of x config fates nodes s)).1
            s).worker.shared.submitted
          ≡ s.worker.shared.submitted ++ tx ∷ []
        → HandsIt start tx s _ run (asked req sit part)

  -- A move of the run handed the transaction over.
  abbrev pub IsOwed : (start s : Service) → PathTo start s → ConfirmOracle → Type 0
  IsOwed start s run tx = Happened start (HandsIt start tx) s run
