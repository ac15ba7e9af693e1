-- ===== src/Service/Owed.antt =====
-- src/main.rs: why the service hands over each of its transactions, in every order of its tasks.
use oracle_qa.Prelude.{
  ℕ, ◌+◌, ◌≤◌, ◌<◌, ◌≡◌, ◌⊎◌, inl, inr, ap, sym, subst, List, [], ◌∷◌, ◌++◌, arith, length,
  length-append, All,
}
use oracle_qa.Types.{EvaluationJob}
use oracle_qa.State.{OracleConfig}
use oracle_qa.External.{Deps}
use oracle_qa.Settler.Confirm.{ConfirmOracle}
use oracle_qa.Monitor.Delivery.{Rpc}
use oracle_qa.Monitor.Backfill.{Surroundings as History, raise_health}
use oracle_qa.Monitor.Subscription.{Monitor, Step}
use oracle_qa.Monitor.Restart.{IsCatch}
use oracle_qa.Monitor.Reachable.{IsGood, Step-IsGood}
use oracle_qa.Monitor.News.{Step-IsNew}
use oracle_qa.Ledger.Calls.{Fate}
use oracle_qa.Server.Manual.{Request, Situation, manual_evaluate}
use oracle_qa.Server.Origin.{IsPartial, manual_evaluate-HandsOver}
use oracle_qa.Worker.Process.{Round}
use oracle_qa.Worker.Transactions.{IsPart, process-Grows}
use oracle_qa.Service.Steps.{
  Service, sent_since, with_health, app_of, leave_app, Move, observed, caught_up, scanned, worked,
  asked, Run, at_start, then_move,
}
use oracle_qa.Service.Causes.{
  earlier, just_now, sent_live, sent_back, Sent, by_worker, by_request, HandsIt, IsOwed,
}

module _ {A : Type 0} (P : A → Type 0) where
  pub All-append : (xs ys : List A) → All P xs → All P ys → All P (xs ++ ys)
  All-append [] ys h k = k
  All-append (y ∷ xs) ys (p, h) k = (p, All-append xs ys h k)

module _ {A : Type 0} where
  All-map : (P Q : A → Type 0) (xs : List A) → ((a : A) → P a → Q a) → All P xs → All Q xs
  All-map P Q [] f h = tt
  All-map P Q (y ∷ xs) f (p, h) = (f y p, All-map P Q xs f h)

-- `history` is what the backfill met.
module _ (x : Deps) (config : OracleConfig) (fates : ℕ → Fate) (nodes : ℕ → Rpc)
    (history : History) where
  abbrev PathTo : Service → Service → Type 0
  PathTo = Run x config fates nodes

  abbrev Turn : Service → Service → Type 0
  Turn = Move x config fates nodes

  abbrev WasSent : (start s : Service) → PathTo start s → EvaluationJob → Type 0
  WasSent start s run job = Sent x config fates nodes history start job s run

  abbrev WasHanded : (start s : Service) → PathTo start s → ConfirmOracle → Type 0
  WasHanded = IsOwed x config fates nodes history

  -- After the run: the monitor's flag and jobs are right, each job that the backfill has still to send
  -- is a missed delivery, each job in the channel was sent by a move of the run, the channel is within
  -- its capacity, and a move of the run has handed over each transaction.
  pub record IsSafe (start s : Service) (run : PathTo start s) : Type 0 where
    pub monitor_good : IsGood x config nodes s.monitor
    pub pending_caught : All (IsCatch x config history) s.pending
    pub queue_sent : All (WasSent start s run) s.queue
    pub queue_bounded : length s.queue ≤ config.job_channel_capacity
    pub all_owed : All (WasHanded start s run) s.worker.shared.submitted

  module _ (start : Service) {s : Service} (run : PathTo start s) where
    -- What has happened stays so.
    sent_still :
        {t : Service} (move : Turn s t) (jobs : List EvaluationJob)
        → All (WasSent start s run) jobs
        → All (WasSent start t (then_move run move)) jobs
    sent_still move jobs = All-map _ _ jobs (λ job h. earlier run move h)

    handed_still :
        {t : Service} (move : Turn s t) (txs : List ConfirmOracle)
        → All (WasHanded start s run) txs
        → All (WasHanded start t (then_move run move)) txs
    handed_still move txs = All-map _ _ txs (λ tx h. earlier run move h)

    -- One more transaction, which the move has handed over, or none.
    extend-IsOwed :
        {t : Service} (move : Turn s t)
        → (t.worker.shared.submitted ≡ s.worker.shared.submitted)
          ⊎ ((tx : ConfirmOracle) × (t.worker.shared.submitted
                ≡ s.worker.shared.submitted ++ tx ∷ [])
              × HandsIt x config fates nodes history start tx s t run move)
        → All (WasHanded start s run) s.worker.shared.submitted
        → All (WasHanded start t (then_move run move)) t.worker.shared.submitted
    extend-IsOwed {t} move (inl same) h =
        subst (All (WasHanded start t (then_move run move))) (sym same)
          (handed_still move s.worker.shared.submitted h)
    extend-IsOwed {t} move (inr (tx, more, hands)) h =
        subst (All (WasHanded start t (then_move run move))) (sym more) (
          All-append (WasHanded start t (then_move run move)) s.worker.shared.submitted (tx ∷ [])
            (handed_still move s.worker.shared.submitted h) (just_now run move hands, tt))

    observed-IsSafe :
        (m : Monitor) (step : Step x config nodes s.monitor m)
        (fits : length s.queue + length (sent_since s.monitor m) ≤ config.job_channel_capacity)
        → IsSafe start s run
        → IsSafe start _ (then_move run (observed m step fits))
    observed-IsSafe m step fits safe =
        let good = Step-IsGood x config nodes s.monitor m step safe.monitor_good in
        let new = sent_since s.monitor m in
        let move = observed m step fits in
        record {
          monitor_good = good;
          pending_caught = safe.pending_caught;
          queue_sent = All-append _ s.queue new (sent_still move s.queue safe.queue_sent) (
              All-map _ _ new
                (λ job (there, found). just_now run move (sent_live m step fits there found))
                (Step-IsNew x config nodes s.monitor m step));
          queue_bounded = omega (arith, length-append s.queue new, fits);
          all_owed = handed_still move s.worker.shared.submitted safe.all_owed;
        }

    caught_up-IsSafe :
        (job : EvaluationJob) (rest : List EvaluationJob) (next : s.pending ≡ job ∷ rest)
        (fits : length s.queue < config.job_channel_capacity)
        → IsSafe start s run
        → IsSafe start _ (then_move run (caught_up job rest next fits))
    caught_up-IsSafe job rest next fits safe =
        let (caught, others) = subst (All (IsCatch x config history)) next safe.pending_caught in
        let move = caught_up job rest next fits in
        record {
          monitor_good = safe.monitor_good;
          pending_caught = others;
          queue_sent =
              All-append _ s.queue (job ∷ []) (sent_still move s.queue safe.queue_sent)
                (just_now run move (sent_back rest next fits caught), tt);
          queue_bounded = omega (arith, length-append s.queue (job ∷ []), fits);
          all_owed = handed_still move s.worker.shared.submitted safe.all_owed;
        }

    worked-IsSafe :
        (round : Round) (job : EvaluationJob) (rest : List EvaluationJob)
        (next : s.queue ≡ job ∷ rest) (depth : round.waiting ≡ length rest)
        (part : IsPart x config fates job round s.worker.shared)
        → IsSafe start s run
        → IsSafe start _ (then_move run (worked round job rest next depth part))
    worked-IsSafe round job rest next depth part safe =
        let (sent, others) = subst (All (WasSent start s run)) next safe.queue_sent in
        let move = worked round job rest next depth part in
        record {
          monitor_good = safe.monitor_good;
          pending_caught = safe.pending_caught;
          queue_sent = sent_still move rest others;
          queue_bounded = omega (arith, ap length next, safe.queue_bounded);
          all_owed =
              extend-IsOwed move
                (elim (process-Grows x config fates job round (with_health s) part) [
                  | inl same ↦ inl same
                  | inr (tx, more, why) ↦
                      inr (tx, more, by_worker run round job rest next depth part sent why more)
                ])
                safe.all_owed;
        }

    asked-HandsIt :
        (req : Request) (sit : Situation) (part : IsPartial x config fates req sit s.worker.shared)
        → let t =
            leave_app x config fates nodes
              (manual_evaluate x config fates req sit (app_of x config fates nodes s)).1
              s in
          (t.worker.shared.submitted ≡ s.worker.shared.submitted)
          ⊎ ((tx : ConfirmOracle) × (t.worker.shared.submitted
                ≡ s.worker.shared.submitted ++ tx ∷ [])
              × HandsIt x config fates nodes history start tx s t run (asked req sit part))
    asked-HandsIt req sit part =
        elim (manual_evaluate-HandsOver x config fates req sit (app_of x config fates nodes s)
          part) [
            | inl same ↦ inl same
            | inr (access, inl same) ↦ inl same
            | inr (access, inr (job, named, inl same)) ↦ inl same
            | inr (access, inr (job, named, inr (tx, more, why))) ↦
                inr (tx, more, by_request run req sit job part access named why more)
          ]

  Move-IsSafe :
      (start s t : Service) (run : PathTo start s) (move : Turn s t)
      → IsSafe start s run
      → IsSafe start t (then_move run move)
  unfolding raise_health
  Move-IsSafe start s _ run (observed m step fits) safe = observed-IsSafe start run m step fits safe
  Move-IsSafe start s _ run (caught_up job rest e fits) safe =
      caught_up-IsSafe start run job rest e fits safe
  Move-IsSafe start s _ run (scanned slot e) safe = record {
    monitor_good = safe.monitor_good;
    pending_caught = safe.pending_caught;
    queue_sent = sent_still start run (scanned slot e) s.queue safe.queue_sent;
    queue_bounded = safe.queue_bounded;
    all_owed = handed_still start run (scanned slot e) s.worker.shared.submitted safe.all_owed;
  }
  Move-IsSafe start s _ run (worked round job rest e depth part) safe =
      worked-IsSafe start run round job rest e depth part safe
  Move-IsSafe start s _ run (asked req sit part) safe = record {
    monitor_good = safe.monitor_good;
    pending_caught = safe.pending_caught;
    queue_sent = sent_still start run (asked req sit part) s.queue safe.queue_sent;
    queue_bounded = safe.queue_bounded;
    all_owed =
        extend-IsOwed start run (asked req sit part) (asked-HandsIt start run req sit part)
          safe.all_owed;
  }

  -- However the tasks of the service take turns, from a safe start: every transaction that the service
  -- has handed over in the state that a run leads to was handed over by a move of that run, by the
  -- worker's turn for a job that the live monitor or the backfill had put into the channel before, or by
  -- a request with access that named the payment, and the replies to that very move's run justify it.
  pub Run-IsSafe :
      (start s : Service) (run : PathTo start s) → IsSafe start start at_start → IsSafe start s run
  Run-IsSafe start _ at_start safe = safe
  Run-IsSafe start _ (then_move run move) safe =
      Move-IsSafe start _ _ run move (Run-IsSafe start _ run safe)
