-- ===== src/Server/Origin.antt =====
-- src/server.rs, `manual_evaluate`: what a request may hand over, whatever its answer.
use oracle_qa.Prelude.{
  ◌≡◌, ◌⊎◌, inl, inr, refl, ◌∙◌, ℕ, Bytes, [], ◌∷◌, ◌++◌, Option, none, some, Result, ok, err,
  Option-cases,
}
use oracle_qa.Error.{OracleError}
use oracle_qa.Types.{EvaluationJob}
use oracle_qa.State.{OracleConfig}
use oracle_qa.External.{Deps}
use oracle_qa.Settler.Chain.{read_payment}
use oracle_qa.Settler.Confirm.{ConfirmOracle}
use oracle_qa.Pipeline.Exec.{Shared}
use oracle_qa.Pipeline.Run.{PipelineOutcome, run_pipeline}
use oracle_qa.Pipeline.Soundness.{IsJustified, run_pipeline-Submits}
use oracle_qa.Ledger.Calls.{Fate, record_queued}
use oracle_qa.Server.Access.{Refusal, authorize_manual_evaluate}
use oracle_qa.Server.Window.{HasAccess, authorize_iff}
use oracle_qa.Server.Manual.{
  Request, Situation, AppState, note_ledger, conclude, evaluate_job, on_payment, on_pubkey,
  on_access, manual_evaluate,
}

module _ (x : Deps) (config : OracleConfig) (fates : ℕ → Fate) (req : Request)
    (sit : Situation) where
  -- The request names a payment of this oracle that is delivered and unresolved.
  abbrev pub Names : EvaluationJob → Type 0
  Names job =
      (pk : Bytes) × (x.parse_pubkey req.payment_pubkey ≡ some pk)
      × (read_payment x (sit.account pk) pk config.oracle_pubkey ≡ ok (some job))

  -- Nothing was handed over, or one transaction that is justified for the job.
  abbrev pub Adds : EvaluationJob → Shared → Shared → Type 0
  Adds job s t =
      (t.submitted ≡ s.submitted)
      ⊎ ((tx : ConfirmOracle) × (t.submitted ≡ s.submitted ++ tx ∷ [])
          × IsJustified x config sit.env job tx)

  -- A run that is cut off had handed over nothing yet, or what the whole run hands over.
  abbrev pub IsPartial : Shared → Type 0
  IsPartial s =
      (job : EvaluationJob) (left : Shared)
      → Names job
      → sit.cut ≡ some left
      → (left.submitted ≡ s.submitted)
        ⊎ (left.submitted ≡ (run_pipeline x config sit.env job s).1.submitted)

  IsPartial-Adds :
      (job : EvaluationJob) (s left : Shared)
      → Names job
      → sit.cut ≡ some left
      → IsPartial s
      → Adds job s left
  IsPartial-Adds job s left named e part = elim (part job left named e) [
    | inl nothing ↦ inl nothing
    | inr whole ↦ elim (run_pipeline-Submits x config sit.env job s) [
      | inl same ↦ inl (whole ∙ same)
      | inr (tx, more, why) ↦ inr (tx, whole ∙ more, why)
    ]
  ]

  -- Nothing was handed over, or one transaction for the payment that the request names.
  abbrev pub HandsOver : Shared → Shared → Type 0
  HandsOver s t = (t.submitted ≡ s.submitted) ⊎ ((job : EvaluationJob) × Names job × Adds job s t)

  conclude_shared :
      (job : EvaluationJob) (result : Result OracleError PipelineOutcome) (s : AppState)
      → (conclude x config fates sit job result s).1.shared.submitted ≡ s.shared.submitted
  unfolding conclude
  conclude_shared job (ok o) s = refl
  conclude_shared job (err e) s = refl

  evaluate_job-Adds :
      (job : EvaluationJob) (s : AppState)
      → Names job
      → IsPartial s.shared
      → Adds job s.shared (evaluate_job x config fates sit job s).1.shared
  unfolding evaluate_job
  evaluate_job-Adds job s named part = elim (Option-cases sit.cut) [
    | inr (left, e) ↦ rw (e, evaluate_job) (IsPartial-Adds job s.shared left named e part)
    | inl e ↦
        rw (e, evaluate_job)
          (rw
            (conclude_shared job (run_pipeline x config sit.env job s.shared).0
              (record (note_ledger x config fates (record_queued x fates job) s) {
                shared = (run_pipeline x config sit.env job s.shared).1;
              }))
            (run_pipeline-Submits x config sit.env job s.shared))
  ]

  on_payment-HandsOver :
      (pk : Bytes) (reply : Result OracleError (Option EvaluationJob)) (s : AppState)
      → x.parse_pubkey req.payment_pubkey ≡ some pk
      → read_payment x (sit.account pk) pk config.oracle_pubkey ≡ reply
      → IsPartial s.shared
      → HandsOver s.shared (on_payment x config fates sit reply s).1.shared
  on_payment-HandsOver pk (ok (some job)) s parses e part =
      inr (job, (pk, parses, e), evaluate_job-Adds job s (pk, parses, e) part)
  on_payment-HandsOver pk (ok none) s parses e part = inl refl
  on_payment-HandsOver pk (err m) s parses e part = inl refl

  on_pubkey-HandsOver :
      (key : Option Bytes) (s : AppState)
      → x.parse_pubkey req.payment_pubkey ≡ key
      → IsPartial s.shared
      → HandsOver s.shared (on_pubkey x config fates sit key s).1.shared
  on_pubkey-HandsOver none s e part = inl refl
  on_pubkey-HandsOver (some pk) s e part =
      on_payment-HandsOver pk (read_payment x (sit.account pk) pk config.oracle_pubkey) s e refl
        part

  on_access-HandsOver :
      (access : Result Refusal (Unit {0})) (s : AppState)
      → IsPartial s.shared
      → ((on_access x config fates req sit access s).1.shared.submitted ≡ s.shared.submitted)
        ⊎ ((access ≡ ok tt)
            × HandsOver s.shared (on_access x config fates req sit access s).1.shared)
  on_access-HandsOver (err r) s part = inl refl
  on_access-HandsOver (ok u) s part =
      inr (refl, on_pubkey-HandsOver (x.parse_pubkey req.payment_pubkey) s refl part)

  -- Whatever the answer is: nothing was handed over, or the request had access and one transaction was,
  -- for the payment that it names, and it is justified.
  pub manual_evaluate-HandsOver :
      (s : AppState)
      → IsPartial s.shared
      → ((manual_evaluate x config fates req sit s).1.shared.submitted ≡ s.shared.submitted)
        ⊎ (HasAccess config x req.headers
            × HandsOver s.shared (manual_evaluate x config fates req sit s).1.shared)
  unfolding manual_evaluate
  manual_evaluate-HandsOver s part =
      let (access, requests) =
        authorize_manual_evaluate x config req.headers req.arrival s.requests in
      elim (on_access-HandsOver access (record s { requests = requests }) part) [
        | inl same ↦ inl same
        | inr (through, hands) ↦
            inr (((authorize_iff config x req.headers req.arrival s.requests).0 through).0, hands)
      ]
