-- ===== src/Server/Answers.antt =====
-- src/server.rs, `manual_evaluate`: what an answer without an error says.
use oracle_qa.Prelude.{
  ℕ, ◌≡◌, refl, ◌∙◌, inl, inr, Bytes, List, [], ◌∷◌, ◌++◌, Option, none, some, Result, ok, err,
  Option-cases,
}
use oracle_qa.Error.{OracleError}
use oracle_qa.Types.{EvaluationJob}
use oracle_qa.State.{OracleConfig}
use oracle_qa.External.{Deps}
use oracle_qa.Settler.Chain.{read_payment}
use oracle_qa.Settler.Confirm.{ConfirmOracle}
use oracle_qa.Pipeline.Run.{PipelineOutcome, run_pipeline}
use oracle_qa.Pipeline.Report.{IsReal, run_pipeline-IsReal}
use oracle_qa.Ledger.Calls.{Fate, record_queued}
use oracle_qa.Server.Access.{Refusal, authorize_manual_evaluate}
use oracle_qa.Server.Window.{HasAccess, authorize_iff}
use oracle_qa.Server.Manual.{
  Request, Situation, AppState, ManualEvaluateResponse, answer, note_ledger, conclude, evaluate_job,
  on_payment, on_pubkey, on_access, manual_evaluate,
}

module _ (x : Deps) (config : OracleConfig) (fates : ℕ → Fate) (req : Request)
    (sit : Situation) where
  -- The answer tells of a payment that made a job, and of one transaction handed over for it.
  pub record Settles (s : AppState) (out : ManualEvaluateResponse × AppState) : Type 0 where
    pub pk : Bytes
    pub job : EvaluationJob
    pub outcome : PipelineOutcome
    pub tx : ConfirmOracle
    pub parses : x.parse_pubkey req.payment_pubkey ≡ some pk
    pub pending : read_payment x (sit.account pk) pk config.oracle_pubkey ≡ ok (some job)
    pub submitted : out.1.shared.submitted ≡ s.shared.submitted ++ tx ∷ []
    pub real : IsReal x config sit.env job outcome tx
    pub told : out.0 ≡ answer outcome

  concluded :
      (pk : Bytes) (job : EvaluationJob) (before : List ConfirmOracle)
      (result : Result OracleError PipelineOutcome) (s : AppState)
      → (conclude x config fates sit job result s).0.error ≡ none
      → (o : PipelineOutcome) × (result ≡ ok o)
        × ((conclude x config fates sit job result s).1.shared.submitted ≡ s.shared.submitted)
        × ((conclude x config fates sit job result s).0 ≡ answer o)
  unfolding conclude
  concluded pk job before (ok o) s h = (o, refl, refl, refl)
  concluded pk job before (err e) s h = cc

  evaluated :
      (pk : Bytes) (job : EvaluationJob) (s : AppState)
      → x.parse_pubkey req.payment_pubkey ≡ some pk
      → read_payment x (sit.account pk) pk config.oracle_pubkey ≡ ok (some job)
      → (evaluate_job x config fates sit job s).0.error ≡ none
      → Settles s (evaluate_job x config fates sit job s)
  unfolding evaluate_job
  evaluated pk job s parses pending h = elim (Option-cases sit.cut) [
    | inr (left, e) ↦ absurd (cc (rw (e, evaluate_job) at h))
    | inl e ↦
        (let run = run_pipeline x config sit.env job s.shared in
          let queued = record (note_ledger x config fates (record_queued x fates job) s) {
            shared = run.1;
          } in
          let (o, good, kept, told) =
            concluded pk job s.shared.submitted run.0 queued (rw (e, evaluate_job) at h) in
          let (tx, sent, real) = run_pipeline-IsReal x config sit.env job s.shared o good in
          rw (e, evaluate_job)
            (record {
              pk = pk;
              job = job;
              outcome = o;
              tx = tx;
              parses = parses;
              pending = pending;
              submitted = kept ∙ sent;
              real = real;
              told = told;
            }))
  ]

  on_payment-Settles :
      (pk : Bytes) (s : AppState) (reply : Result OracleError (Option EvaluationJob))
      → x.parse_pubkey req.payment_pubkey ≡ some pk
      → read_payment x (sit.account pk) pk config.oracle_pubkey ≡ reply
      → (on_payment x config fates sit reply s).0.error ≡ none
      → Settles s (on_payment x config fates sit reply s)
  on_payment-Settles pk s (ok (some job)) parses e h = evaluated pk job s parses e h
  on_payment-Settles pk s (ok none) parses e h = cc
  on_payment-Settles pk s (err m) parses e h = cc

  on_pubkey-Settles :
      (s : AppState) (key : Option Bytes)
      → x.parse_pubkey req.payment_pubkey ≡ key
      → (on_pubkey x config fates sit key s).0.error ≡ none
      → Settles s (on_pubkey x config fates sit key s)
  on_pubkey-Settles s none e h = cc
  on_pubkey-Settles s (some pk) e h =
      on_payment-Settles pk s (read_payment x (sit.account pk) pk config.oracle_pubkey) e refl h

  on_access-Settles :
      (s : AppState) (access : Result Refusal (Unit {0}))
      → (on_access x config fates req sit access s).0.error ≡ none
      → (access ≡ ok tt) × Settles s (on_access x config fates req sit access s)
  on_access-Settles s (err r) h = cc
  on_access-Settles s (ok u) h =
      (refl, on_pubkey-Settles s (x.parse_pubkey req.payment_pubkey) refl h)

  -- An answer without an error was given to a request with access only, and tells of a pending payment
  -- of this oracle for which exactly one transaction was handed over and confirmed: it names that
  -- payment and its delivery, this oracle signs it, it carries the answer's verdict, and the answer its
  -- signature.
  pub manual_evaluate-Settles :
      (s : AppState)
      → (manual_evaluate x config fates req sit s).0.error ≡ none
      → HasAccess config x req.headers × Settles s (manual_evaluate x config fates req sit s)
  unfolding manual_evaluate
  manual_evaluate-Settles s h =
      let (access, requests) =
        authorize_manual_evaluate x config req.headers req.arrival s.requests in
      let (through, settles) = on_access-Settles (record s { requests = requests }) access h in
      (
        ((authorize_iff config x req.headers req.arrival s.requests).0 through).0,
        record {
          pk = settles.pk;
          job = settles.job;
          outcome = settles.outcome;
          tx = settles.tx;
          parses = settles.parses;
          pending = settles.pending;
          submitted = settles.submitted;
          real = settles.real;
          told = settles.told;
        },
      )
