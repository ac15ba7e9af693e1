-- ===== src/Pipeline/Report.antt =====
-- src/pipeline.rs: what a run that reports success has done, and when a run succeeds.
use oracle_qa.Prelude.{
  ℕ, ◌≡◌, refl, arith, ap, sym, ◌∙◌, Bool, String, Bytes, [], ◌∷◌, ◌++◌, some, Result, ok,
  if◌then◌else◌,
}
use oracle_qa.Error.{OracleError}
use oracle_qa.Types.{EvaluationJob, EvaluationResult}
use oracle_qa.State.{OracleConfig}
use oracle_qa.External.{Deps}
use oracle_qa.Settler.Confirm.{ConfirmOracle, confirm_oracle, settle}
use oracle_qa.Pipeline.Exec.{Shared}
use oracle_qa.Pipeline.Run.{PipelineOutcome, Surroundings, submit, run_pipeline}
use oracle_qa.Pipeline.Halves.{documents_rule, conclude_rule}

module _ (x : Deps) (config : OracleConfig) (env : Surroundings) (job : EvaluationJob) where
  open x use {Value, Object}

  -- The transaction that an outcome speaks of: this oracle signs it, it names the job's payment and
  -- delivery, and it is confirmed under the outcome's signature.
  pub record IsReal (o : PipelineOutcome) (tx : ConfirmOracle) : Type 0 where
    pub signature : String
    pub confirmed : env.send_reply ≡ ok signature
    pub reported : o.signature ≡ some signature
    pub signer : tx.oracle ≡ config.oracle_pubkey
    pub payment : tx.payment_uid_hex ≡ x.hex job.payment_uid
    pub delivery : tx.delivery_hash ≡ job.delivery_hash
    pub state : tx.resolution_state ≡ (if o.result.approved then 1 else 2)
    pub reason : tx.resolution_reason ≡ o.result.resolution_reason
    pub hash : tx.resolution_hash ≡ o.resolution_hash

  abbrev Reports : Shared → Result OracleError PipelineOutcome × Shared → Type 0
  Reports s out =
      (o : PipelineOutcome)
      → out.0 ≡ ok o
      → (tx : ConfirmOracle) × (out.1.submitted ≡ s.submitted ++ tx ∷ []) × IsReal o tx

  settle_ok :
      (approved : Bool) (reason : ℕ) (hash : Bytes) (sig : String)
      → let d = settle x config env.blockhash_reply env.send_reply job approved reason hash in
        d.result ≡ ok sig
        → (env.send_reply ≡ ok sig)
          × (d.submitted ≡ confirm_oracle x config job approved reason hash ∷ [])
  unfolding settle
  settle_ok approved reason hash sig h = ground arith

  submit_ok :
      (result : EvaluationResult) (hash : Bytes) (s t : Shared) (sig : String)
      → submit x config env job result hash s ≡ (ok sig, t)
      → (env.send_reply ≡ ok sig)
        × (t.submitted
            ≡ s.submitted
              ++ confirm_oracle x config job result.approved result.resolution_reason hash ∷ [])
  unfolding submit
  submit_ok result hash s t sig e =
      let (sent, one) =
        settle_ok result.approved result.resolution_reason hash sig (ap (λ o. o.0) e) in
      (sent, ap (λ o. o.1.submitted) (sym e) ∙ ap (λ l. s.submitted ++ l) one)

  real :
      (result : EvaluationResult) (hash : Bytes) (s t u : Shared) (sig : String)
      (o : PipelineOutcome)
      → t.submitted ≡ s.submitted
      → submit x config env job result hash t ≡ (ok sig, u)
      → record { result = result; signature = some sig; resolution_hash = hash } ≡ o
      → (tx : ConfirmOracle) × (u.submitted ≡ s.submitted ++ tx ∷ []) × IsReal o tx
  unfolding confirm_oracle
  real result hash s t u sig o kept k same =
      let tx = confirm_oracle x config job result.approved result.resolution_reason hash in
      let (confirmed, one) = submit_ok result hash t u sig k in
      (
        tx,
        one ∙ ap (λ l. l ++ tx ∷ []) kept,
        record {
          signature = sig;
          confirmed = confirmed;
          reported = ap (λ (o : PipelineOutcome). o.signature) (sym same);
          signer = refl;
          payment = refl;
          delivery = refl;
          state = ap (λ (o : PipelineOutcome). if o.result.approved then 1 else 2) same;
          reason = ap (λ (o : PipelineOutcome). o.result.resolution_reason) same;
          hash = ap (λ (o : PipelineOutcome). o.resolution_hash) same;
        },
      )

  reports : (s : Shared) → Reports s (run_pipeline x config env job s)
  reports s =
      documents_rule x config env job s (Reports s) (λ e t kept o h. cc)
        λ sla evidence t kept able sla_ok evidence_ok.
          conclude_rule x config env job s (Reports s) sla evidence t kept (λ e t kept o h. cc)
            (λ result hash t u e kept verdict k o h. cc)
            (λ result hash t u sig kept verdict hashed k o h.
              real result hash s t u sig o kept k (cc))

  -- A run that reports an outcome has handed over exactly one transaction, confirmed under the
  -- signature that the outcome names, and the transaction is this oracle's, names the job's payment and
  -- delivery, and carries the outcome's verdict, reason and resolution hash.
  pub run_pipeline-IsReal :
      (s : Shared) (o : PipelineOutcome)
      → (run_pipeline x config env job s).0 ≡ ok o
      → (tx : ConfirmOracle) × ((run_pipeline x config env job s).1.submitted
          ≡ s.submitted ++ tx ∷ [])
        × IsReal o tx
  run_pipeline-IsReal s o h = reports s o h
