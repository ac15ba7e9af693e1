-- ===== src/Pipeline/Soundness.antt =====
-- src/pipeline.rs: what a run of the pipeline hands to the chain.
use oracle_qa.Prelude.{
  ℕ, ◌≡◌, ◌↔◌, refl, ap, sym, subst, ◌∙◌, ◌⊎◌, inl, inr, Bool, true, false, String, Bytes, [], ◌∷◌,
  ◌++◌, Result, ok, err, arith, if◌then◌else◌,
}
use mathlib.Core.List.{append-nil}
use oracle_qa.Error.{OracleError}
use oracle_qa.Types.{EvaluationJob, EvaluationResult, SlaDocument, DeliveryEvidence}
use oracle_qa.State.{OracleConfig}
use oracle_qa.External.{Deps}
use oracle_qa.Evaluator.Checks.{evaluate}
use oracle_qa.Evaluator.Verdict.{Complies, approved_iff_Complies}
use oracle_qa.Evaluator.Reason.{expected_reason, evaluate-expected_reason}
use oracle_qa.Fetch.Integrity.{Verified}
use oracle_qa.Settler.Chain.{is_eligible}
use oracle_qa.Settler.Confirm.{ConfirmOracle, confirm_oracle, settle}
use oracle_qa.Pipeline.Exec.{Shared}
use oracle_qa.Pipeline.Halves.{documents_rule, conclude_rule}
use oracle_qa.Pipeline.Run.{PipelineOutcome, Surroundings, submit, run_pipeline}

state_of :
    {P : Type 0} (approved : Bool)
    → (approved ≡ true) ↔ P
    → let state : ℕ = if approved then 1 else 2 in ((state ≡ 1) × P) ⊎ ((state ≡ 2) × (¬ P))
state_of true h = inl (refl, h.0 refl)
state_of false h = inr (refl, λ p. cc (h.1 p))

module _ (x : Deps) (config : OracleConfig) (env : Surroundings) (job : EvaluationJob) where
  open x use {Value, Object}

  -- Why a transaction may be handed over: the payment was eligible, both documents have the hashes
  -- that the job carries, and the transaction states the verdict on them.
  pub record IsJustified (tx : ConfirmOracle) : Type 0 where
    pub sla : SlaDocument Value
    pub evidence : DeliveryEvidence Value Object
    pub eligible :
        is_eligible x
          (env.payment_reply job.payment_pubkey)
          env.clock_reply
          env.wall_clock
          config.oracle_pubkey
        ≡ ok true
    pub sla_verified : Verified x x.sla_from_slice env.net job.sla_hash sla
    pub evidence_verified : Verified x x.delivery_from_slice env.net job.delivery_hash evidence
    pub verdict :
        ((tx.resolution_state ≡ 1) × Complies x config.strict_profile sla evidence)
        ⊎ ((tx.resolution_state ≡ 2) × (¬ Complies x config.strict_profile sla evidence))
    pub reason : tx.resolution_reason ≡ expected_reason x config.strict_profile sla evidence
    pub payment : tx.payment_uid_hex ≡ x.hex job.payment_uid
    pub delivery : tx.delivery_hash ≡ job.delivery_hash
    pub signer : tx.oracle ≡ config.oracle_pubkey

  -- What a run has handed over when it started from the transactions of `s`.
  abbrev pub Submits : Shared → Result OracleError PipelineOutcome × Shared → Type 0
  Submits s out =
      (out.1.submitted ≡ s.submitted)
      ⊎ ((tx : ConfirmOracle) × (out.1.submitted ≡ s.submitted ++ tx ∷ []) × IsJustified tx)

  submitted-settle :
      (approved : Bool) (reason : ℕ) (hash : Bytes)
      → ((settle x config env.blockhash_reply env.send_reply job approved reason hash).submitted
          ≡ [])
        ⊎ ((settle x config env.blockhash_reply env.send_reply job approved reason hash).submitted
            ≡ confirm_oracle x config job approved reason hash ∷ [])
  unfolding settle
  submitted-settle approved reason hash = ground arith

  submit_facts :
      (result : EvaluationResult) (hash : Bytes) (s t : Shared) (r : Result OracleError String)
      → submit x config env job result hash s ≡ (r, t)
      → (t.submitted ≡ s.submitted)
        ⊎ (t.submitted
            ≡ s.submitted
              ++ confirm_oracle x config job result.approved result.resolution_reason hash ∷ [])
  unfolding submit
  submit_facts result hash s t r e =
      elim (submitted-settle result.approved result.resolution_reason hash) [
        | inl nothing ↦ inl (
            ap (λ o. o.1.submitted) (sym e)
            ∙ ap (λ l. s.submitted ++ l) nothing
            ∙ append-nil s.submitted)
        | inr one ↦ inr (ap (λ o. o.1.submitted) (sym e) ∙ ap (λ l. s.submitted ++ l) one)
      ]

  justified :
      (sla : SlaDocument Value) (evidence : DeliveryEvidence Value Object)
      (result : EvaluationResult) (hash : Bytes)
      → is_eligible x
          (env.payment_reply job.payment_pubkey)
          env.clock_reply
          env.wall_clock
          config.oracle_pubkey
        ≡ ok true
      → Verified x x.sla_from_slice env.net job.sla_hash sla
      → Verified x x.delivery_from_slice env.net job.delivery_hash evidence
      → evaluate x config.strict_profile sla evidence ≡ ok result
      → IsJustified (confirm_oracle x config job result.approved result.resolution_reason hash)
  unfolding confirm_oracle
  justified sla evidence result hash able sla_ok evidence_ok verdict =
      let (r, is_r, approves) = approved_iff_Complies x config.strict_profile sla evidence in
      let (q, is_q, because) = evaluate-expected_reason x config.strict_profile sla evidence in
      let same : result ≡ r = cc (verdict, is_r) in
      let same' : result ≡ q = cc (verdict, is_q) in
      record {
        sla = sla;
        evidence = evidence;
        eligible = able;
        sla_verified = sla_ok;
        evidence_verified = evidence_ok;
        verdict = state_of result.approved (
            subst
              (λ (q : EvaluationResult).
                (q.approved ≡ true) ↔ Complies x config.strict_profile sla evidence)
              (sym same) approves);
        reason = ap (λ (r : EvaluationResult). r.resolution_reason) same' ∙ because;
        payment = refl;
        delivery = refl;
        signer = refl;
      }

  abbrev Handed : Shared → Shared → Type 0
  Handed s t =
      (t.submitted ≡ s.submitted)
      ⊎ ((tx : ConfirmOracle) × (t.submitted ≡ s.submitted ++ tx ∷ []) × IsJustified tx)

  submitted_or_not :
      (s t u : Shared) (result : EvaluationResult) (hash : Bytes)
      → t.submitted ≡ s.submitted
      → IsJustified (confirm_oracle x config job result.approved result.resolution_reason hash)
      → (u.submitted ≡ t.submitted)
        ⊎ (u.submitted
            ≡ t.submitted
              ++ confirm_oracle x config job result.approved result.resolution_reason hash ∷ [])
      → Handed s u
  submitted_or_not s t u result hash kept why (inl same) = inl (same ∙ kept)
  submitted_or_not s t u result hash kept why (inr more) =
      let tx = confirm_oracle x config job result.approved result.resolution_reason hash in
      inr (tx, more ∙ ap (λ l. l ++ tx ∷ []) kept, why)

  -- A run hands over one transaction at most, and only one that is justified: the payment was
  -- eligible by the replies of the chain; the SLA document and the delivery evidence were received
  -- and have the hashes that the job carries; the transaction approves (state 1) exactly when the
  -- delivery complies with the agreement, and rejects (state 2) otherwise; its reason is that of the
  -- first broken rule; and it names the job's payment and delivery, and this oracle.
  pub run_pipeline-Submits : (s : Shared) → Submits s (run_pipeline x config env job s)
  run_pipeline-Submits s =
      documents_rule x config env job s (Submits s) (λ e t kept. inl kept)
        λ sla evidence t kept able sla_ok evidence_ok.
          let why =
            λ (result : EvaluationResult) (hash : Bytes)
                (verdict : evaluate x config.strict_profile sla evidence ≡ ok result).
              justified sla evidence result hash able sla_ok evidence_ok verdict in
          conclude_rule x config env job s (Submits s) sla evidence t kept (λ e t kept. inl kept)
            (λ result hash t u e kept verdict k.
              submitted_or_not s t u result hash kept (why result hash verdict)
                (submit_facts result hash t u (err e) k))
            (λ result hash t u sig kept verdict hashed k.
              submitted_or_not s t u result hash kept (why result hash verdict)
                (submit_facts result hash t u (ok sig) k))
