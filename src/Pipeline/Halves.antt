-- ===== src/Pipeline/Halves.antt =====
-- src/pipeline.rs, `run_pipeline`: the rules by which its two halves are taken apart, the documents and
-- the verdict. Until the settlement nothing is handed over.
use oracle_qa.Prelude.{◌≡◌, refl, ap, sym, ◌∙◌, true, String, Bytes, some, Result, ok, err}
use oracle_qa.Error.{OracleError}
use oracle_qa.Types.{EvaluationJob, EvaluationResult, SlaDocument, DeliveryEvidence}
use oracle_qa.State.{OracleConfig}
use oracle_qa.External.{Deps}
use oracle_qa.Evaluator.Checks.{evaluate}
use oracle_qa.Fetch.Integrity.{Verified, fetch_evidence-Verified}
use oracle_qa.Settler.Chain.{is_eligible}
use oracle_qa.Settler.Confirm.{compute_resolution_hash}
use oracle_qa.Pipeline.Exec.{Shared, Exec, pure, lift, ◌>>=◌, bind_rule, lift_facts, unless_facts}
use oracle_qa.Pipeline.Run.{PipelineOutcome, Surroundings, fetch, submit, run_pipeline}

module _ (x : Deps) (config : OracleConfig) (env : Surroundings) (job : EvaluationJob) where
  open x use {Value, Object}

  fetch_facts :
      {T : Type 0} (parse : Bytes → Result String T) (parse_error : String → OracleError)
      (hash : Bytes) (s t : Shared) (r : Result OracleError T)
      → fetch x config env parse parse_error hash s ≡ (r, t)
      → (t.submitted ≡ s.submitted) × ((v : T) → r ≡ ok v → Verified x parse env.net hash v)
  unfolding fetch
  fetch_facts parse parse_error hash s t r e = (
    ap (λ o. o.1.submitted) (sym e),
    λ v is_ok.
        fetch_evidence-Verified x config parse parse_error env.net hash s.stats s.requests v
          (ap (λ o. o.0) e ∙ is_ok),
  )

  abbrev pub Kept : Shared → Shared → Type 0
  Kept s t = t.submitted ≡ s.submitted

  -- The second half of a run, from the two documents on.
  abbrev pub conclude : SlaDocument Value → DeliveryEvidence Value Object → Exec PipelineOutcome
  conclude sla evidence = do
    result ← lift (evaluate x config.strict_profile sla evidence)
    hash ← lift (compute_resolution_hash x job sla result)
    sig ← submit x config env job result hash
    pure (record { result = result; signature = some sig; resolution_hash = hash })

  module _ {ℓ} (s : Shared) (P : Result OracleError PipelineOutcome × Shared → Type ℓ) where
    pub documents_rule :
        ((e : OracleError) (t : Shared) → Kept s t → P (err e, t))
        → ((sla : SlaDocument Value) (evidence : DeliveryEvidence Value Object) (t : Shared)
            → Kept s t
            → is_eligible x
                (env.payment_reply job.payment_pubkey)
                env.clock_reply
                env.wall_clock
                config.oracle_pubkey
              ≡ ok true
            → Verified x x.sla_from_slice env.net job.sla_hash sla
            → Verified x x.delivery_from_slice env.net job.delivery_hash evidence
            → P (conclude sla evidence t))
        → P (run_pipeline x config env job s)
    unfolding run_pipeline
    documents_rule stop go =
        bind_rule _ _ s P
          (λ e t k. stop e t (ap (λ (t : Shared). t.submitted) (lift_facts _ _ s t k).1))
          λ able t₀ k₀.
            let (able_is, here₀) = lift_facts _ _ s t₀ k₀ in
            let kept₀ = ap (λ (t : Shared). t.submitted) here₀ in
            bind_rule _ _ t₀ P
              (λ e t k.
                stop e t
                  (ap (λ (t : Shared). t.submitted) (unless_facts able _ _ t₀ t k).0 ∙ kept₀))
              λ u t₁ k₁.
                let (here₁, was_able) = unless_facts able _ _ t₀ t₁ k₁ in
                let kept₁ = ap (λ (t : Shared). t.submitted) here₁ ∙ kept₀ in
                bind_rule _ _ t₁ P
                  (λ e t k. stop e t ((fetch_facts _ _ job.sla_hash t₁ t _ k).0 ∙ kept₁))
                  λ sla t₂ k₂.
                    let (here₂, sla_ok) = fetch_facts _ _ job.sla_hash t₁ t₂ _ k₂ in
                    bind_rule _ _ t₂ P
                      (λ e t k.
                        stop e t ((fetch_facts _ _ job.delivery_hash t₂ t _ k).0 ∙ (here₂ ∙ kept₁)))
                      λ evidence t₃ k₃.
                        let (here₃, evidence_ok) = fetch_facts _ _ job.delivery_hash t₂ t₃ _ k₃ in
                        go sla evidence t₃ (here₃ ∙ (here₂ ∙ kept₁))
                          (able_is ∙ ap ok (was_able u refl)) (sla_ok sla refl)
                          (evidence_ok evidence refl)

    pub conclude_rule :
        (sla : SlaDocument Value) (evidence : DeliveryEvidence Value Object) (t : Shared)
        → Kept s t
        → ((e : OracleError) (t : Shared) → Kept s t → P (err e, t))
        → ((result : EvaluationResult) (hash : Bytes) (t u : Shared) (e : OracleError)
            → Kept s t
            → evaluate x config.strict_profile sla evidence ≡ ok result
            → submit x config env job result hash t ≡ (err e, u)
            → P (err e, u))
        → ((result : EvaluationResult) (hash : Bytes) (t u : Shared) (sig : String)
            → Kept s t
            → evaluate x config.strict_profile sla evidence ≡ ok result
            → compute_resolution_hash x job sla result ≡ ok hash
            → submit x config env job result hash t ≡ (ok sig, u)
            → P (ok (record { result = result; signature = some sig; resolution_hash = hash }), u))
        → P (conclude sla evidence t)
    conclude_rule sla evidence t kept stop failed done =
        bind_rule _ _ t P
          (λ e u k. stop e u (ap (λ (t : Shared). t.submitted) (lift_facts _ _ t u k).1 ∙ kept))
          λ result t₁ k₁.
            let (verdict, here₁) = lift_facts _ _ t t₁ k₁ in
            let kept₁ = ap (λ (t : Shared). t.submitted) here₁ ∙ kept in
            bind_rule _ _ t₁ P
              (λ e u k.
                stop e u (ap (λ (t : Shared). t.submitted) (lift_facts _ _ t₁ u k).1 ∙ kept₁))
              λ hash t₂ k₂.
                let (hashed, here₂) = lift_facts _ _ t₁ t₂ k₂ in
                let kept₂ = ap (λ (t : Shared). t.submitted) here₂ ∙ kept₁ in
                bind_rule _ _ t₂ P (λ e u k. failed result hash t₂ u e kept₂ verdict k)
                  (λ sig u k. done result hash t₂ u sig kept₂ verdict hashed k)
