-- ===== src/Pipeline/Completes.antt =====
-- src/pipeline.rs, `run_pipeline`: when a run comes to its end with a settlement.
use oracle_qa.Prelude.{
  ℕ, ◌<◌, ◌≡◌, ◌↔◌, ◌∙◌, refl, ap, true, String, Bytes, List, [], ◌∷◌, ◌++◌, some, Result, ok, All,
  bytes_eq_iff,
}
use oracle_qa.Error.{OracleError, sla_parse, delivery_parse}
use oracle_qa.Types.{EvaluationJob, EvaluationResult, SlaDocument, DeliveryEvidence}
use oracle_qa.State.{OracleConfig}
use oracle_qa.External.{Deps}
use oracle_qa.Evaluator.Verdict.{Complies, approved_iff_Complies}
use oracle_qa.Fetch.Loop.{response, check_body, check_auth_header}
use oracle_qa.Fetch.Mirrors.{url, SilentMirror, fetch_evidence-first_answer}
use oracle_qa.Settler.Chain.{is_eligible}
use oracle_qa.Settler.Confirm.{
  ConfirmOracle, compute_resolution_hash, payload_of, confirm_oracle, settle,
}
use oracle_qa.Pipeline.Exec.{Shared, Exec, ◌>>=◌}
use oracle_qa.Pipeline.Run.{PipelineOutcome, Surroundings, fetch, submit, run_pipeline}
use oracle_qa.Pipeline.Halves.{conclude}

bind_ok :
    {A B : Type 0} (m : Exec A) (f : A → Exec B) (a : A) (s t : Shared)
    → m s ≡ (ok a, t)
    → (m >>= f) s ≡ f a t
unfolding ◌>>=◌
bind_ok m f a s t e = rw e refl

module _ (x : Deps) (config : OracleConfig) (env : Surroundings) where
  open x use {Value, Object}

  -- A registry holds a document: one mirror answers every request for it with the committed bytes,
  -- which parse, the mirrors before it in the list give no document, and the `Authorization` value, if
  -- any, is a header.
  pub record Serves {T : Type 0} (parse : Bytes → Result String T)
      (parse_error : String → OracleError) (hash : Bytes) (document : T) : Type 0 where
    pub before : List String
    pub base : String
    pub after : List String
    pub code : ℕ
    pub raw : Bytes
    pub authorized :
        check_auth_header x config parse parse_error config.evidence_registry_auth_header ≡ ok tt
    pub listed : config.evidence_registry_urls ≡ before ++ base ∷ after
    pub quiet : All (SilentMirror x config parse parse_error env.net hash) before
    pub answers :
        (n : ℕ)
        → env.net n (url x config parse parse_error env.net hash base) ≡ response code (ok raw)
    pub good : x.is_success code ≡ true
    pub committed : x.digest raw ≡ hash
    pub parses : parse raw ≡ ok document

  -- What is left of the shared state but for the requests.
  abbrev Quiet : Shared → Shared → Type 0
  Quiet s t = (t.submitted ≡ s.submitted) × (t.stats ≡ s.stats)

  fetch_finds :
      {T : Type 0} (parse : Bytes → Result String T) (parse_error : String → OracleError)
      (hash : Bytes) (document : T) (s : Shared)
      → 0 < config.evidence_fetch_max_retries
      → Serves parse parse_error hash document
      → (t : Shared) × (fetch x config env parse parse_error hash s ≡ (ok document, t)) × Quiet s t
  unfolding fetch check_body
  fetch_finds parse parse_error hash document s some_try serves =
      let (result, stats) =
        fetch_evidence-first_answer x config parse parse_error env.net hash serves.base serves.code
          serves.raw serves.answers serves.good some_try serves.before serves.after s.stats
          s.requests serves.listed serves.authorized serves.quiet in
      let body : check_body x config parse parse_error hash serves.raw ≡ ok document =
        rw ((bytes_eq_iff (x.digest serves.raw) hash).1 serves.committed) (rw serves.parses refl) in
      (
        _,
        ap (λ r. (r, (fetch x config env parse parse_error hash s).1)) (result ∙ body),
        (refl, stats),
      )

  module _ (job : EvaluationJob) where
    documents :
        (sla : SlaDocument Value) (evidence : DeliveryEvidence Value Object) (s : Shared)
        → is_eligible x
            (env.payment_reply job.payment_pubkey)
            env.clock_reply
            env.wall_clock
            config.oracle_pubkey
          ≡ ok true
        → 0 < config.evidence_fetch_max_retries
        → Serves x.sla_from_slice sla_parse job.sla_hash sla
        → Serves x.delivery_from_slice delivery_parse job.delivery_hash evidence
        → (t : Shared) × (run_pipeline x config env job s
            ≡ conclude x config env job sla evidence t)
          × Quiet s t
    unfolding run_pipeline
    documents sla evidence s able some_try sla_there evidence_there =
        let (t, fetched, calm) =
          fetch_finds x.sla_from_slice sla_parse job.sla_hash sla s some_try sla_there in
        let (u, fetched2, calm2) =
          fetch_finds x.delivery_from_slice delivery_parse job.delivery_hash evidence t some_try
            evidence_there in
        (
          u,
          bind_ok _ _ true s s (ap (λ r. (r, s)) able)
              ∙ (bind_ok _ _ tt s s refl
                  ∙ (bind_ok _ _ sla s t fetched ∙ bind_ok _ _ evidence t u fetched2)),
          (calm2.0 ∙ calm.0, calm2.1 ∙ calm.1),
        )

    hashes :
        (sla : SlaDocument Value) (result : EvaluationResult) (bytes : Bytes)
        → x.resolution_to_vec (payload_of x job sla result) ≡ ok bytes
        → compute_resolution_hash x job sla result ≡ ok (x.digest bytes)
    unfolding compute_resolution_hash
    hashes sla result bytes e = rw (e, compute_resolution_hash) refl

    submits :
        (result : EvaluationResult) (hash block : Bytes) (sig : String) (s : Shared)
        → env.blockhash_reply ≡ ok block
        → env.send_reply ≡ ok sig
        → submit x config env job result hash s ≡ (
          ok sig,
          record s {
            submitted =
                s.submitted
                ++ confirm_oracle x config job result.approved result.resolution_reason hash ∷ [];
          },
        )
    unfolding submit settle
    submits result hash block sig s given sent = rw (given, submit, settle) (rw sent refl)

    -- A run succeeds where the payment is eligible, at least one attempt at a download is allowed, the
    -- registries hold both documents, the resolution can be encoded, and the chain gives a blockhash
    -- and confirms the transaction: it then hands over exactly that one transaction, with the verdict,
    -- approves exactly a delivery that complies, names the signature, and counts no failure.
    pub run_pipeline_completes :
        (sla : SlaDocument Value) (evidence : DeliveryEvidence Value Object) (s : Shared)
        (block : Bytes) (sig : String)
        → is_eligible x
            (env.payment_reply job.payment_pubkey)
            env.clock_reply
            env.wall_clock
            config.oracle_pubkey
          ≡ ok true
        → 0 < config.evidence_fetch_max_retries
        → Serves x.sla_from_slice sla_parse job.sla_hash sla
        → Serves x.delivery_from_slice delivery_parse job.delivery_hash evidence
        → ((result : EvaluationResult)
            → (bytes : Bytes) × (x.resolution_to_vec (payload_of x job sla result) ≡ ok bytes))
        → env.blockhash_reply ≡ ok block
        → env.send_reply ≡ ok sig
        → (o : PipelineOutcome) × (t : Shared) × (run_pipeline x config env job s ≡ (ok o, t))
          × (o.signature ≡ some sig)
          × ((o.result.approved ≡ true) ↔ Complies x config.strict_profile sla evidence)
          × (t.submitted
              ≡ s.submitted
                ++ confirm_oracle x config job o.result.approved o.result.resolution_reason
                    o.resolution_hash
                  ∷ [])
          × (t.stats ≡ s.stats)
    run_pipeline_completes sla evidence s block sig able some_try sla_there evidence_there encodes
          given sent =
        let (u, begun, (handed, counted)) =
          documents sla evidence s able some_try sla_there evidence_there in
        let (result, verdict, right) = approved_iff_Complies x config.strict_profile sla evidence in
        let (bytes, encoded) = encodes result in
        let hash = x.digest bytes in
        let command = confirm_oracle x config job result.approved result.resolution_reason hash in
        (
          record { result = result; signature = some sig; resolution_hash = hash },
          record u { submitted = u.submitted ++ command ∷ [] },
          begun
              ∙ (bind_ok _ _ result u u (ap (λ r. (r, u)) verdict)
                  ∙ (bind_ok _ _ hash u u (ap (λ r. (r, u)) (hashes sla result bytes encoded))
                      ∙ bind_ok _ _ sig u _ (submits result hash block sig u given sent))),
          refl,
          right,
          ap (λ (l : List ConfirmOracle). l ++ command ∷ []) handed,
          counted,
        )
