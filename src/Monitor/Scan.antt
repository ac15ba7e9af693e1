-- ===== src/Monitor/Scan.antt =====
-- src/chain.rs, `fetch_delivery_job`: the events of a transaction, and what the scans of keys find.
use oracle_qa.Prelude.{
  ℕ, ◌+◌, ◌≡◌, ◌⊎◌, inl, inr, refl, ap, ◌∙◌, Bool, true, Bytes, List, [], ◌∷◌, Option, none, some,
  Result, ok, err, arith, Any, In, Any-imp, any-Any, bytes_eq→eq, Bool-cases, Option-cases,
}
use oracle_qa.Error.{OracleError}
use oracle_qa.Types.{EvaluationJob}
use oracle_qa.External.{Deps, DeliverySubmitted}
use oracle_qa.Settler.Chain.{read_payment}
use oracle_qa.Monitor.Delivery.{Rpc, event_matches_job, is_of_job, accepted, scan}

-- An event of the logs that reports the job's delivery.
abbrev pub Reports : EvaluationJob → DeliverySubmitted → Type 0
Reports job e = (e.payment_uid ≡ job.payment_uid) × (e.delivery_hash ≡ job.delivery_hash)

is_of_job-Reports :
    (job : EvaluationJob) (e : DeliverySubmitted) → is_of_job job e ≡ true → Reports job e
is_of_job-Reports job e h = ground (
  arith,
  bytes_eq→eq e.payment_uid job.payment_uid,
  bytes_eq→eq e.delivery_hash job.delivery_hash,
)

pub event_matches_job-true :
    (events : List DeliverySubmitted) (job : EvaluationJob)
    → event_matches_job events job ≡ true
    → (events ≡ []) ⊎ Any (Reports job) events
unfolding event_matches_job
event_matches_job-true [] job h = inl refl
event_matches_job-true (e ∷ es) job h =
    inr (Any-imp (is_of_job-Reports job) (e ∷ es) (any-Any (is_of_job job) (e ∷ es) h))

module _ (x : Deps) where
  module _ (rpc : Rpc) (oracle : Bytes) (accept : EvaluationJob → Bool) where
    -- What a scan of keys finds: a key, and a read of its account that makes the job.
    pub record Found (pks : List Bytes) (job : EvaluationJob) : Type 0 where
      pub pk : Bytes
      pub read : ℕ
      pub listed : In pk pks
      pub taken : read_payment x (rpc.get_account read pk) pk oracle ≡ ok (some job)
      pub passed : accept job ≡ true

    accepted-some :
        (r : Result OracleError (Option EvaluationJob)) (job : EvaluationJob)
        → accepted x accept r ≡ some job
        → (r ≡ ok (some job)) × (accept job ≡ true)
    accepted-some (ok (some j)) job h = elim (Bool-cases (accept j)) [
      | inl e ↦ (let same : some j ≡ some job = rw e at h in (ap ok same, cc (same, e)))
      | inr e ↦ absurd (let k : none ≡ some job = rw e at h in cc)
    ]
    accepted-some (ok none) job h = cc
    accepted-some (err e) job h = cc

    pub scan-Found :
        (n : ℕ) (pks : List Bytes) (job : EvaluationJob)
        → scan x rpc oracle accept n pks ≡ some job
        → Found pks job
    unfolding scan
    scan-Found n [] job h = cc
    scan-Found n (pk ∷ pks) job h =
        elim (Option-cases (accepted x accept (read_payment x (rpc.get_account n pk) pk oracle))) [
          | inl e ↦
              (let f = scan-Found (n + 1) pks job (rw (e, scan) at h) in
                record {
                  pk = f.pk;
                  read = f.read;
                  listed = inr f.listed;
                  taken = f.taken;
                  passed = f.passed;
                })
          | inr (j, e) ↦
              (let same : some j ≡ some job = rw (e, scan) at h in
                let (taken, passed) = accepted-some _ job (e ∙ same) in
                record { pk = pk; read = n; listed = inl refl; taken = taken; passed = passed })
        ]
