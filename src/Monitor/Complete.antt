-- ===== src/Monitor/Complete.antt =====
-- src/chain.rs, `fetch_delivery_job`: a delivery that the transaction names is found.
use oracle_qa.Prelude.{
  ℕ, ◌+◌, ◌≡◌, ◌⊎◌, inl, inr, refl, Bool, true, String, Bytes, List, [], ◌∷◌, none, some, ok, arith,
  Any, In, Any-imp, Any-any, bytes_eq_iff, Option-cases,
}
use oracle_qa.Types.{EvaluationJob}
use oracle_qa.State.{OracleConfig}
use oracle_qa.External.{Deps, DeliverySubmitted}
use oracle_qa.Settler.Chain.{read_payment}
use oracle_qa.Monitor.Instructions.{UiInstruction}
use oracle_qa.Monitor.Matching.{Names}
use oracle_qa.Monitor.Scan.{Reports}
use oracle_qa.Monitor.Kept.{Names-candidates}
use oracle_qa.Monitor.Delivery.{
  Rpc, Confirmed, json_transaction, parsed_message, is_of_job, event_matches_job,
  inner_instructions_of, candidates, log_events, accepted, scan, accept_candidate, find_job,
  delivery_in, fetch_delivery_job,
}

Reports-is_of_job :
    (job : EvaluationJob) (e : DeliverySubmitted) → Reports job e → is_of_job job e ≡ true
Reports-is_of_job job e (uid, hash) = ground (
  arith,
  bytes_eq_iff e.payment_uid job.payment_uid,
  bytes_eq_iff e.delivery_hash job.delivery_hash,
)

event_matches_job_if :
    (events : List DeliverySubmitted) (job : EvaluationJob)
    → (events ≡ []) ⊎ Any (Reports job) events
    → event_matches_job events job ≡ true
unfolding event_matches_job
event_matches_job_if [] job h = refl
event_matches_job_if (e ∷ es) job (inl h) = absurd (cc)
event_matches_job_if (e ∷ es) job (inr h) =
    Any-any (is_of_job job) (e ∷ es) (Any-imp (Reports-is_of_job job) (e ∷ es) h)

module _ (x : Deps) (config : OracleConfig) (rpc : Rpc) (job : EvaluationJob) where
  module _ (accept : EvaluationJob → Bool) (good : accept job ≡ true) where
    scan_finds :
        (pk : Bytes)
        (taken : (n : ℕ)
          → read_payment x (rpc.get_account n pk) pk config.oracle_pubkey ≡ ok (some job))
        (n : ℕ) (pks : List Bytes)
        → In pk pks
        → (j : EvaluationJob) × (scan x rpc config.oracle_pubkey accept n pks ≡ some j)
    unfolding scan
    scan_finds pk taken n [] h = absurd h
    scan_finds pk taken n (q ∷ qs) h =
        elim (Option-cases
          (accepted x accept (read_payment x (rpc.get_account n q) q config.oracle_pubkey))) [
            | inr (j, e) ↦ (j, rw (e, scan) refl)
            | inl e ↦ elim h [
              | inl same ↦ absurd (
                  let seen : read_payment x (rpc.get_account n q) q config.oracle_pubkey
                      ≡ ok (some job) =
                    rw same (taken n) in
                  let miss : accepted x accept (ok (some job)) ≡ none = rw seen at e in
                  ground arith)
              | inr k ↦
                  (let (j, found) = scan_finds pk taken (n + 1) qs k in (j, rw (e, scan) found))
            ]
          ]

  -- Where a `SubmitDelivery` of a parsed transaction names a payment whose account makes a job at every
  -- read, and the logs have no event at all or one of that job, a job is returned, in strict mode too.
  pub fetch_delivery_job_finds :
      (sig : Bytes) (enc : Confirmed) (ixs : List UiInstruction) (keys : List String) (pk : Bytes)
      → rpc.get_transaction sig ≡ ok enc
      → enc.transaction ≡ json_transaction (parsed_message ixs keys)
      → Any
          (Any (Names x keys config.escrow_program_id pk))
          (ixs ∷ inner_instructions_of x enc.meta)
      → ((n : ℕ) → read_payment x (rpc.get_account n pk) pk config.oracle_pubkey ≡ ok (some job))
      → (log_events x enc.meta ≡ []) ⊎ Any (Reports job) (log_events x enc.meta)
      → (found : EvaluationJob) × (fetch_delivery_job x config rpc sig ≡ ok (some found))
  unfolding fetch_delivery_job delivery_in find_job
  fetch_delivery_job_finds sig enc ixs keys pk answered is_parsed named taken reported =
      let good : accept_candidate x config.require_event_match (log_events x enc.meta) job ≡ true =
        ground (arith, event_matches_job_if (log_events x enc.meta) job reported) in
      let (j, found) =
        scan_finds (accept_candidate x config.require_event_match (log_events x enc.meta)) good pk
          taken 0 (candidates x ixs keys enc.meta config.escrow_program_id)
          (Names-candidates x pk ixs keys enc.meta config.escrow_program_id named) in
      (
        j,
        rw (answered, fetch_delivery_job) (rw (is_parsed, delivery_in) (rw (found, find_job) refl)),
      )
