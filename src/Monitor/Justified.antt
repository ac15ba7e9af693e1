-- ===== src/Monitor/Justified.antt =====
-- src/chain.rs, `fetch_delivery_job`: a job that it returns is justified.
use oracle_qa.Prelude.{
  ℕ, ◌≡◌, ◌⊎◌, inl, inr, refl, ap, sym, true, false, String, Bytes, List, [], ◌∷◌, some, ok, arith,
  length, Any, In, is_empty, Bool-cases, Result-cases, subst,
}
use oracle_qa.Types.{EvaluationJob}
use oracle_qa.State.{OracleConfig}
use oracle_qa.External.{Deps, DeliverySubmitted}
use oracle_qa.Settler.Chain.{read_payment, payment_in, job_of}
use oracle_qa.Settler.Eligibility.{HoldsPending, read_payment_iff}
use oracle_qa.Monitor.Instructions.{UiInstruction}
use oracle_qa.Monitor.Matching.{Names}
use oracle_qa.Monitor.Delivery.{
  Rpc, Confirmed, EncodedTransaction, json_transaction, parsed_message, raw_message, other_encoding,
  event_matches_job, inner_instructions_of, candidates, log_events, parse_keys, scan,
  accept_candidate, accept_key, find_job, delivery_in, fetch_delivery_job,
}
use oracle_qa.Monitor.Scan.{Reports, event_matches_job-true, Found, scan-Found}
use oracle_qa.Monitor.Candidates.{candidates-Names}

-- A justified job: its payment's account held it as pending at some read, the logs have no event or
-- one that reports its delivery, and it is named by a `SubmitDelivery` of the transaction or, outside
-- strict mode only, it is one of the transaction's account keys.
pub record Justified (x : Deps) (config : OracleConfig) (rpc : Rpc) (sig : Bytes)
    (job : EvaluationJob) : Type 0 where
  pub confirmed : Confirmed
  pub instructions : List UiInstruction
  pub account_keys : List String
  pub answered : rpc.get_transaction sig ≡ ok confirmed
  pub is_parsed :
      confirmed.transaction ≡ json_transaction (parsed_message instructions account_keys)
  pub read : ℕ
  pub account : Bytes
  pub pending :
      HoldsPending x config.oracle_pubkey (rpc.get_account read job.payment_pubkey) account
  pub same : job ≡ job_of x job.payment_pubkey (payment_in x account)
  pub reported :
      (log_events x confirmed.meta ≡ []) ⊎ Any (Reports job) (log_events x confirmed.meta)
  pub named :
      Any
        (Any (Names x account_keys config.escrow_program_id job.payment_pubkey))
        (instructions ∷ inner_instructions_of x confirmed.meta)
      ⊎ ((config.require_event_match ≡ false) × In job.payment_pubkey (parse_keys x account_keys))

module _ (x : Deps) (config : OracleConfig) (rpc : Rpc) (sig : Bytes) (job : EvaluationJob) where
  abbrev events_of : Confirmed → List DeliverySubmitted
  events_of confirmed = log_events x confirmed.meta

  abbrev payments_of : Confirmed → List UiInstruction → List String → List Bytes
  payments_of confirmed ixs keys = candidates x ixs keys confirmed.meta config.escrow_program_id

  -- The two scans of `find_job`.
  abbrev FromCandidates : List DeliverySubmitted → List Bytes → Type 0
  FromCandidates events pks =
      Found x rpc config.oracle_pubkey (accept_candidate x config.require_event_match events) pks
        job

  abbrev FromKeys : List DeliverySubmitted → List Bytes → Type 0
  FromKeys events keys = Found x rpc config.oracle_pubkey (accept_key x events) keys job

  find_job-Found :
      (events : List DeliverySubmitted) (pks keys : List Bytes)
      → find_job x config rpc events pks keys ≡ some job
      → FromCandidates events pks ⊎ ((config.require_event_match ≡ false) × FromKeys events keys)
  unfolding find_job
  find_job-Found events pks keys h =
      let split : (scan x rpc config.oracle_pubkey
              (accept_candidate x config.require_event_match events) 0 pks
            ≡ some job)
          ⊎ ((config.require_event_match ≡ false)
              × (scan x rpc config.oracle_pubkey (accept_key x events) (length pks) keys
                  ≡ some job)) =
        ground arith in
      elim split [
        | inl e ↦ inl (scan-Found x rpc config.oracle_pubkey _ 0 pks job e)
        | inr (lax, e) ↦ inr (lax, scan-Found x rpc config.oracle_pubkey _ (length pks) keys job e)
      ]

  is_empty-nil : (events : List DeliverySubmitted) → is_empty events ≡ true → events ≡ []
  is_empty-nil [] h = refl
  is_empty-nil (e ∷ es) h = cc

  accept_key-reported :
      (events : List DeliverySubmitted)
      → accept_key x events job ≡ true
      → (events ≡ []) ⊎ Any (Reports job) events
  accept_key-reported events h = elim (Bool-cases (event_matches_job events job)) [
    | inl e ↦ event_matches_job-true events job e
    | inr e ↦ inl (is_empty-nil events (ground arith))
  ]

  accept_candidate-reported :
      (events : List DeliverySubmitted)
      → accept_candidate x config.require_event_match events job ≡ true
      → (events ≡ []) ⊎ Any (Reports job) events
  accept_candidate-reported events h = accept_key-reported events (ground arith)

  -- A job that is read for the key `pk` is the pending payment of that key's account.
  taken_fields :
      (read : ℕ) (pk : Bytes)
      → read_payment x (rpc.get_account read pk) pk config.oracle_pubkey ≡ ok (some job)
      → (account : Bytes) × HoldsPending x config.oracle_pubkey (rpc.get_account read pk) account
        × (job ≡ job_of x pk (payment_in x account))
  taken_fields read pk h = (read_payment_iff x config.oracle_pubkey _ pk job).0 h

  module _ (enc : Confirmed) (ixs : List UiInstruction) (keys : List String)
      (answered : rpc.get_transaction sig ≡ ok enc)
      (is_parsed : enc.transaction ≡ json_transaction (parsed_message ixs keys)) where
    justify :
        (pk : Bytes) (read : ℕ)
        → read_payment x (rpc.get_account read pk) pk config.oracle_pubkey ≡ ok (some job)
        → (events_of enc ≡ []) ⊎ Any (Reports job) (events_of enc)
        → Any
            (Any (Names x keys config.escrow_program_id pk))
            (ixs ∷ inner_instructions_of x enc.meta)
          ⊎ ((config.require_event_match ≡ false) × In pk (parse_keys x keys))
        → Justified x config rpc sig job
    justify pk read taken reported named =
        let (account, holds, same) = taken_fields read pk taken in
        let key : pk ≡ job.payment_pubkey =
          sym (ap (λ (j : EvaluationJob). j.payment_pubkey) same) in
        record {
          confirmed = enc;
          instructions = ixs;
          account_keys = keys;
          answered = answered;
          is_parsed = is_parsed;
          read = read;
          account = account;
          pending =
              subst (λ k. HoldsPending x config.oracle_pubkey (rpc.get_account read k) account) key
                holds;
          same = subst (λ k. job ≡ job_of x k (payment_in x account)) key same;
          reported = reported;
          named =
              subst
                (λ k.
                  Any (Any (Names x keys config.escrow_program_id k))
                    (ixs ∷ inner_instructions_of x enc.meta)
                  ⊎ ((config.require_event_match ≡ false) × In k (parse_keys x keys)))
                key named;
        }

    from_message :
        find_job x config rpc (events_of enc) (payments_of enc ixs keys) (parse_keys x keys)
          ≡ some job
        → Justified x config rpc sig job
    from_message h = elim (find_job-Found (events_of enc) _ _ h) [
      | inl f ↦
          justify f.pk f.read f.taken (accept_candidate-reported _ f.passed)
            (inl (candidates-Names x f.pk ixs keys enc.meta config.escrow_program_id f.listed))
      | inr (lax, f) ↦
          justify f.pk f.read f.taken (accept_key-reported _ f.passed) (inr (lax, f.listed))
    ]

  from_transaction :
      (enc : Confirmed) (t : EncodedTransaction)
      → rpc.get_transaction sig ≡ ok enc
      → enc.transaction ≡ t
      → delivery_in x config rpc enc.meta t ≡ some job
      → Justified x config rpc sig job
  unfolding delivery_in
  from_transaction enc (json_transaction (parsed_message ixs keys)) answered e h =
      from_message enc ixs keys answered e h
  from_transaction enc (json_transaction raw_message) answered e h = cc
  from_transaction enc other_encoding answered e h = cc

  -- A job that is returned for a transaction is justified: the transaction was a parsed one, the
  -- payment's account held it as pending at some read, the logs have no event at all or one of the
  -- job's payment and delivery, and the payment is named by a `SubmitDelivery` of the transaction or,
  -- outside strict mode only, is one of its account keys.
  pub fetch_delivery_job-Justified :
      fetch_delivery_job x config rpc sig ≡ ok (some job) → Justified x config rpc sig job
  unfolding fetch_delivery_job
  fetch_delivery_job-Justified h = elim (Result-cases (rpc.get_transaction sig)) [
    | inl (enc, e) ↦
        from_transaction enc enc.transaction e refl (cc (rw (e, fetch_delivery_job) at h))
    | inr (m, e) ↦ absurd (cc (rw (e, fetch_delivery_job) at h))
  ]
