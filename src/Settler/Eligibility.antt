-- ===== src/Settler/Eligibility.antt =====
-- src/settler.rs and src/chain.rs: which payments are taken up and settled.
use oracle_qa.Prelude.{
  ℤ, ◌+◌, ◌≤◌, ◌≤ℤ◌, ◌≡◌, ◌↔◌, refl, ap, sym, subst, ◌∙◌, true, false, Bytes, none, some, ok, err,
  arith, length, bytes_eq_iff, is_zero,
}
use oracle_qa.Types.{EvaluationJob}
use oracle_qa.External.{Deps, Payment}
use oracle_qa.Settler.Chain.{
  AccountReply, payment_in, job_of, select_payment, read_payment, chain_unix_timestamp,
  payment_eligible, is_eligible,
}

-- A payment that this oracle may resolve: assigned to it, delivered, and not yet resolved.
pub record IsPending (oracle : Bytes) (payment : Payment) : Type 0 where
  pub assigned : payment.oracle_authority ≡ oracle
  pub delivered : is_zero payment.delivery_timestamp ≡ false
  pub unresolved : payment.resolution_state ≡ 0

module _ (x : Deps) (oracle : Bytes) where
  -- The account exists and is long enough, and its payment is pending.
  pub record HoldsPending (reply : AccountReply) (account : Bytes) : Type 0 where
    pub found : reply ≡ ok (some account)
    pub fits : 8 + x.payment_size ≤ length account
    pub pending : IsPending oracle (payment_in x account)

  payment_eligible_iff :
      (now : ℤ) (p : Payment)
      → (payment_eligible x oracle now p ≡ true) ↔ (IsPending oracle p × (now ≤ℤ p.expires_at))
  unfolding payment_eligible
  payment_eligible_iff now p = ground (arith, bytes_eq_iff p.oracle_authority oracle)

  select_payment-some :
      (pubkey : Bytes) (p : Payment) (job : EvaluationJob)
      → (select_payment x pubkey oracle p ≡ some job)
        ↔ (IsPending oracle p × (job ≡ job_of x pubkey p))
  unfolding select_payment
  select_payment-some pubkey p job = ground (arith, bytes_eq_iff p.oracle_authority oracle)

  account_of : {account acc : Bytes} → HoldsPending (ok (some account)) acc → account ≡ acc
  account_of h = cc (h.found)

  read_payment-account :
      (account pubkey : Bytes) (job : EvaluationJob)
      → (read_payment x (ok (some account)) pubkey oracle ≡ ok (some job)) ↔ (
          (8 + x.payment_size ≤ length account)
          × (select_payment x pubkey oracle (payment_in x account) ≡ some job))
  unfolding read_payment
  read_payment-account account pubkey job = ground arith

  is_eligible-account :
      (account : Bytes) (clock : AccountReply) (wall : ℤ)
      → (is_eligible x (ok (some account)) clock wall oracle ≡ ok true) ↔ (
          (8 + x.payment_size ≤ length account)
          × (payment_eligible x oracle (chain_unix_timestamp x clock wall) (payment_in x account)
              ≡ true))
  unfolding is_eligible
  is_eligible-account account clock wall = ground arith

  -- A payment is taken up as a job exactly when its account exists, is long enough and holds a payment
  -- that is assigned to this oracle, delivered and unresolved; the job has that payment's fields.
  pub read_payment_iff :
      (reply : AccountReply) (pubkey : Bytes) (job : EvaluationJob)
      → (read_payment x reply pubkey oracle ≡ ok (some job)) ↔ (
          (account : Bytes) × HoldsPending reply account
          × (job ≡ job_of x pubkey (payment_in x account)))
  unfolding read_payment
  read_payment_iff (err e) pubkey job = (λ h. cc, λ k. cc (k.1.found))
  read_payment_iff (ok none) pubkey job = (λ h. cc, λ k. cc (k.1.found))
  read_payment_iff (ok (some account)) pubkey job = (
    λ h.
        let (fits, selected) = (read_payment-account account pubkey job).0 h in
        let (pending, same) = (select_payment-some pubkey (payment_in x account) job).0 selected in
        (account, record { found = refl; fits = fits; pending = pending }, same),
    λ (acc, holds, same). rw (account_of holds) (
        (read_payment-account acc pubkey job).1 (
          holds.fits,
          (select_payment-some pubkey (payment_in x acc) job).1 (holds.pending, same),
        )),
  )

  -- A payment is eligible for settlement exactly when its account holds a pending payment that has
  -- not expired by the clock in use: the chain's, or the wall clock where the chain's cannot be read.
  pub is_eligible_iff :
      (reply clock : AccountReply) (wall : ℤ)
      → (is_eligible x reply clock wall oracle ≡ ok true) ↔ (
          (account : Bytes) × HoldsPending reply account
          × (chain_unix_timestamp x clock wall ≤ℤ (payment_in x account).expires_at))
  unfolding is_eligible
  is_eligible_iff (err e) clock wall = (λ h. cc, λ k. cc (k.1.found))
  is_eligible_iff (ok none) clock wall = (λ h. cc, λ k. cc (k.1.found))
  is_eligible_iff (ok (some account)) clock wall = (
    λ h.
        let (fits, eligible) = (is_eligible-account account clock wall).0 h in
        let (pending, alive) =
          (payment_eligible_iff (chain_unix_timestamp x clock wall) (payment_in x account)).0
            eligible in
        (account, record { found = refl; fits = fits; pending = pending }, alive),
    λ (acc, holds, alive). rw (account_of holds) (
        (is_eligible-account acc clock wall).1 (
          holds.fits,
          (payment_eligible_iff (chain_unix_timestamp x clock wall) (payment_in x acc)).1
              (holds.pending, alive),
        )),
  )

  -- On one reply for its account, a payment that is taken up as a job is eligible exactly while the
  -- clock has not passed its expiry.
  pub is_eligible-read_payment :
      (reply clock : AccountReply) (wall : ℤ) (pubkey : Bytes) (job : EvaluationJob)
      → read_payment x reply pubkey oracle ≡ ok (some job)
      → (is_eligible x reply clock wall oracle ≡ ok true)
        ↔ (chain_unix_timestamp x clock wall ≤ℤ job.expires_at)
  is_eligible-read_payment reply clock wall pubkey job taken =
      let (account, holds, same) = (read_payment_iff reply pubkey job).0 taken in
      let expiry : job.expires_at ≡ (payment_in x account).expires_at =
        ap (λ (j : EvaluationJob). j.expires_at) same in
      (
        λ h.
            let (other, held, alive) = (is_eligible_iff reply clock wall).0 h in
            let one : account ≡ other = cc (holds.found, held.found) in
            subst (λ (t : ℤ). chain_unix_timestamp x clock wall ≤ℤ t)
              (sym (expiry ∙ ap (λ (a : Bytes). (payment_in x a).expires_at) one)) alive,
        λ alive. (is_eligible_iff reply clock wall).1 (
          account,
          holds,
          subst (λ (t : ℤ). chain_unix_timestamp x clock wall ≤ℤ t) expiry alive,
        ),
      )
