-- ===== src/Settler/Chain.antt =====
-- src/settler.rs, `is_eligible` and `chain_unix_timestamp`, and src/chain.rs, `read_payment`: what the
-- program reads of a payment account.
use oracle_qa.Prelude.{
  ℤ, ◌+◌, Bool, true, false, ◌||◌, not, String, Bytes, Option, none, some, Result, ok, err, ltb,
  ◌==◌, if◌then◌else◌, length, take, drop, bytes_eq, gt_ℤ, is_zero,
}
use oracle_qa.Prelude.Text.{◌⊹◌}
use oracle_qa.Error.{OracleError, chain}
use oracle_qa.Types.{EvaluationJob}
use oracle_qa.External.{Deps, Payment}

-- The reply to `get_account_with_commitment(..)`: an RPC error, or the account's data if there is one.
abbrev pub AccountReply : Type 0
AccountReply = Result String (Option Bytes)

module _ (x : Deps) where
  open x use {payment_size, payment_of, clock_of, pubkey_text}

  -- `account.data.len() < 8 + size_of::<Payment>()`.
  abbrev pub too_short : Bytes → Bool
  too_short account = ltb (length account) (8 + payment_size)

  -- `bytemuck::from_bytes(&account.data[8..8 + size_of::<Payment>()])`.
  abbrev pub payment_in : Bytes → Payment
  payment_in account = payment_of (take payment_size (drop 8 account))

  abbrev pub job_of : Bytes → Payment → EvaluationJob
  job_of pubkey payment = record {
    payment_uid = payment.payment_uid;
    payment_pubkey = pubkey;
    sla_hash = payment.sla_hash;
    delivery_hash = payment.delivery_hash;
    amount = payment.amount;
    mint = payment.mint;
    oracle_authority = payment.oracle_authority;
    expires_at = payment.expires_at;
  }

  unfoldable pub select_payment : Bytes → Bytes → Payment → Option EvaluationJob
  select_payment pubkey oracle payment =
      if not (bytes_eq payment.oracle_authority oracle)
      then none
      else if is_zero payment.delivery_timestamp || not (payment.resolution_state == 0)
      then none
      else some (job_of pubkey payment)

  unfoldable pub read_payment :
      AccountReply → Bytes → Bytes → Result OracleError (Option EvaluationJob)
  read_payment (err e) pubkey oracle = err (chain e)
  read_payment (ok none) pubkey oracle =
      err (chain ("Payment account " ⊹ pubkey_text pubkey ⊹ " not found"))
  read_payment (ok (some account)) pubkey oracle =
      if too_short account
      then err (chain "Payment account data too short")
      else ok (select_payment pubkey oracle (payment_in account))

  -- The chain's clock, or the wall clock where it cannot be read.
  unfoldable pub chain_unix_timestamp : AccountReply → ℤ → ℤ
  chain_unix_timestamp (err e) wall = wall
  chain_unix_timestamp (ok none) wall = wall
  chain_unix_timestamp (ok (some account)) wall = elim (clock_of account) [
    | ok unix_timestamp ↦ unix_timestamp
    | err e ↦ wall
  ]

  unfoldable pub payment_eligible : Bytes → ℤ → Payment → Bool
  payment_eligible oracle now payment =
      if not (bytes_eq payment.oracle_authority oracle)
      then false
      else if is_zero payment.delivery_timestamp
      then false
      else if not (payment.resolution_state == 0)
      then false
      else if gt_ℤ now payment.expires_at
      then false
      else true

  -- The reply for the payment account, the reply for the clock account, and the wall clock.
  unfoldable pub is_eligible : AccountReply → AccountReply → ℤ → Bytes → Result OracleError Bool
  is_eligible (err e) clock wall oracle = err (chain e)
  is_eligible (ok none) clock wall oracle = ok false
  is_eligible (ok (some account)) clock wall oracle =
      if too_short account
      then ok false
      else ok (payment_eligible oracle (chain_unix_timestamp clock wall) (payment_in account))
