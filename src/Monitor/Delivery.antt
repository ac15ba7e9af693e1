-- ===== src/Monitor/Delivery.antt =====
-- src/chain.rs, `fetch_delivery_job`: the job that a transaction's delivery makes.
use oracle_qa.Prelude.{
  ℕ, ◌+◌, Bool, true, false, ◌&&◌, ◌||◌, not, String, Bytes, List, [], ◌∷◌, ◌++◌, Option, none,
  some, Result, ok, err, ltb, ◌==◌, if◌then◌else◌, length, any, is_empty, bytes_eq,
}
use oracle_qa.Prelude.Text.{◌⊹◌}
use Prim.Native.Char.{code}
use oracle_qa.Error.{OracleError, chain}
use oracle_qa.Types.{EvaluationJob}
use oracle_qa.State.{OracleConfig}
use oracle_qa.External.{Deps, DeliverySubmitted}
use oracle_qa.Settler.Chain.{AccountReply, read_payment}
use oracle_qa.Monitor.Instructions.{
  UiInstruction, push_some, parse_delivery_events_from_logs,
  collect_payment_candidates_from_instructions,
}

-- The message of a JSON transaction: parsed into instructions and account keys, or raw.
pub data UiMessage : Type 0 where
  parsed_message : List UiInstruction → List String → UiMessage
  raw_message : UiMessage

pub data EncodedTransaction : Type 0 where
  json_transaction : UiMessage → EncodedTransaction
  other_encoding : EncodedTransaction

pub record TransactionMeta : Type 0 where
  pub log_messages : Option (List String)
  pub inner_instructions : Option (List (List UiInstruction))

pub record Confirmed : Type 0 where
  pub transaction : EncodedTransaction
  pub meta : Option TransactionMeta

-- The RPC node while one transaction is looked at: its reply to `getTransaction`, and to the n-th
-- read of an account.
pub record Rpc : Type 0 where
  pub get_transaction : Bytes → Result String Confirmed
  pub get_account : ℕ → Bytes → AccountReply

-- An event is of the job's payment and delivery.
abbrev pub is_of_job : EvaluationJob → DeliverySubmitted → Bool
is_of_job job e =
    bytes_eq e.payment_uid job.payment_uid && bytes_eq e.delivery_hash job.delivery_hash

unfoldable pub event_matches_job : List DeliverySubmitted → EvaluationJob → Bool
event_matches_job events job = if is_empty events then true else any (is_of_job job) events

-- `Ord` of two texts: by code points, which is the order of their UTF-8 bytes.
unfoldable pub text_leb : String → String → Bool
text_leb String.[] t = true
text_leb (String.◌∷◌ c s) String.[] = false
text_leb (String.◌∷◌ c s) (String.◌∷◌ d t) =
    ltb (code c) (code d) || (code c == code d && text_leb s t)

module _ (x : Deps) where
  open x use {pubkey_text, parse_pubkey, signature_text}

  unfoldable pub insert_key : Bytes → List Bytes → List Bytes
  insert_key p [] = p ∷ []
  insert_key p (q ∷ qs) =
      let rest = insert_key p qs in
      if text_leb (pubkey_text p) (pubkey_text q) then p ∷ q ∷ qs else q ∷ rest

  -- `candidates.sort_by_key(|p| p.to_string())`.
  unfoldable pub sort_by_key : List Bytes → List Bytes
  sort_by_key [] = []
  sort_by_key (p ∷ ps) = insert_key p (sort_by_key ps)

  -- A key is dropped when it is the one before it.
  unfoldable pub dedup_after : Bytes → List Bytes → List Bytes
  dedup_after p [] = []
  dedup_after p (q ∷ qs) = let rest = dedup_after q qs in if bytes_eq p q then rest else q ∷ rest

  unfoldable pub dedup : List Bytes → List Bytes
  dedup [] = []
  dedup (p ∷ ps) = p ∷ dedup_after p ps

  -- The groups of inner instructions, one after another.
  unfoldable pub group_candidates : List (List UiInstruction) → List String → Bytes → List Bytes
  group_candidates [] account_keys escrow = []
  group_candidates (g ∷ gs) account_keys escrow =
      collect_payment_candidates_from_instructions x g account_keys escrow
      ++ group_candidates gs account_keys escrow

  abbrev pub inner_instructions_of : Option TransactionMeta → List (List UiInstruction)
  inner_instructions_of none = []
  inner_instructions_of (some meta) = elim meta.inner_instructions [
    | none ↦ []
    | some groups ↦ groups
  ]

  -- The payments that the `SubmitDelivery` instructions of a transaction name, sorted, each once.
  unfoldable pub candidates :
      List UiInstruction → List String → Option TransactionMeta → Bytes → List Bytes
  candidates instructions account_keys meta escrow = dedup (
      sort_by_key (
        collect_payment_candidates_from_instructions x instructions account_keys escrow
        ++ group_candidates (inner_instructions_of meta) account_keys escrow))

  abbrev logs_of : Option TransactionMeta → List DeliverySubmitted
  logs_of none = []
  logs_of (some meta) = elim meta.log_messages [
    | none ↦ []
    | some logs ↦ parse_delivery_events_from_logs x logs
  ]

  unfoldable pub log_events : Option TransactionMeta → List DeliverySubmitted
  log_events meta = logs_of meta

  -- `account_keys.iter().filter_map(|a| a.pubkey.parse().ok())`.
  unfoldable pub parse_keys : List String → List Bytes
  parse_keys [] = []
  parse_keys (k ∷ ks) = push_some (parse_pubkey k) (parse_keys ks)

  -- The job of a reply, if the reply holds a job that is accepted.
  abbrev pub accepted :
      (EvaluationJob → Bool) → Result OracleError (Option EvaluationJob) → Option EvaluationJob
  accepted accept (ok (some job)) = if accept job then some job else none
  accepted accept (ok none) = none
  accepted accept (err e) = none

  -- Both loops over keys: the first job that is accepted, from the n-th read of an account on.
  unfoldable pub scan : Rpc → Bytes → (EvaluationJob → Bool) → ℕ → List Bytes → Option EvaluationJob
  scan rpc oracle accept n [] = none
  scan rpc oracle accept n (pk ∷ pks) =
      elim (accepted accept (read_payment x (rpc.get_account n pk) pk oracle)) [
        | some job ↦ some job
        | none ↦ scan rpc oracle accept (n + 1) pks
      ]

  abbrev pub accept_candidate : Bool → List DeliverySubmitted → EvaluationJob → Bool
  accept_candidate require events job =
      event_matches_job events job || (not require && is_empty events)

  abbrev pub accept_key : List DeliverySubmitted → EvaluationJob → Bool
  accept_key events job = event_matches_job events job || is_empty events

  -- The keys of a parsed message: first the candidates, then every account key, which strict mode
  -- leaves out.
  unfoldable pub find_job :
      OracleConfig → Rpc → List DeliverySubmitted → List Bytes → List Bytes → Option EvaluationJob
  find_job config rpc events pks keys =
      elim (scan rpc config.oracle_pubkey (accept_candidate config.require_event_match events) 0
        pks) [
          | some job ↦ some job
          | none ↦
              if config.require_event_match
              then none
              else scan rpc config.oracle_pubkey (accept_key events) (length pks) keys
        ]

  unfoldable pub delivery_in :
      OracleConfig → Rpc → Option TransactionMeta → EncodedTransaction → Option EvaluationJob
  delivery_in config rpc meta other_encoding = none
  delivery_in config rpc meta (json_transaction raw_message) = none
  delivery_in config rpc meta (json_transaction (parsed_message instructions account_keys)) =
      find_job config rpc (log_events meta)
        (candidates instructions account_keys meta config.escrow_program_id)
        (parse_keys account_keys)

  unfoldable pub fetch_delivery_job :
      OracleConfig → Rpc → Bytes → Result OracleError (Option EvaluationJob)
  fetch_delivery_job config rpc sig = elim (rpc.get_transaction sig) [
    | ok enc ↦ ok (delivery_in config rpc enc.meta enc.transaction)
    | err e ↦ err (chain ("Failed to fetch tx " ⊹ signature_text sig ⊹ ": " ⊹ e))
  ]
