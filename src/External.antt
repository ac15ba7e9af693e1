-- ===== src/External.antt =====
-- What the program calls and does not implement: the JSON, JSON Schema and HTTP libraries, the
-- digest, the text encodings, and the resolution codes of the escrow program's crate. Each part of the
-- development takes such a record as its first argument.
use oracle_qa.Prelude.{ℕ, ℤ, Bool, String, Bytes, List, Option, Result}
use oracle_qa.Types.{SlaDocument, DeliveryEvidence, ResolutionPayload}

-- `serde_json`.
pub record Json : Type 1 where
  pub Value : Type 0
  pub Object : Type 0
  pub as_object : Value → Option Object
  pub contains_key : Object → String → Bool
  pub to_string : Value → Result String String
  pub sla_from_slice : Bytes → Result String (SlaDocument Value)
  pub delivery_from_slice : Bytes → Result String (DeliveryEvidence Value Object)
  pub resolution_to_vec : ResolutionPayload → Result String Bytes

-- `jsonschema`: a schema compiles to a validator or to an error text.
pub record Schemas (V : Type 0) : Type 1 where
  pub Validator : Type 0
  pub validator_for : V → Result String Validator
  pub is_valid : Validator → V → Bool
  pub iter_errors : Validator → V → List String

-- `sla_escrow_api::resolution::ResolutionReason`, as the `u16` that each reason is converted into.
pub record Reasons : Type 0 where
  pub no_reason : ℕ
  pub general_rejection : ℕ
  pub status_code_out_of_range : ℕ
  pub latency_exceeded : ℕ
  pub required_fields_missing : ℕ
  pub schema_validation_failed : ℕ
  pub body_too_short : ℕ

-- `sla_escrow_api::state::Payment`, as the fields that the program reads.
pub record Payment : Type 0 where
  pub payment_uid : Bytes
  pub oracle_authority : Bytes
  pub sla_hash : Bytes
  pub delivery_hash : Bytes
  pub amount : ℕ
  pub mint : Bytes
  pub expires_at : ℤ
  pub delivery_timestamp : ℤ
  pub resolution_state : ℕ

-- `sla_escrow_api::event::DeliverySubmittedEvent`, as the fields that the program reads.
pub record DeliverySubmitted : Type 0 where
  pub payment_uid : Bytes
  pub delivery_hash : Bytes

-- The texts and codes of transactions: base 58, base 64, public keys and signatures, the number of
-- `EscrowInstruction::SubmitDelivery`, and the layout of its event.
pub record Wire : Type 0 where
  pub parse_pubkey : String → Option Bytes
  pub parse_signature : String → Option Bytes
  pub signature_text : Bytes → String
  pub bs58_decode : String → Option Bytes
  pub base64_decode : String → Option Bytes
  pub submit_delivery : ℕ
  pub event_size : ℕ
  pub event_of : Bytes → Option DeliverySubmitted

-- The layouts of the escrow program's crate and of the clock account.
pub record Layouts : Type 0 where
  pub payment_size : ℕ
  pub payment_of : Bytes → Payment
  pub clock_of : Bytes → Result String ℤ

-- `reqwest`'s view of a status code and of a header value.
pub record Http : Type 0 where
  pub is_success : ℕ → Bool
  pub is_server_error : ℕ → Bool
  pub is_client_error : ℕ → Bool
  pub status_text : ℕ → String
  pub header_value : String → Result String String

-- `sha2`, `hex` and the base-58 text of a public key.
pub record Encodings : Type 0 where
  pub digest : Bytes → Bytes
  pub hex : Bytes → String
  pub pubkey_text : Bytes → String

pub record Deps : Type 1 where
  pub json : Json
  pub open json use *
  pub schemas : Schemas json.Value
  pub open schemas use *
  pub http : Http
  pub open http use *
  pub reasons : Reasons
  pub open reasons use *
  pub layouts : Layouts
  pub open layouts use *
  pub wire : Wire
  pub open wire use *
  pub encodings : Encodings
  pub open encodings use *
