-- ===== src/Monitor/Instructions.antt =====
-- src/chain.rs: `parse_delivery_events_from_logs`, and the payment accounts that a transaction's
-- `SubmitDelivery` instructions name.
use oracle_qa.Prelude.{
  ℕ, Bool, true, false, not, String, Bytes, List, [], ◌∷◌, Option, none, some, ltb, ◌==◌, length,
  bytes_eq, get_elem?,
}
use oracle_qa.Prelude.Text.{str_eq, trim, strip_prefix}
use oracle_qa.External.{Deps, DeliverySubmitted}

-- An instruction of a JSON-parsed transaction: partially decoded (program, accounts, data), parsed by
-- the RPC node, or compiled (index of the program, indices of the accounts, data).
pub data UiInstruction : Type 0 where
  partially_decoded : String → List String → String → UiInstruction
  parsed : UiInstruction
  compiled : ℕ → List ℕ → String → UiInstruction

-- `?` on an `Option`, and `.ok()?`.
infixl 5 ◌>>=◌
abbrev pub ◌>>=◌ {ℓ κ} : {A : Type ℓ} {B : Type κ} → Option A → (A → Option B) → Option B
none >>= f = none
some a >>= f = f a

infixl 5 ◌>>◌
abbrev pub ◌>>◌ {ℓ κ} : {A : Type ℓ} {B : Type κ} → Option A → Option B → Option B
none >> p = none
some a >> p = p

-- A test that returns `None` unless it holds.
abbrev pub none_unless : Bool → Option (Unit {0})
none_unless true = some tt
none_unless false = none

abbrev pub push_some {ℓ} : {A : Type ℓ} → Option A → List A → List A
push_some none out = out
push_some (some a) out = a ∷ out

module _ (x : Deps) where
  open x use {
    parse_pubkey, bs58_decode, base64_decode, submit_delivery, event_size, event_of, pubkey_text,
  }

  unfoldable pub event_of_line : String → Option DeliverySubmitted
  event_of_line line = do
    b64 ← strip_prefix "Program data: " (trim line)
    bytes ← base64_decode (trim b64)
    none_unless (length bytes == event_size)
    event_of bytes

  unfoldable pub parse_delivery_events_from_logs : List String → List DeliverySubmitted
  parse_delivery_events_from_logs [] = []
  parse_delivery_events_from_logs (line ∷ lines) =
      push_some (event_of_line line) (parse_delivery_events_from_logs lines)

  -- `data.first().copied() == Some(discriminant)`.
  abbrev pub is_submit_delivery : Bytes → Bool
  is_submit_delivery [] = false
  is_submit_delivery (b ∷ bs) = b == submit_delivery

  unfoldable pub payment_from_partial_ix : String → List String → String → String → Option Bytes
  payment_from_partial_ix program accounts text escrow = do
    none_unless (str_eq program escrow)
    raw ← bs58_decode text
    none_unless (is_submit_delivery raw)
    none_unless (not (ltb (length accounts) 5))
    get_elem? accounts 4 >>= parse_pubkey

  unfoldable pub payment_from_compiled_ix : ℕ → List ℕ → String → List String → Bytes → Option Bytes
  payment_from_compiled_ix program accounts text account_keys escrow = do
    key ← get_elem? account_keys program
    program_id ← parse_pubkey key
    none_unless (bytes_eq program_id escrow)
    raw ← bs58_decode text
    none_unless (is_submit_delivery raw)
    pay_idx ← get_elem? accounts 4
    pay_key ← get_elem? account_keys pay_idx
    parse_pubkey pay_key

  unfoldable pub candidate : List String → Bytes → UiInstruction → Option Bytes
  candidate account_keys escrow (partially_decoded program accounts text) =
      payment_from_partial_ix program accounts text (pubkey_text escrow)
  candidate account_keys escrow parsed = none
  candidate account_keys escrow (compiled program accounts text) =
      payment_from_compiled_ix program accounts text account_keys escrow

  unfoldable pub collect_payment_candidates_from_instructions :
      List UiInstruction → List String → Bytes → List Bytes
  collect_payment_candidates_from_instructions [] account_keys escrow = []
  collect_payment_candidates_from_instructions (ix ∷ ixs) account_keys escrow =
      push_some (candidate account_keys escrow ix)
        (collect_payment_candidates_from_instructions ixs account_keys escrow)
