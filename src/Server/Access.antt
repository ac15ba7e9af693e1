-- ===== src/Server/Access.antt =====
-- src/server.rs, `authorize_manual_evaluate` and `bearer_token`: who may trigger an evaluation, and how
-- often.
use oracle_qa.Prelude.{
  ℕ, ◌-◌, ◌*◌, Bool, true, false, not, String, Bytes, List, [], ◌∷◌, ◌++◌, Option, none, some,
  Result, ok, err, max, ltb, leb, if◌then◌else◌, length, bytes_eq,
}
use oracle_qa.Prelude.Text.{trim, strip_prefix, as_bytes}
use oracle_qa.State.{OracleConfig}
use oracle_qa.External.{Deps}

-- The two headers that are read, where they are there and visible ASCII.
pub record Headers : Type 0 where
  pub authorization : Option String
  pub x_oracle_token : Option String

unfoldable pub bearer_token : Headers → Option String
bearer_token headers = elim headers.authorization [
  | none ↦ none
  | some raw ↦ elim (strip_prefix "Bearer " raw) [ none ↦ none | some s ↦ some (trim s) ]
]

abbrev pub or_else {ℓ} : {A : Type ℓ} → Option A → Option A → Option A
or_else (some a) b = some a
or_else none b = b

abbrev pub supplied : Headers → Option String
supplied headers = or_else (bearer_token headers) headers.x_oracle_token

-- `manual_evaluate_rate_window_ms.max(1)`; times are in nanoseconds.
abbrev pub window_ns : OracleConfig → ℕ
window_ns config = max config.manual_evaluate_rate_window_ms 1 * 1000000

-- The requests at the front that are older than the window are dropped.
unfoldable pub expire : ℕ → ℕ → List ℕ → List ℕ
expire window now [] = []
expire window now (t ∷ ts) =
    let rest = expire window now ts in if ltb window (now - t) then rest else t ∷ ts

-- The test of the rate: whether the request goes on, and the queue of times.
unfoldable pub limit_rate : OracleConfig → ℕ → List ℕ → Bool × List ℕ
limit_rate config now requests =
    let recent = expire (window_ns config) now requests in
    if leb config.manual_evaluate_rate_limit (length recent)
    then (false, recent)
    else (true, recent ++ now ∷ [])

abbrev pub Refusal : Type 0
Refusal = ℕ × String

module _ (x : Deps) (config : OracleConfig) where
  abbrev pub check_hash : Bytes → Option String → Result Refusal (Unit {0})
  check_hash expected none = err (401, "Missing operator token")
  check_hash expected (some token) =
      if not (bytes_eq (x.digest (as_bytes token)) expected)
      then err (401, "Invalid operator token")
      else ok tt

  unfoldable pub check_token : Headers → Result Refusal (Unit {0})
  check_token headers = elim config.operator_token_sha256 [
    | none ↦
        if not config.allow_unauthenticated_manual_evaluate
        then err (
          503,
          "Manual evaluation is disabled until ORACLE_OPERATOR_TOKEN_SHA256 or ORACLE_OPERATOR_TOKEN is configured",
        )
        else ok tt
    | some expected ↦ check_hash expected (supplied headers)
  ]

  abbrev pub rated : Bool × List ℕ → Result Refusal (Unit {0}) × List ℕ
  rated (true, requests) = (ok tt, requests)
  rated (false, requests) = (err (429, "Rate limit exceeded"), requests)

  -- The answer, and the queue of times; only a request with a right token is counted.
  unfoldable pub authorize_manual_evaluate :
      Headers → ℕ → List ℕ → Result Refusal (Unit {0}) × List ℕ
  authorize_manual_evaluate headers now requests = elim (check_token headers) [
    | err e ↦ (err e, requests)
    | ok u ↦ rated (limit_rate config now requests)
  ]
