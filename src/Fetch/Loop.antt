-- ===== src/Fetch/Loop.antt =====
-- src/pipeline.rs, `fetch_evidence`: the loops over the mirrors and over the attempts at each.
use oracle_qa.Prelude.{
  ℕ, zero, suc, ◌+◌, ◌*◌, ◌%◌, ◌^◌, ◌&&◌, String, Bytes, List, [], ◌∷◌, Option, none, some, Result,
  ok, err, ltb, if◌then◌else◌, length, bytes_eq, saturating_add, ◌≡◌, ◌⊎◌, inl, inr, refl,
}
use oracle_qa.Prelude.Text.{◌⊹◌, show, trim_end_slashes}
use oracle_qa.Error.{OracleError, evidence_not_found}
use oracle_qa.State.{OracleConfig, OracleStats}
use oracle_qa.External.{Deps}

-- What the network does with a request: it fails with a text, or a response comes, with a status and
-- a body that is read in full or fails while it is read.
pub data Reply : Type 0 where
  failed : String → Reply
  response : ℕ → Result String Bytes → Reply

-- The n-th request that the process sends, at its URL. Any behaviour of the registries is such a
-- function.
abbrev pub Network : Type 0
Network = ℕ → String → Reply

-- The loop's variables: the requests sent so far by the process, the URLs that this download has asked
-- and the sleeps that it has taken (in ms), both the latest first, and `last_err`.
pub record Progress : Type 0 where
  pub sent : ℕ
  pub asked : List String
  pub slept : List ℕ
  pub last_err : String

-- `send().await`: one request more, at the URL.
abbrev pub send : String → Progress → Progress
send url p = record p { sent = p.sent + 1; asked = url ∷ p.asked }

-- What the loop's body makes of one reply: a result that ends the function, `break` to the next
-- mirror, or another attempt.
pub data Step (T : Type 0) : Type 0 where
  finish : Result OracleError T → Step T
  give_up : String → Step T
  retry : String → Step T

pub Step-cases :
    {T : Type 0} (s : Step T)
    → ((r : Result OracleError T) × (s ≡ finish r))
      ⊎ (((e : String) × (s ≡ give_up e)) ⊎ ((e : String) × (s ≡ retry e)))
Step-cases (finish r) = inl (r, refl)
Step-cases (give_up e) = inr (inl (e, refl))
Step-cases (retry e) = inr (inr (e, refl))

-- `config.evidence_fetch_retry_base_ms * (1 << attempt)`, on `u64` in a release build.
unfoldable pub backoff_ms : ℕ → ℕ → ℕ
backoff_ms base attempt = (base * 2 ^ (attempt % 64)) % 18446744073709551616

-- What the download leaves behind.
pub record Fetched (T : Type 0) : Type 0 where
  pub result : Result OracleError T
  pub stats : OracleStats
  pub progress : Progress

module _ (x : Deps) (config : OracleConfig) where
  open x use {digest, hex, is_success, is_server_error, status_text, header_value}

  -- `if attempt + 1 < max_retries { sleep }`.
  unfoldable pub pause : ℕ → Progress → Progress
  pause attempt p =
      if ltb (attempt + 1) config.evidence_fetch_max_retries
      then record p { slept = backoff_ms config.evidence_fetch_retry_base_ms attempt ∷ p.slept }
      else p

  module _ {T : Type 0} (parse : Bytes → Result String T) (parse_error : String → OracleError) where
    -- The digest is compared before the bytes are parsed.
    unfoldable pub check_body : Bytes → Bytes → Result OracleError T
    check_body hash raw =
        if bytes_eq (digest raw) hash
        then (elim (parse raw) [
          | ok v ↦ ok v
          | err e ↦ err (parse_error ("Failed to parse JSON: " ⊹ e))
        ])
        else err (
            evidence_not_found (
              "Hash mismatch for "
              ⊹ hex hash
              ⊹ ": document bytes do not match on-chain hash (got "
              ⊹ hex (digest raw)
              ⊹ ")"))

    unfoldable pub handle_reply : Bytes → String → ℕ → Reply → Step T
    handle_reply hash url attempt (failed e) = retry e
    handle_reply hash url attempt (response code body) =
        if is_success code
        then (elim body [
          | ok raw ↦ finish (check_body hash raw)
          | err e ↦ retry ("read body: " ⊹ e)
        ])
        else if is_server_error code && ltb (attempt + 1) config.evidence_fetch_max_retries
        then retry ("Registry returned " ⊹ status_text code ⊹ " for " ⊹ url)
        else give_up ("Registry returned " ⊹ status_text code ⊹ " for " ⊹ url)

    -- `for attempt in 0..max_retries`, with the rounds that are left.
    unfoldable pub attempts :
        Network → Bytes → String → ℕ → ℕ → Progress → Option (Result OracleError T) × Progress
    attempts net hash url zero attempt p = (none, p)
    attempts net hash url (suc left) attempt p =
        elim (handle_reply hash url attempt (net p.sent url)) [
          | finish r ↦ (some r, send url p)
          | give_up e ↦ (none, record (send url p) { last_err = e })
          | retry e ↦
              attempts net hash url left (attempt + 1)
                (pause attempt (record (send url p) { last_err = e }))
        ]

    abbrev pub url_of : Bytes → String → String
    url_of hash base = trim_end_slashes base ⊹ "/" ⊹ hex hash

    -- `for base in &config.evidence_registry_urls`.
    unfoldable pub mirrors :
        Network → Bytes → List String → Progress → Option (Result OracleError T) × Progress
    mirrors net hash [] p = (none, p)
    mirrors net hash (base ∷ bases) p =
        let (r, q) = attempts net hash (url_of hash base) config.evidence_fetch_max_retries 0 p in
        elim r [ some v ↦ (some v, q) | none ↦ mirrors net hash bases q ]

    abbrev pub check_auth_header : Option String → Result OracleError (Unit {0})
    check_auth_header none = ok tt
    check_auth_header (some auth) = elim (header_value auth) [
      | ok v ↦ ok tt
      | err e ↦ err (evidence_not_found ("invalid AUTH header: " ⊹ e))
    ]

    unfoldable pub exhausted_text : Bytes → Progress → String
    exhausted_text hash p =
        hex hash
        ⊹ " (tried "
        ⊹ show (length config.evidence_registry_urls)
        ⊹ " base URL(s), up to "
        ⊹ show config.evidence_fetch_max_retries
        ⊹ " retries each): "
        ⊹ p.last_err

    abbrev pub settle_fetch :
        Bytes → OracleStats → Option (Result OracleError T) × Progress → Fetched T
    settle_fetch hash stats (some r, p) = record { result = r; stats = stats; progress = p }
    settle_fetch hash stats (none, p) = record {
      result = err (evidence_not_found (exhausted_text hash p));
      stats = record stats {
        total_evidence_fetch_failures = saturating_add stats.total_evidence_fetch_failures 1;
      };
      progress = p;
    }

    -- `sent` counts the requests of the whole process, and goes in and out.
    unfoldable pub fetch_evidence : Network → Bytes → OracleStats → ℕ → Fetched T
    fetch_evidence net hash stats sent =
        let start : Progress = record { sent = sent; asked = []; slept = []; last_err = "" } in
        elim (check_auth_header config.evidence_registry_auth_header) [
          | err e ↦ record { result = err e; stats = stats; progress = start }
          | ok _ ↦ settle_fetch hash stats (mirrors net hash config.evidence_registry_urls start)
        ]
