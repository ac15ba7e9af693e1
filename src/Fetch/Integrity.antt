-- ===== src/Fetch/Integrity.antt =====
-- src/pipeline.rs, `fetch_evidence`: a document that it returns has the committed hash.
use oracle_qa.Prelude.{
  ℕ, ◌≡◌, refl, inl, inr, true, String, Bytes, List, Option, none, some, Result, ok, err, arith,
  bytes_eq→eq, Bool-cases, ◌∙◌,
}
use oracle_qa.Error.{OracleError}
use oracle_qa.State.{OracleConfig, OracleStats}
use oracle_qa.External.{Deps}
use oracle_qa.Fetch.Induction.{attempts_rule, mirrors_rule, fetch_rule}
use oracle_qa.Fetch.Loop.{
  Reply, failed, response, Network, Progress, finish, check_body, handle_reply, attempts, mirrors,
  fetch_evidence, settle_fetch,
}

-- `v` was parsed from the body of a successful response, and the body's digest is the hash.
pub record Verified (x : Deps) {T : Type 0} (parse : Bytes → Result String T) (net : Network)
    (hash : Bytes) (v : T) : Type 0 where
  pub number : ℕ
  pub url : String
  pub code : ℕ
  pub raw : Bytes
  pub received : net number url ≡ response code (ok raw)
  pub successful : x.is_success code ≡ true
  pub committed : x.digest raw ≡ hash
  pub parsed : parse raw ≡ ok v

module _ (x : Deps) (config : OracleConfig) {T : Type 0} (parse : Bytes → Result String T)
    (parse_error : String → OracleError) (net : Network) (hash : Bytes) where
  check_body_ok :
      (raw : Bytes) (v : T)
      → check_body x config parse parse_error hash raw ≡ ok v
      → (x.digest raw ≡ hash) × (parse raw ≡ ok v)
  unfolding check_body
  check_body_ok raw v h = ground (arith, bytes_eq→eq (x.digest raw) hash)

  -- `r` is what a registry's successful response, read in full, leads to.
  pub record Answered (r : Result OracleError T) : Type 0 where
    pub number : ℕ
    pub url : String
    pub code : ℕ
    pub raw : Bytes
    pub received : net number url ≡ response code (ok raw)
    pub successful : x.is_success code ≡ true
    pub checked : check_body x config parse parse_error hash raw ≡ r

  handle_reply-Answered :
      (url : String) (attempt n : ℕ) (r : Result OracleError T) (reply : Reply)
      → net n url ≡ reply
      → handle_reply x config parse parse_error hash url attempt reply ≡ finish r
      → Answered r
  unfolding handle_reply
  handle_reply-Answered url attempt n r (failed e) seen h = cc
  handle_reply-Answered url attempt n r (response code (ok raw)) seen h =
      elim (Bool-cases (x.is_success code)) [
        | inl good ↦ record {
          number = n;
          url = url;
          code = code;
          raw = raw;
          received = seen;
          successful = good;
          checked = cc (rw good at h);
        }
        | inr bad ↦ absurd (ground arith)
      ]
  handle_reply-Answered url attempt n r (response code (err e)) seen h = absurd (ground arith)

  attempts-Answered :
      (url : String) (left attempt : ℕ) (p : Progress) (r : Result OracleError T)
      → (attempts x config parse parse_error net hash url left attempt p).0 ≡ some r
      → Answered r
  attempts-Answered url left attempt p r =
      attempts_rule x config parse parse_error net hash url
        (λ _ _ _ out. out.0 ≡ some r → Answered r) (λ a p h. cc)
        (λ left a p r' e h. handle_reply-Answered url a p.sent r (net p.sent url) refl (cc))
        (λ left a p m e h. cc) (λ left a p m out e ih. ih) left attempt p

  pub mirrors-Answered :
      (bases : List String) (p : Progress) (r : Result OracleError T)
      → (mirrors x config parse parse_error net hash bases p).0 ≡ some r
      → Answered r
  mirrors-Answered bases p r =
      mirrors_rule x config parse parse_error net hash (λ _ _ out. out.0 ≡ some r → Answered r)
        (λ p h. cc) (λ base bases p r' e h. attempts-Answered _ _ 0 p r (e ∙ h))
        (λ base bases p out e ih. ih) bases p

  Answered-Verified : (v : T) → Answered (ok v) → Verified x parse net hash v
  Answered-Verified v a =
      let k = check_body_ok a.raw v a.checked in
      record {
        number = a.number;
        url = a.url;
        code = a.code;
        raw = a.raw;
        received = a.received;
        successful = a.successful;
        committed = k.0;
        parsed = k.1;
      }

  settle_fetch_ok :
      (stats : OracleStats) (out : Option (Result OracleError T) × Progress) (v : T)
      → (settle_fetch x config parse parse_error hash stats out).result ≡ ok v
      → out.0 ≡ some (ok v)
  settle_fetch_ok stats (some r, p) v h = cc
  settle_fetch_ok stats (none, p) v h = cc

  -- A document that the download returns was parsed from the body of a successful response of a
  -- registry, and the digest of that body is the hash asked for.
  pub fetch_evidence-Verified :
      (stats : OracleStats) (sent : ℕ) (v : T)
      → (fetch_evidence x config parse parse_error net hash stats sent).result ≡ ok v
      → Verified x parse net hash v
  fetch_evidence-Verified stats sent v =
      fetch_rule x config parse parse_error net hash stats sent
        (λ f. f.result ≡ ok v → Verified x parse net hash v) (λ auth e given invalid h. cc)
        (λ h.
          Answered-Verified v
            (mirrors-Answered config.evidence_registry_urls _ (ok v) (settle_fetch_ok stats _ v h)))
