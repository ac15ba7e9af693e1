-- ===== src/Fetch/Effort.antt =====
-- src/pipeline.rs, `fetch_evidence`: how many requests it sends, and when it counts a failure.
use oracle_qa.Prelude.{
  ℕ, zero, suc, ◌+◌, ◌*◌, ◌≤◌, ◌<◌, ◌≡◌, refl, ◌⊎◌, inl, inr, String, Bytes, List, [], none, some,
  Result, err, arith, length, saturating_add,
}
use oracle_qa.Error.{OracleError, evidence_not_found}
use oracle_qa.State.{OracleConfig, OracleStats}
use oracle_qa.External.{Deps}
use oracle_qa.Fetch.Loop.{
  Network, Progress, Fetched, pause, attempts, mirrors, fetch_evidence, settle_fetch,
  exhausted_text,
}
use oracle_qa.Prelude.Text.{◌⊹◌}
use oracle_qa.Fetch.Trace.{times, urls_of, progress-settle_fetch, mirrors_at_most, mirrors_at_least}
use oracle_qa.Fetch.Integrity.{Answered, mirrors-Answered}
use oracle_qa.Fetch.Induction.{attempts_rule, mirrors_rule, fetch_rule, Outcome, tries, begin, note}

abbrev pub count_failure : OracleStats → OracleStats
count_failure stats = record stats {
  total_evidence_fetch_failures = saturating_add stats.total_evidence_fetch_failures 1;
}

module _ (x : Deps) (config : OracleConfig) {T : Type 0} (parse : Bytes → Result String T)
    (parse_error : String → OracleError) (net : Network) (hash : Bytes) where
  sent-pause : (a : ℕ) (p : Progress) → (pause x config a p).sent ≡ p.sent
  unfolding pause
  sent-pause a p = ground arith

  -- The requests of one round of attempts, the mirror's share.
  abbrev Spends : ℕ → Progress → Outcome x config parse parse_error net hash → Type 0
  Spends left p out =
      (p.sent ≤ out.1.sent) × (out.1.sent ≤ p.sent + left) × (0 < left → p.sent < out.1.sent)

  attempts-Spends :
      (url : String) (left a : ℕ) (p : Progress)
      → Spends left p (attempts x config parse parse_error net hash url left a p)
  attempts-Spends url =
      attempts_rule x config parse parse_error net hash url (λ left a p out. Spends left p out)
        (λ a p. omega arith) (λ left a p r e. omega arith) (λ left a p m e. omega arith)
        (λ left a p m out e ih. ground (arith, sent-pause a (note url p m)))

  abbrev retries : ℕ
  retries = config.evidence_fetch_max_retries

  tries-Spends :
      (base : String) (p : Progress)
      → Spends retries p (tries x config parse parse_error net hash base p)
  tries-Spends base p = attempts-Spends _ retries 0 p

  mirrors-le :
      (bases : List String) (p : Progress)
      → (p.sent ≤ (mirrors x config parse parse_error net hash bases p).1.sent)
        × ((mirrors x config parse parse_error net hash bases p).1.sent
            ≤ p.sent + length bases * retries)
  mirrors-le =
      mirrors_rule x config parse parse_error net hash
        (λ bases p out. (p.sent ≤ out.1.sent) × (out.1.sent ≤ p.sent + length bases * retries))
        (λ p. omega arith) (λ base bases p r e. omega (arith, tries-Spends base p))
        (λ base bases p out e ih. omega (arith, tries-Spends base p))

  -- One download asks a URL at most `max_retries` times for each time that it is a mirror's, so that it
  -- asks no URL that is not a mirror's, and it sends at most `max_retries` requests for each mirror.
  pub fetch_evidence-requests :
      (stats : OracleStats) (sent : ℕ) (u : String)
      → let f = fetch_evidence x config parse parse_error net hash stats sent in
        (times u f.progress.asked
          ≤ times u (urls_of x config parse parse_error net hash config.evidence_registry_urls)
            * retries)
        × (sent ≤ f.progress.sent)
        × (f.progress.sent ≤ sent + length config.evidence_registry_urls * retries)
  fetch_evidence-requests stats sent u =
      let bases = config.evidence_registry_urls in
      let start = begin x config parse parse_error net hash sent in
      let (low, high) = mirrors-le bases start in
      fetch_rule x config parse parse_error net hash stats sent
        (λ f.
          (times u f.progress.asked
            ≤ times u (urls_of x config parse parse_error net hash bases) * retries)
          × (sent ≤ f.progress.sent)
          × (f.progress.sent ≤ sent + length bases * retries))
        (λ auth e given invalid. (omega arith, omega arith, omega arith))
        (rw (progress-settle_fetch x config parse parse_error net hash) (
          omega (arith, mirrors_at_most x config parse parse_error net hash u bases start),
          low,
          high,
        ))

  -- Every URL was asked at least as often as it is a mirror's.
  abbrev pub AllAsked : Progress → Type 0
  AllAsked p =
      (u : String)
      → times u (urls_of x config parse parse_error net hash config.evidence_registry_urls)
        ≤ times u p.asked

  -- A download ends on an `Authorization` value that is no header, on a registry's document, or with
  -- every mirror tried; only the last is counted.
  pub data Ends (stats : OracleStats) (sent : ℕ) (f : Fetched T) : Type 0 where
    bad_header :
        (auth e : String)
        → config.evidence_registry_auth_header ≡ some auth
        → x.header_value auth ≡ err e
        → f.result ≡ err (evidence_not_found ("invalid AUTH header: " ⊹ e))
        → f.stats ≡ stats
        → f.progress.asked ≡ []
        → f.progress.sent ≡ sent
        → Ends stats sent f
    answered :
        Answered x config parse parse_error net hash f.result → f.stats ≡ stats → Ends stats sent f
    exhausted :
        f.result
          ≡ err (evidence_not_found (exhausted_text x config parse parse_error hash f.progress))
        → f.stats ≡ count_failure stats
        → (retries ≡ 0) ⊎ AllAsked f.progress
        → Ends stats sent f

  by_retries : (n : ℕ) {P : Type 0} → (0 < n → P) → (n ≡ 0) ⊎ P
  by_retries zero h = inl refl
  by_retries (suc n) h = inr (h (omega arith))

  settle_fetch-Ends :
      (stats : OracleStats) (sent : ℕ) (out : Outcome x config parse parse_error net hash)
      → (0 < retries → out.0 ≡ none → AllAsked out.1)
      → ((r : Result OracleError T)
          → out.0 ≡ some r
          → Answered x config parse parse_error net hash r)
      → Ends stats sent (settle_fetch x config parse parse_error hash stats out)
  settle_fetch-Ends stats sent (some r, p) h a = answered (a r refl) refl
  settle_fetch-Ends stats sent (none, p) h a =
      exhausted refl refl (by_retries retries (λ pos. h pos refl))

  -- A download ends in one of three ways, and every way is accounted for. With an unusable
  -- `Authorization` value it fails before any request. On a successful response that is read in full
  -- its result is what the digest test and the parser make of that body, and the counters are as
  -- before, for a hash mismatch and a parse error too. Otherwise it fails with `EvidenceNotFound`,
  -- the failure counter is one more (or stays at its maximum), and with at least one attempt allowed
  -- every mirror was asked: each URL at least as often as it is a mirror's.
  pub fetch_evidence-Ends :
      (stats : OracleStats) (sent : ℕ)
      → Ends stats sent (fetch_evidence x config parse parse_error net hash stats sent)
  fetch_evidence-Ends stats sent =
      fetch_rule x config parse parse_error net hash stats sent (Ends stats sent)
        (λ auth e given invalid. bad_header auth e given invalid refl refl refl refl)
        (settle_fetch-Ends stats sent _
          (λ pos missed u. omega (
            arith,
            mirrors_at_least x config parse parse_error net hash u config.evidence_registry_urls
                (begin x config parse parse_error net hash sent) pos missed,
          ))
          (mirrors-Answered x config parse parse_error net hash config.evidence_registry_urls _))
