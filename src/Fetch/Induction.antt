-- ===== src/Fetch/Induction.antt =====
-- src/pipeline.rs, `fetch_evidence`: one rule for each loop, from which its properties follow.
use oracle_qa.Prelude.{
  ℕ, zero, suc, ◌+◌, ◌≡◌, inl, inr, refl, String, Bytes, List, [], ◌∷◌, Option, none, some, Result,
  Option-cases, Result-cases, err,
}
use oracle_qa.Error.{OracleError, evidence_not_found}
use oracle_qa.State.{OracleConfig, OracleStats}
use oracle_qa.External.{Deps}
use oracle_qa.Prelude.Text.{◌⊹◌}
use oracle_qa.Fetch.Loop.{
  Network, Progress, Step, finish, give_up, retry, Step-cases, send, pause, handle_reply, attempts,
  url_of, mirrors, Fetched, fetch_evidence, check_auth_header, settle_fetch,
}

-- One request more at the URL, and what it said.
abbrev pub note : String → Progress → String → Progress
note url p e = record (send url p) { last_err = e }

module _ (x : Deps) (config : OracleConfig) {T : Type 0} (parse : Bytes → Result String T)
    (parse_error : String → OracleError) (net : Network) (hash : Bytes) where
  abbrev pub Outcome : Type 0
  Outcome = Option (Result OracleError T) × Progress

  abbrev pub said : String → ℕ → Progress → Step T
  said url attempt p = handle_reply x config parse parse_error hash url attempt (net p.sent url)

  pub attempts_rule {ℓ} :
      (url : String) (P : ℕ → ℕ → Progress → Outcome → Type ℓ)
      → ((a : ℕ) (p : Progress) → P 0 a p (none, p))
      → ((left a : ℕ) (p : Progress) (r : Result OracleError T)
          → said url a p ≡ finish r
          → P (suc left) a p (some r, send url p))
      → ((left a : ℕ) (p : Progress) (e : String)
          → said url a p ≡ give_up e
          → P (suc left) a p (none, note url p e))
      → ((left a : ℕ) (p : Progress) (e : String) (out : Outcome)
          → said url a p ≡ retry e
          → P left (a + 1) (pause x config a (note url p e)) out
          → P (suc left) a p out)
      → (left a : ℕ) (p : Progress)
      → P left a p (attempts x config parse parse_error net hash url left a p)
  unfolding attempts
  attempts_rule url P done fin give again zero a p = done a p
  attempts_rule url P done fin give again (suc left) a p = elim (Step-cases (said url a p)) [
    | inl (r, e) ↦ rw (e, attempts) (fin left a p r e)
    | inr (inl (m, e)) ↦ rw (e, attempts) (give left a p m e)
    | inr (inr (m, e)) ↦
        rw (e, attempts)
          (again left a p m _ e (
            attempts_rule url P done fin give again left (a + 1) (pause x config a (note url p m))))
  ]

  abbrev pub tries : String → Progress → Outcome
  tries base p =
      attempts x config parse parse_error net hash (url_of x config parse parse_error hash base)
        config.evidence_fetch_max_retries 0 p

  pub mirrors_rule {ℓ} :
      (P : List String → Progress → Outcome → Type ℓ)
      → ((p : Progress) → P [] p (none, p))
      → ((base : String) (bases : List String) (p : Progress) (r : Result OracleError T)
          → (tries base p).0 ≡ some r
          → P (base ∷ bases) p (some r, (tries base p).1))
      → ((base : String) (bases : List String) (p : Progress) (out : Outcome)
          → (tries base p).0 ≡ none
          → P bases (tries base p).1 out
          → P (base ∷ bases) p out)
      → (bases : List String) (p : Progress)
      → P bases p (mirrors x config parse parse_error net hash bases p)
  unfolding mirrors
  mirrors_rule P done found next [] p = done p
  mirrors_rule P done found next (base ∷ bases) p = elim (Option-cases (tries base p).0) [
    | inl e ↦
        rw (e, mirrors)
          (next base bases p _ e (mirrors_rule P done found next bases (tries base p).1))
    | inr (r, e) ↦ rw (e, mirrors) (found base bases p r e)
  ]

  abbrev pub begin : ℕ → Progress
  begin sent = record { sent = sent; asked = []; slept = []; last_err = "" }

  abbrev pub fetched : OracleStats → ℕ → Fetched T
  fetched = fetch_evidence x config parse parse_error net hash

  abbrev pub search_all : ℕ → Outcome
  search_all sent =
      mirrors x config parse parse_error net hash config.evidence_registry_urls (begin sent)

  abbrev auth_error : String → OracleError
  auth_error e = evidence_not_found ("invalid AUTH header: " ⊹ e)

  -- Only a value that is no header is refused.
  refused_header :
      (o : Option String) (f : OracleError)
      → check_auth_header x config parse parse_error o ≡ err f
      → (auth : String) × (e : String) × (o ≡ some auth)
        × (x.header_value auth ≡ err e)
        × (f ≡ auth_error e)
  refused_header none f h = cc
  refused_header (some auth) f h = elim (Result-cases (x.header_value auth)) [
    | inl (v, e) ↦ cc (rw (e, check_auth_header) at h)
    | inr (m, e) ↦ (auth, m, refl, e, cc (rw (e, check_auth_header) at h))
  ]

  -- The download ends at once on a bad header, and otherwise as the loops say.
  pub fetch_rule {ℓ} :
      (stats : OracleStats) (sent : ℕ) (P : Fetched T → Type ℓ)
      → ((auth e : String)
          → config.evidence_registry_auth_header ≡ some auth
          → x.header_value auth ≡ err e
          → P (record { result = err (auth_error e); stats = stats; progress = begin sent }))
      → P (settle_fetch x config parse parse_error hash stats (search_all sent))
      → P (fetched stats sent)
  unfolding fetch_evidence
  fetch_rule stats sent P bad good =
      elim (Result-cases
        (check_auth_header x config parse parse_error config.evidence_registry_auth_header)) [
          | inl (t, e) ↦ rw (e, fetch_evidence) good
          | inr (f, e) ↦
              let (auth, m, given, invalid, same) =
                refused_header config.evidence_registry_auth_header f e in
              rw (e, fetch_evidence, same) (bad auth m given invalid)
        ]
