-- ===== src/Fetch/Mirrors.antt =====
-- src/pipeline.rs, `fetch_evidence`: what one mirror's answer means for the others.
use oracle_qa.Prelude.{
  ℕ, ◌≤◌, ◌<◌, ◌≡◌, ◌≢◌, refl, ap, subst, sym, ◌∙◌, inl, inr, true, false, String, Bytes, List, [],
  ◌∷◌, ◌++◌, Option, none, some, Result, ok, err, arith, Bool-cases, All, bytes_eq, bytes_eq→eq,
}
use oracle_qa.Prelude.Text.{◌⊹◌}
use oracle_qa.Error.{OracleError, evidence_not_found}
use oracle_qa.State.{OracleConfig, OracleStats}
use oracle_qa.External.{Deps}
use oracle_qa.Fetch.Loop.{
  Reply, failed, response, Network, Progress, finish, send, check_body, handle_reply, attempts,
  url_of, mirrors, fetch_evidence, check_auth_header, settle_fetch,
}
use oracle_qa.Fetch.Trace.{times, urls_of, attempts-All, All-urls_of, progress-settle_fetch}
use oracle_qa.Fetch.Induction.{attempts_rule, tries, begin}

-- A reply that gives no document: the request fails, the status is no success, or the body cannot be
-- read.
abbrev pub IsSilent : Deps → Reply → Type 0
IsSilent x (failed e) = Unit {0}
IsSilent x (response code (ok raw)) = x.is_success code ≡ false
IsSilent x (response code (err e)) = Unit {0}

module _ (x : Deps) (config : OracleConfig) {T : Type 0} (parse : Bytes → Result String T)
    (parse_error : String → OracleError) (net : Network) (hash : Bytes) where
  abbrev pub url : String → String
  url = url_of x config parse parse_error hash

  -- At every request the mirror is silent.
  abbrev pub SilentMirror : String → Type 0
  SilentMirror base = (n : ℕ) → IsSilent x (net n (url base))

  silent-finish :
      (u : String) (a : ℕ) (reply : Reply) (r : Result OracleError T)
      → IsSilent x reply
      → handle_reply x config parse parse_error hash u a reply ≢ finish r
  unfolding handle_reply
  silent-finish u a (failed e) r h k = cc
  silent-finish u a (response code (ok raw)) r h k = ground arith
  silent-finish u a (response code (err e)) r h k = ground arith

  silent-attempts :
      (u : String)
      → ((n : ℕ) → IsSilent x (net n u))
      → (left a : ℕ) (p : Progress)
      → (attempts x config parse parse_error net hash u left a p).0 ≡ none
  silent-attempts u quiet =
      attempts_rule x config parse parse_error net hash u (λ left a p out. out.0 ≡ none)
        (λ a p. refl) (λ left a p r e. absurd (silent-finish u a (net p.sent u) r (quiet p.sent) e))
        (λ left a p m e. refl) (λ left a p m out e ih. ih)

  document-finish :
      (u : String) (a : ℕ) (code : ℕ) (raw : Bytes) (reply : Reply)
      → reply ≡ response code (ok raw)
      → x.is_success code ≡ true
      → handle_reply x config parse parse_error hash u a reply
        ≡ finish (check_body x config parse parse_error hash raw)
  unfolding handle_reply
  document-finish u a code raw reply e good = rw (e, handle_reply) (rw good refl)

  mismatch_error :
      {raw : Bytes}
      → x.digest raw ≢ hash
      → check_body x config parse parse_error hash raw
        ≡ err (
            evidence_not_found (
              "Hash mismatch for "
              ⊹ x.hex hash
              ⊹ ": document bytes do not match on-chain hash (got "
              ⊹ x.hex (x.digest raw)
              ⊹ ")"))
  unfolding check_body
  mismatch_error {raw} wrong = elim (Bool-cases (bytes_eq (x.digest raw) hash)) [
    | inl same ↦ absurd (wrong (bytes_eq→eq (x.digest raw) hash same))
    | inr other ↦ rw (other, check_body) refl
  ]

  -- The last URL that was asked is the mirror's, and those before it are of the mirrors before.
  abbrev pub StopsAt : String → List String → List String → Type 0
  StopsAt base before asked =
      (rest : List String) × (asked ≡ url base ∷ rest)
      × All (λ u. 1 ≤ times u (urls_of x config parse parse_error net hash before)) rest

  module _ (base : String) (code : ℕ) (raw : Bytes)
      (always : (n : ℕ) → net n (url base) ≡ response code (ok raw))
      (good : x.is_success code ≡ true) (some_try : 0 < config.evidence_fetch_max_retries) where
    first_said :
        (a : ℕ) (p : Progress)
        → handle_reply x config parse parse_error hash (url base) a (net p.sent (url base))
          ≡ finish (check_body x config parse parse_error hash raw)
    first_said a p =
        document-finish (url base) a code raw (net p.sent (url base)) (always p.sent) good

    attempts-first :
        (left a : ℕ) (p : Progress)
        → 0 < left
        → attempts x config parse parse_error net hash (url base) left a p
          ≡ (some (check_body x config parse parse_error hash raw), send (url base) p)
    attempts-first =
        attempts_rule x config parse parse_error net hash (url base)
          (λ left a p out.
            0 < left
            → out ≡ (some (check_body x config parse parse_error hash raw), send (url base) p))
          (λ a p h. absurd (omega arith)) (λ left a p r e h. cc (e, first_said a p))
          (λ left a p m e h. cc (e, first_said a p))
          (λ left a p m out e ih h. cc (e, first_said a p))

    decided :
        (before after : List String) (p : Progress)
        → All SilentMirror before
        → (mirrors x config parse parse_error net hash (before ++ base ∷ after) p).0
          ≡ some (check_body x config parse parse_error hash raw)
    unfolding mirrors
    decided [] after p quiet =
        rw (attempts-first config.evidence_fetch_max_retries 0 p some_try, mirrors)
    decided (b ∷ before) after p quiet =
        rw (silent-attempts (url b) quiet.0 config.evidence_fetch_max_retries 0 p, mirrors)
          (decided before after (tries x config parse parse_error net hash b p).1 quiet.1)

    -- What holds of the URLs of the mirrors before it holds of those asked before it.
    asked_before :
        (P : String → Type 0) (before after : List String) (p : Progress)
        → All SilentMirror before
        → All (λ b. P (url b)) before
        → All P p.asked
        → let out = mirrors x config parse parse_error net hash (before ++ base ∷ after) p in
          (rest : List String) × (out.1.asked ≡ url base ∷ rest) × All P rest
    unfolding mirrors
    asked_before P [] after p quiet held h =
        rw (attempts-first config.evidence_fetch_max_retries 0 p some_try, mirrors)
          (
            p.asked,
            ap (λ (o : Option (Result OracleError T) × Progress). o.1.asked)
                (attempts-first config.evidence_fetch_max_retries 0 p some_try),
            h,
          )
    asked_before P (b ∷ before) after p quiet held h =
        rw (silent-attempts (url b) quiet.0 config.evidence_fetch_max_retries 0 p, mirrors)
          (asked_before P before after (tries x config parse parse_error net hash b p).1 quiet.1
            held.1
            (attempts-All x config parse parse_error net hash P (url b) held.0
              config.evidence_fetch_max_retries 0 p h))

    settle-decided :
        (stats : OracleStats) (out : Option (Result OracleError T) × Progress)
        → out.0 ≡ some (check_body x config parse parse_error hash raw)
        → let f = settle_fetch x config parse parse_error hash stats out in
          (f.result ≡ check_body x config parse parse_error hash raw) × (f.stats ≡ stats)
    settle-decided stats (some r, p) e = ((cc), refl)
    settle-decided stats (none, p) e = absurd (cc)

    -- The first mirror in the list's order that answers with a document decides the download,
    -- when the mirrors before it give none at any request: the result is what the digest test and
    -- the parser make of that body, whatever the mirrors after it hold, and nothing is counted as a
    -- failure. (The `Authorization` value, if any, is a header, and one attempt at least is allowed.)
    pub fetch_evidence-first_answer :
        (before after : List String) (stats : OracleStats) (sent : ℕ)
        → config.evidence_registry_urls ≡ before ++ base ∷ after
        → check_auth_header x config parse parse_error config.evidence_registry_auth_header ≡ ok tt
        → All SilentMirror before
        → let f = fetch_evidence x config parse parse_error net hash stats sent in
          (f.result ≡ check_body x config parse parse_error hash raw) × (f.stats ≡ stats)
    unfolding fetch_evidence
    fetch_evidence-first_answer before after stats sent urls auth quiet =
        rw (auth, fetch_evidence)
          (settle-decided stats _ (
            subst
              (λ (bs : List String).
                (mirrors x config parse parse_error net hash bs
                  (begin x config parse parse_error net hash sent)).0
                ≡ some (check_body x config parse parse_error hash raw))
              (sym urls) (decided before after _ quiet)))

    stops_there :
        (before after : List String) (stats : OracleStats) (sent : ℕ)
        → config.evidence_registry_urls ≡ before ++ base ∷ after
        → check_auth_header x config parse parse_error config.evidence_registry_auth_header ≡ ok tt
        → All SilentMirror before
        → StopsAt base before
            (fetch_evidence x config parse parse_error net hash stats sent).progress.asked
    unfolding fetch_evidence
    stops_there before after stats sent urls auth quiet =
        rw (auth, fetch_evidence, progress-settle_fetch x config parse parse_error net hash)
          (subst
            (λ (bs : List String).
              StopsAt base before
                (mirrors x config parse parse_error net hash bs
                  (begin x config parse parse_error net hash sent)).1.asked)
            (sym urls)
            (asked_before _ before after _ quiet
              (All-urls_of x config parse parse_error net hash _ before (λ u some_time. some_time))
              tt))

    -- A document whose digest is not the hash ends the download with `EvidenceNotFound`: the mirrors
    -- after the one that sent it are not asked, even where they hold the committed bytes. The last
    -- request is the one that it answered, and each request before went to a mirror before it, which
    -- gave no document. (The `Authorization` value, if any, is a header, and one attempt at least is
    -- allowed.)
    pub mismatch_ends :
        (before after : List String) (stats : OracleStats) (sent : ℕ)
        → config.evidence_registry_urls ≡ before ++ base ∷ after
        → check_auth_header x config parse parse_error config.evidence_registry_auth_header ≡ ok tt
        → All SilentMirror before
        → x.digest raw ≢ hash
        → let f = fetch_evidence x config parse parse_error net hash stats sent in
          (f.result
            ≡ err (
                evidence_not_found (
                  "Hash mismatch for "
                  ⊹ x.hex hash
                  ⊹ ": document bytes do not match on-chain hash (got "
                  ⊹ x.hex (x.digest raw)
                  ⊹ ")")))
          × StopsAt base before f.progress.asked
    mismatch_ends before after stats sent urls auth quiet wrong = (
      (fetch_evidence-first_answer before after stats sent urls auth quiet).0
          ∙ mismatch_error wrong,
      stops_there before after stats sent urls auth quiet,
    )
