-- ===== src/Fetch/Trace.antt =====
-- src/pipeline.rs, `fetch_evidence`: which URLs it asks, and how often.
use oracle_qa.Prelude.{
  ℕ, ◌+◌, ◌*◌, ◌≤◌, ◌<◌, ◌≡◌, refl, inl, inr, String, Bytes, List, [], ◌∷◌, none, some, Result,
  arith, if◌then◌else◌, Bool-cases, All,
}
use oracle_qa.Prelude.Text.{str_eq, eq_refl}
use oracle_qa.Error.{OracleError}
use oracle_qa.State.{OracleConfig, OracleStats}
use oracle_qa.External.{Deps}
use oracle_qa.Fetch.Loop.{Network, Progress, pause, attempts, url_of, mirrors, settle_fetch}
use oracle_qa.Fetch.Induction.{attempts_rule, mirrors_rule, Outcome, tries, note}

-- How often a URL is in a list of them.
abbrev pub times : String → List String → ℕ
times u [] = 0
times u (v ∷ vs) = let rest = times u vs in if str_eq v u then rest + 1 else rest

abbrev share : String → String → ℕ → ℕ
share v u n = if str_eq v u then n else 0

-- The shares of one mirror and of those after it.
share_le :
    (v u : String) (t r before now most : ℕ)
    → now ≤ before + share v u r
    → most ≤ now + t * r
    → most ≤ before + (if str_eq v u then t + 1 else t) * r
share_le v u t r before now most h k = elim (Bool-cases (str_eq v u)) [
  | inl e ↦ rw e (omega (arith, rw e at h, k))
  | inr e ↦ rw e (omega (arith, rw e at h, k))
]

module _ (x : Deps) (config : OracleConfig) {T : Type 0} (parse : Bytes → Result String T)
    (parse_error : String → OracleError) (net : Network) (hash : Bytes) where
  -- The URLs of the document at the mirrors.
  abbrev pub urls_of : List String → List String
  urls_of [] = []
  urls_of (base ∷ bases) = url_of x config parse parse_error hash base ∷ urls_of bases

  abbrev retries : ℕ
  retries = config.evidence_fetch_max_retries

  asked-pause : (a : ℕ) (p : Progress) → (pause x config a p).asked ≡ p.asked
  unfolding pause
  asked-pause a p = ground arith

  -- The attempts at one URL ask that URL, as often as they may, and at least once where they may.
  abbrev Asks :
      String → String → ℕ → Progress → Outcome x config parse parse_error net hash → Type 0
  Asks u url left p out =
      (times u p.asked ≤ times u out.1.asked)
      × (times u out.1.asked ≤ times u p.asked + share url u left)
      × (0 < left → times u p.asked + share url u 1 ≤ times u out.1.asked)

  attempts-Asks :
      (u url : String) (left a : ℕ) (p : Progress)
      → Asks u url left p (attempts x config parse parse_error net hash url left a p)
  attempts-Asks u url =
      attempts_rule x config parse parse_error net hash url (λ left a p out. Asks u url left p out)
        (λ a p. ground arith) (λ left a p r e. ground arith) (λ left a p m e. ground arith)
        (λ left a p m out e ih. ground (arith, asked-pause a (note url p m)))

  tries-Asks :
      (u base : String) (p : Progress)
      → Asks u
          (url_of x config parse parse_error hash base)
          retries
          p
          (tries x config parse parse_error net hash base p)
  tries-Asks u base p = attempts-Asks u _ retries 0 p

  pub mirrors_at_most :
      (u : String) (bases : List String) (p : Progress)
      → times u (mirrors x config parse parse_error net hash bases p).1.asked
        ≤ times u p.asked + times u (urls_of bases) * retries
  mirrors_at_most u =
      mirrors_rule x config parse parse_error net hash
        (λ bases p out. times u out.1.asked ≤ times u p.asked + times u (urls_of bases) * retries)
        (λ p. omega arith)
        (λ base bases p r e.
          share_le _ u (times u (urls_of bases)) retries _ _ _ (tries-Asks u base p).1
            (omega arith))
        (λ base bases p out e ih.
          share_le _ u (times u (urls_of bases)) retries _ _ _ (tries-Asks u base p).1 ih)

  -- A download that no mirror ends asks each URL at least as often as the list has it.
  pub mirrors_at_least :
      (u : String) (bases : List String) (p : Progress)
      → 0 < retries
      → (mirrors x config parse parse_error net hash bases p).0 ≡ none
      → times u p.asked + times u (urls_of bases)
        ≤ times u (mirrors x config parse parse_error net hash bases p).1.asked
  mirrors_at_least u bases p pos =
      mirrors_rule x config parse parse_error net hash
        (λ bases p out.
          out.0 ≡ none → times u p.asked + times u (urls_of bases) ≤ times u out.1.asked)
        (λ p h. omega arith) (λ base bases p r e h. cc)
        (λ base bases p out e ih h. ground (arith, ih h, (tries-Asks u base p).2 pos)) bases p

  -- The attempts at a URL ask no other.
  pub attempts-All :
      (P : String → Type 0) (url : String)
      → P url
      → (left a : ℕ) (p : Progress) → All P p.asked
      → All P (attempts x config parse parse_error net hash url left a p).1.asked
  unfolding pause
  attempts-All P url here =
      attempts_rule x config parse parse_error net hash url
        (λ left a p out. All P p.asked → All P out.1.asked) (λ a p h. h)
        (λ left a p r e h. (here, h)) (λ left a p m e h. (here, h))
        (λ left a p m out e ih h. ih (rw (asked-pause a (note url p m)) (here, h)))

  -- What holds of each URL in the list holds of the mirrors'.
  pub All-urls_of :
      (P : String → Type 0) (bases : List String)
      → ((u : String) → 1 ≤ times u (urls_of bases) → P u)
      → All (λ base. P (url_of x config parse parse_error hash base)) bases
  All-urls_of P [] h = tt
  All-urls_of P (base ∷ bases) h =
      let u = url_of x config parse parse_error hash base in
      (
        h u (rw (eq_refl u) (omega arith)),
        All-urls_of P bases (λ v some_time. h v (ground (arith, some_time))),
      )

  pub progress-settle_fetch :
      (stats : OracleStats) (out : Outcome x config parse parse_error net hash)
      → (settle_fetch x config parse parse_error hash stats out).progress ≡ out.1
  progress-settle_fetch stats (some r, p) = refl
  progress-settle_fetch stats (none, p) = refl
