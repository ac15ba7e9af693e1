-- ===== src/Server/Window.antt =====
-- src/server.rs, `authorize_manual_evaluate`: who gets in, and the sliding window.
use oracle_qa.Prelude.{
  ℕ, suc, ◌-◌, ◌≤◌, ◌<◌, ◌≡◌, ◌↔◌, ◌⊎◌, inl, inr, refl, true, String, Bytes, List, [], ◌∷◌, ◌++◌,
  Option, none, some, ok, arith, leb, if◌then◌else◌, length, length-append, bytes_eq_iff,
  Bool-cases,
}
use oracle_qa.Prelude.Text.{as_bytes}
use oracle_qa.State.{OracleConfig}
use oracle_qa.External.{Deps}
use oracle_qa.Server.Access.{
  Headers, supplied, window_ns, expire, limit_rate, check_hash, check_token,
  authorize_manual_evaluate,
}

-- How many of the times are within the window that ends at `m`.
abbrev pub within : ℕ → ℕ → List ℕ → ℕ
within window m [] = 0
within window m (t ∷ ts) =
    if leb (m - t) window then suc (within window m ts) else within window m ts

within-length : (window m : ℕ) (ts : List ℕ) → within window m ts ≤ length ts
within-length window m [] = omega arith
within-length window m (t ∷ ts) = ground (arith, within-length window m ts)

within-expire :
    (window now m : ℕ) (ts : List ℕ)
    → now ≤ m
    → within window m (expire window now ts) ≡ within window m ts
unfolding expire
within-expire window now m [] later = refl
within-expire window now m (t ∷ ts) later = ground (arith, within-expire window now m ts later)

within-append :
    (window m t : ℕ) (ts : List ℕ) → within window m (ts ++ t ∷ []) ≡ within window m (t ∷ ts)
within-append window m t [] = refl
within-append window m t (u ∷ ts) = ground (arith, within-append window m t ts)

-- The times at which requests with a right token come, one after another: the queue, and the times of
-- those that went on, the latest first.
abbrev pub arrivals : OracleConfig → List ℕ → List ℕ × List ℕ → List ℕ × List ℕ
arrivals config [] (requests, admitted) = (requests, admitted)
arrivals config (now ∷ times) (requests, admitted) =
    let (go, queue) = limit_rate config now requests in
    arrivals config times (queue, if go then now ∷ admitted else admitted)

-- The times do not go back, and end at `last` or before.
abbrev pub Ordered : ℕ → List ℕ → ℕ → Type 0
Ordered start [] last = start ≤ last
Ordered start (t ∷ ts) last = (start ≤ t) × Ordered t ts last

module _ (config : OracleConfig) where
  abbrev pub recent : ℕ → List ℕ → ℕ
  recent m ts = within (window_ns config) m ts

  -- The queue is within the limit, and no later window holds more admitted times than queued ones.
  abbrev Tracks : ℕ → List ℕ → List ℕ → Type 0
  Tracks now requests admitted =
      (length requests ≤ config.manual_evaluate_rate_limit)
      × ((m : ℕ) → now ≤ m → recent m admitted ≤ recent m requests)

  expire-length : (window now : ℕ) (ts : List ℕ) → length (expire window now ts) ≤ length ts
  unfolding expire
  expire-length window now [] = omega arith
  expire-length window now (t ∷ ts) = ground (arith, expire-length window now ts)

  limit_rate-Tracks :
      (before now : ℕ) (requests admitted : List ℕ)
      → before ≤ now
      → Tracks before requests admitted
      → Tracks now
          (limit_rate config now requests).1
          (if (limit_rate config now requests).0 then now ∷ admitted else admitted)
  unfolding limit_rate
  limit_rate-Tracks before now requests admitted later (short, tracks) =
      let fewer = expire-length (window_ns config) now requests in
      elim (Bool-cases
        (leb config.manual_evaluate_rate_limit (length (expire (window_ns config) now requests)))) [
          | inl full ↦ rw full (
            omega (arith, fewer, short),
            λ m after. omega (
              arith,
              tracks m (omega (arith, later, after)),
              within-expire (window_ns config) now m requests after,
            ),
          )
          | inr room ↦ rw room (
            ground (arith, length-append (expire (window_ns config) now requests) (now ∷ [])),
            λ m after.
                let fits = tracks m (omega (arith, later, after)) in
                let same = within-expire (window_ns config) now m requests after in
                let pushed =
                  within-append (window_ns config) m now (expire (window_ns config) now requests) in
                ground (arith, fits, same, pushed),
          )
        ]

  arrivals-Tracks :
      (times : List ℕ) (start last : ℕ) (requests admitted : List ℕ)
      → Ordered start times last
      → Tracks start requests admitted
      → Tracks last
          (arrivals config times (requests, admitted)).0
          (arrivals config times (requests, admitted)).1
  arrivals-Tracks [] start last requests admitted order (short, tracks) =
      (short, λ m after. tracks m (omega (arith, order, after)))
  arrivals-Tracks (now ∷ times) start last requests admitted (later, order) t =
      arrivals-Tracks times now last (limit_rate config now requests).1 _ order
        (limit_rate-Tracks start now requests admitted later t)

  -- Whenever requests come, in the order of their times, from an empty queue on: no window that ends at
  -- the last of them or later holds more admitted requests than the limit.
  pub rate_limited :
      (times : List ℕ) (last : ℕ)
      → Ordered 0 times last
      → recent last (arrivals config times ([], [])).1 ≤ config.manual_evaluate_rate_limit
  rate_limited times last order =
      let (short, tracks) =
        arrivals-Tracks times 0 last [] [] order (omega arith, λ m after. omega arith) in
      omega (
        arith,
        short,
        tracks last (omega arith),
        within-length (window_ns config) last (arrivals config times ([], [])).0,
      )

  module _ (x : Deps) where
    -- A request is let through without a token where that is allowed and none is configured, and else
    -- with a token of the configured digest.
    abbrev pub HasAccess : Headers → Type 0
    HasAccess headers =
        ((config.operator_token_sha256 ≡ none)
          × (config.allow_unauthenticated_manual_evaluate ≡ true))
        ⊎ ((expected : Bytes) × (config.operator_token_sha256 ≡ some expected)
            × ((token : String) × (supplied headers ≡ some token)
                × (x.digest (as_bytes token) ≡ expected)))

    check_hash_iff :
        (expected : Bytes) (token : Option String)
        → (check_hash x config expected token ≡ ok tt)
          ↔ ((t : String) × (token ≡ some t) × (x.digest (as_bytes t) ≡ expected))
    check_hash_iff expected none = (λ h. cc, λ (t, e, k). cc)
    check_hash_iff expected (some t) = (
      λ h. (t, refl, ground (arith, bytes_eq_iff (x.digest (as_bytes t)) expected)),
      λ (u, e, k). ground (arith, bytes_eq_iff (x.digest (as_bytes t)) expected),
    )

    check_token_iff :
        (headers : Headers) (token : Option Bytes)
        → config.operator_token_sha256 ≡ token
        → (check_token x config headers ≡ ok tt) ↔ HasAccess headers
    unfolding check_token
    check_token_iff headers none e = ground arith
    check_token_iff headers (some expected) e =
        let checked = check_hash_iff expected (supplied headers) in
        (
          λ h. inr (expected, e, checked.0 (rw (e, check_token) at h)),
          λ access.
              rw (e, check_token)
                (checked.1 (elim access [
                  | inl (no_token, allowed) ↦ absurd (cc)
                  | inr (other, k, (t, given, same)) ↦ (t, given, cc)
                ])),
        )

    -- A request is let through exactly when it has access (without a token where that is allowed and
    -- none is configured, else with a token of the configured digest) and the queue, without the older
    -- requests at its front, is below the limit.
    pub authorize_iff :
        (headers : Headers) (now : ℕ) (requests : List ℕ)
        → ((authorize_manual_evaluate x config headers now requests).0 ≡ ok tt) ↔ (
            HasAccess headers
            × (length (expire (window_ns config) now requests) < config.manual_evaluate_rate_limit))
    unfolding authorize_manual_evaluate limit_rate
    authorize_iff headers now requests =
        ground (arith, check_token_iff headers config.operator_token_sha256 refl)
