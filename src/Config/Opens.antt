-- ===== src/Config/Opens.antt =====
-- src/config.rs and src/server.rs: which environments let which requests trigger an evaluation.
use oracle_qa.Prelude.{
  ℕ, ◌<◌, ◌≡◌, ◌⊎◌, ◌↔◌, inl, inr, sym, subst, ap, ◌∙◌, true, false, String, Bytes, List, Option,
  none, some, ok, length, Option-cases,
}
use oracle_qa.Prelude.Text.{as_bytes}
use oracle_qa.State.{OracleConfig}
use oracle_qa.External.{Deps}
use oracle_qa.Server.Access.{Headers, supplied, window_ns, expire, authorize_manual_evaluate}
use oracle_qa.Server.Window.{HasAccess, authorize_iff}
use oracle_qa.Config.Parse.{Env, trimmed, env_bool}
use oracle_qa.Config.FromEnv.{Setup, hash_token, config_of, from_env}
use oracle_qa.Config.Admits.{HasHash, Explained, from_env-Explained}

module _ (x : Deps) (setup : Setup) (env : Env) where
  open setup use {hex_decode}

  abbrev pub digest_set : Option String
  digest_set = trimmed (env "ORACLE_OPERATOR_TOKEN_SHA256")

  abbrev pub token_set : Option String
  token_set = trimmed (env "ORACLE_OPERATOR_TOKEN")

  -- Without a token: neither variable is set to more than blanks, and the demo switch is on.
  abbrev pub IsDemo : Type 0
  IsDemo =
      (digest_set ≡ none)
      × (token_set ≡ none)
      × (env_bool env "ORACLE_ALLOW_UNAUTHENTICATED_MANUAL_EVALUATE" false ≡ true)

  -- The request's token has the digest that is set, or, where none is, that of the token that is set.
  abbrev pub HasToken : Headers → Type 0
  HasToken headers =
      (token : String) × (supplied headers ≡ some token)
      × (((hex : String) × (digest_set ≡ some hex)
            × (hex_decode hex ≡ ok (x.digest (as_bytes token))))
          ⊎ ((digest_set ≡ none)
              × ((secret : String) × (token_set ≡ some secret)
                  × (x.digest (as_bytes token) ≡ x.digest (as_bytes secret)))))

  access_iff :
      (headers : Headers) (key id : Bytes) (token : Option Bytes)
      → HasHash x setup env token
      → HasAccess (config_of x setup env key id token) x headers ↔ (IsDemo ⊎ HasToken headers)
  access_iff headers key id token (inl (hex, set, (decoded, r, size, e))) = (
    λ access. elim access [
      | inl (open_door, allowed) ↦ absurd (cc)
      | inr (expected, k, (t, given, same)) ↦ inr (t, given, inl (hex, set, cc))
    ],
    λ opens. elim opens [
      | inl (unset, no_token, demo) ↦ absurd (cc)
      | inr (t, given, inl (hex2, set2, d)) ↦ inr (decoded, e, (t, given, cc))
      | inr (t, given, inr (unset, secret)) ↦ absurd (cc)
    ],
  )
  access_iff headers key id token (inr (unset, e)) = elim (Option-cases token_set) [
    | inl no_token ↦
        (let open_door : token ≡ none = e ∙ ap (hash_token x setup env) no_token in
          (
            λ access. elim access [
              | inl (k, allowed) ↦ inl (unset, no_token, allowed)
              | inr (expected, k, given) ↦ absurd (cc)
            ],
            λ opens. elim opens [
              | inl (u, k, demo) ↦ inl (open_door, demo)
              | inr (t, given, inl (hex, set, d)) ↦ absurd (cc)
              | inr (t, given, inr (u, (secret, k, same))) ↦ absurd (cc)
            ],
          ))
    | inr (secret, kept) ↦
        (let closed : token ≡ some (x.digest (as_bytes secret)) =
            e ∙ ap (hash_token x setup env) kept in
          (
            λ access. elim access [
              | inl (k, allowed) ↦ absurd (cc)
              | inr (expected, k, (t, given, same)) ↦
                  inr (t, given, inr (unset, (secret, kept, cc)))
            ],
            λ opens. elim opens [
              | inl (u, k, demo) ↦ absurd (cc)
              | inr (t, given, inl (hex, set, d)) ↦ absurd (cc)
              | inr (t, given, inr (u, (other, k, same))) ↦
                  inr (x.digest (as_bytes secret), closed, (t, given, cc))
            ],
          ))
  ]

  -- With the configuration that is read from an environment, a request is let through exactly when the
  -- queue is below the limit and the environment opens the door for it: neither a digest nor a token is
  -- set to more than blanks and the demo switch is on, or the request's token has the digest that is
  -- set, or, where none is, that of the token that is set.
  pub authorize-from_env :
      (c : OracleConfig) (headers : Headers) (now : ℕ) (requests : List ℕ)
      → from_env x setup env ≡ ok c
      → ((authorize_manual_evaluate x c headers now requests).0 ≡ ok tt) ↔ (
          (IsDemo ⊎ HasToken headers)
          × (length (expire (window_ns c) now requests) < c.manual_evaluate_rate_limit))
  authorize-from_env c headers now requests e =
      let (key, id, token, keypair, program, hash, made) =
        subst (Explained x setup env) e (from_env-Explained x setup env) in
      let (to, back) = access_iff headers key id token hash in
      let (admit, let_in) = authorize_iff c x headers now requests in
      (
        λ h. (to (subst (λ d. HasAccess d x headers) made (admit h).0), (admit h).1),
        λ h. let_in (subst (λ d. HasAccess d x headers) (sym made) (back h.0), h.1),
      )
