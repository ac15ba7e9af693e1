-- ===== src/Config/WellTyped.antt =====
-- src/config.rs: the values of a configuration that is read fit the types that their fields have.
use oracle_qa.Prelude.{
  ℕ, ◌≤◌, ◌<◌, ◌≡◌, ◌≢◌, inl, inr, sym, subst, String, Bytes, List, [], ◌∷◌, Option, none, some, ok,
  length, All, Bool-cases, Option-cases, u64_max, arith,
}
use oracle_qa.Prelude.Text.{str_eq, trim, as_bytes, parse_u64, eq_iff}
use oracle_qa.Prelude.Decimal.{parse_u64_le}
use oracle_qa.State.{OracleConfig}
use oracle_qa.External.{Deps}
use oracle_qa.Config.Parse.{Env, trimmed, fill, comma_list, u32_max, u64_or, parse_u32, u32_or}
use oracle_qa.Config.FromEnv.{
  Setup, hash_token, or_single, registries_of, evidence_registry_urls, config_of, from_env,
}
use oracle_qa.Config.Admits.{HasHash, Explained, from_env-Explained}

abbrev pub IsFilled : String → Type 0
IsFilled s = s ≢ ""

abbrev pub Is32 : Option Bytes → Type 0
Is32 none = Unit
Is32 (some hash) = length hash ≡ 32

abbrev pub IsFilledText : Option String → Type 0
IsFilledText none = Unit
IsFilledText (some s) = IsFilled s

-- The widths of the numbers, the length of the digest, and the lists and texts without empty entries.
pub record IsWellTyped (c : OracleConfig) : Type 0 where
  pub timeout : c.evaluation_timeout_ms ≤ u64_max
  pub retries : c.evidence_fetch_max_retries ≤ u32_max
  pub base : c.evidence_fetch_retry_base_ms ≤ u64_max
  pub limit : c.manual_evaluate_rate_limit ≤ u64_max
  pub window : c.manual_evaluate_rate_window_ms ≤ u64_max
  pub dead_letter : c.dead_letter_max_attempts ≤ u32_max
  pub capacity : c.job_channel_capacity ≤ u64_max
  pub lookback : c.backfill_lookback_signatures ≤ u64_max
  pub hash : Is32 c.operator_token_sha256
  pub some_registry : 0 < length c.evidence_registry_urls
  pub origins : All IsFilled c.cors_allowed_origins
  pub auth_header : IsFilledText c.evidence_registry_auth_header
  pub database : IsFilledText c.database_url

u64_or_le : (s : Option String) (default : ℕ) → default ≤ u64_max → u64_or s default ≤ u64_max
unfolding u64_or
u64_or_le none default h = h
u64_or_le (some s) default h = elim (Option-cases (parse_u64 s)) [
  | inl e ↦ rw (e, u64_or) h
  | inr (n, e) ↦ rw (e, u64_or) (parse_u64_le s n e)
]

u32_or_le : (s : Option String) (default : ℕ) → default ≤ u32_max → u32_or s default ≤ u32_max
unfolding u32_or parse_u32
u32_or_le none default h = h
u32_or_le (some s) default h = elim (Option-cases (parse_u64 s)) [
  | inl e ↦ rw (e, u32_or) h
  | inr (n, e) ↦ rw (e, u32_or) (ground arith)
]

trimmed-IsFilledText : (s : Option String) → IsFilledText (trimmed s)
unfolding trimmed
trimmed-IsFilledText none = tt
trimmed-IsFilledText (some s) = elim (Bool-cases (str_eq (trim s) "")) [
  | inl e ↦ rw (e, trimmed) tt
  | inr e ↦ rw (e, trimmed) (λ k. cc ((eq_iff (trim s) "").1 k, e))
]

fill-All : (parts : List String) → All IsFilled (fill parts)
unfolding fill
fill-All [] = tt
fill-All (p ∷ ps) = elim (Bool-cases (str_eq (trim p) "")) [
  | inl e ↦ rw e (fill-All ps)
  | inr e ↦ rw e (λ k. cc ((eq_iff (trim p) "").1 k, e), fill-All ps)
]

module _ (x : Deps) (setup : Setup) (env : Env)
    (wide : (b : Bytes) → length (x.digest b) ≡ 32) where
  or_single_some : (parts : List String) → 0 < length (or_single x setup env parts)
  or_single_some [] = omega arith
  or_single_some (p ∷ ps) = omega arith

  registries_some : (s : Option String) → 0 < length (registries_of x setup env s)
  registries_some none = omega arith
  registries_some (some s) = or_single_some (comma_list s)

  hash_token-Is32 : (token : Option String) → Is32 (hash_token x setup env token)
  hash_token-Is32 none = tt
  hash_token-Is32 (some token) = wide (as_bytes token)

  HasHash-Is32 : (token : Option Bytes) → HasHash x setup env token → Is32 token
  HasHash-Is32 token (inl (hex, set, (decoded, r, size, e))) = subst Is32 (sym e) size
  HasHash-Is32 token (inr (unset, e)) = subst Is32 (sym e) (hash_token-Is32 _)

  config_of-IsWellTyped :
      (key id : Bytes) (token : Option Bytes)
      → Is32 token
      → IsWellTyped (config_of x setup env key id token)
  unfolding evidence_registry_urls comma_list
  config_of-IsWellTyped key id token size = record {
    timeout = u64_or_le _ 30000 (omega arith);
    retries = u32_or_le _ 3 (omega arith);
    base = u64_or_le _ 200 (omega arith);
    limit = u64_or_le _ 30 (omega arith);
    window = u64_or_le _ 60000 (omega arith);
    dead_letter = u32_or_le _ 5 (omega arith);
    capacity = u64_or_le _ 256 (omega arith);
    lookback = u64_or_le _ 2000 (omega arith);
    hash = size;
    some_registry = registries_some (env "EVIDENCE_REGISTRY_URLS");
    origins = fill-All _;
    auth_header = trimmed-IsFilledText _;
    database = trimmed-IsFilledText _;
  }

  -- Where digests are 32 bytes long, a configuration that is read has numbers that fit the types of
  -- their fields, an operator digest of 32 bytes or none, at least one registry, no empty origin, and
  -- no empty header or database address.
  pub from_env-IsWellTyped : (c : OracleConfig) → from_env x setup env ≡ ok c → IsWellTyped c
  from_env-IsWellTyped c e =
      let (key, id, token, keypair, program, hash, made) =
        subst (Explained x setup env) e (from_env-Explained x setup env) in
      subst IsWellTyped (sym made) (config_of-IsWellTyped key id token (HasHash-Is32 token hash))
