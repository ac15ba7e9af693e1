-- ===== src/Config/Admits.antt =====
-- src/config.rs, `OracleConfig::from_env`: when there is a configuration, and why there is none.
use oracle_qa.Prelude.{
  ◌≡◌, ◌≢◌, ◌⊎◌, inl, inr, refl, ◌==◌, ==_iff, String, Bytes, Option, none, some, Result, ok, err,
  length, Option-cases, Result-cases, Bool-cases,
}
use oracle_qa.Prelude.Text.{◌⊹◌}
use oracle_qa.State.{OracleConfig}
use oracle_qa.External.{Deps}
use oracle_qa.Config.Parse.{Env, trimmed}
use oracle_qa.Config.FromEnv.{
  Setup, Failure, refused, panicked, oracle_keypair, escrow_program_id, hash_token,
  operator_token_sha256, config_of, from_env,
}

module _ (x : Deps) (setup : Setup) (env : Env) where
  open setup use {read_keypair_file, default_program_id, hex_decode}

  abbrev pub HasKeypair : Bytes → Type 0
  HasKeypair key =
      (path : String) × (env "ORACLE_KEYPAIR_PATH" ≡ some path) × (read_keypair_file path ≡ ok key)

  -- The path is not set, or the file cannot be read.
  abbrev pub LacksKeypair : Type 0
  LacksKeypair =
      (env "ORACLE_KEYPAIR_PATH" ≡ none)
      ⊎ ((path : String) × (env "ORACLE_KEYPAIR_PATH" ≡ some path)
          × ((e : String) × (read_keypair_file path ≡ err e)))

  abbrev pub HasProgram : Bytes → Type 0
  HasProgram id =
      ((env "ESCROW_PROGRAM_ID" ≡ none) × (id ≡ default_program_id))
      ⊎ ((s : String) × (env "ESCROW_PROGRAM_ID" ≡ some s) × (x.parse_pubkey s ≡ some id))

  abbrev pub BadProgram : Type 0
  BadProgram = (s : String) × (env "ESCROW_PROGRAM_ID" ≡ some s) × (x.parse_pubkey s ≡ none)

  -- The digest of the operator's token: the one that is set, 32 bytes long, or else that of the token
  -- that is set, if any.
  abbrev pub HasHash : Option Bytes → Type 0
  HasHash token =
      ((hex : String) × (trimmed (env "ORACLE_OPERATOR_TOKEN_SHA256") ≡ some hex)
        × ((decoded : Bytes) × (hex_decode hex ≡ ok decoded)
            × (length decoded ≡ 32)
            × (token ≡ some decoded)))
      ⊎ ((trimmed (env "ORACLE_OPERATOR_TOKEN_SHA256") ≡ none)
          × (token ≡ hash_token x setup env (trimmed (env "ORACLE_OPERATOR_TOKEN"))))

  -- A digest is set that is no hexadecimal text or not 32 bytes long.
  abbrev pub BadHash : Type 0
  BadHash =
      (hex : String) × (trimmed (env "ORACLE_OPERATOR_TOKEN_SHA256") ≡ some hex)
      × (((e : String) × (hex_decode hex ≡ err e))
          ⊎ ((decoded : Bytes) × (hex_decode hex ≡ ok decoded) × (length decoded ≢ 32)))

  abbrev pub Explained : Result Failure OracleConfig → Type 0
  Explained (ok c) =
      (key : Bytes) × (id : Bytes) × (token : Option Bytes) × HasKeypair key
      × HasProgram id
      × HasHash token
      × (c ≡ config_of x setup env key id token)
  Explained (err (panicked m)) = ((key : Bytes) × HasKeypair key) × BadProgram
  Explained (err (refused m)) =
      LacksKeypair ⊎ (((key : Bytes) × HasKeypair key) × ((id : Bytes) × HasProgram id) × BadHash)

  keypair_cases :
      ((key : Bytes) × (oracle_keypair x setup env ≡ ok key) × HasKeypair key)
      ⊎ ((m : String) × (oracle_keypair x setup env ≡ err (refused m)) × LacksKeypair)
  unfolding oracle_keypair
  keypair_cases = elim (Option-cases (env "ORACLE_KEYPAIR_PATH")) [
    | inl unset ↦
        inr ("ORACLE_KEYPAIR_PATH is required", rw (unset, oracle_keypair) refl, inl unset)
    | inr (path, e) ↦ elim (Result-cases (read_keypair_file path)) [
      | inl (key, r) ↦ inl (key, rw (e, oracle_keypair) (rw r refl), (path, e, r))
      | inr (m, r) ↦ inr (
        "Failed to read oracle keypair at " ⊹ path ⊹ ": " ⊹ m,
        rw (e, oracle_keypair) (rw r refl),
        inr (path, e, (m, r)),
      )
    ]
  ]

  program_cases :
      ((id : Bytes) × (escrow_program_id x setup env ≡ ok id) × HasProgram id)
      ⊎ ((m : String) × (escrow_program_id x setup env ≡ err (panicked m)) × BadProgram)
  unfolding escrow_program_id
  program_cases = elim (Option-cases (env "ESCROW_PROGRAM_ID")) [
    | inl unset ↦ inl (default_program_id, rw (unset, escrow_program_id) refl, inl (unset, refl))
    | inr (s, e) ↦ elim (Option-cases (x.parse_pubkey s)) [
      | inl bad ↦
          inr ("Invalid ESCROW_PROGRAM_ID", rw (e, escrow_program_id) (rw bad refl), (s, e, bad))
      | inr (id, r) ↦ inl (id, rw (e, escrow_program_id) (rw r refl), inr (s, e, r))
    ]
  ]

  hash_cases :
      ((token : Option Bytes) × (operator_token_sha256 x setup env ≡ ok token) × HasHash token)
      ⊎ ((m : String) × (operator_token_sha256 x setup env ≡ err (refused m)) × BadHash)
  unfolding operator_token_sha256
  hash_cases = elim (Option-cases (trimmed (env "ORACLE_OPERATOR_TOKEN_SHA256"))) [
    | inl unset ↦ inl (
      hash_token x setup env (trimmed (env "ORACLE_OPERATOR_TOKEN")),
      rw (unset, operator_token_sha256) refl,
      inr (unset, refl),
    )
    | inr (hex, e) ↦ elim (Result-cases (hex_decode hex)) [
      | inr (m, r) ↦ inr (
        "ORACLE_OPERATOR_TOKEN_SHA256 must be 64 hex characters",
        rw (e, operator_token_sha256) (rw r refl),
        (hex, e, inl (m, r)),
      )
      | inl (decoded, r) ↦ elim (Bool-cases (length decoded == 32)) [
        | inl size ↦ inl (
          some decoded,
          rw (e, operator_token_sha256) (rw r (rw size refl)),
          inl (hex, e, (decoded, r, (==_iff (length decoded) 32).0 size, refl)),
        )
        | inr size ↦ inr (
          "ORACLE_OPERATOR_TOKEN_SHA256 must decode to 32 bytes",
          rw (e, operator_token_sha256) (rw r (rw size refl)),
          (hex, e, inr (decoded, r, λ k. absurd (cc ((==_iff (length decoded) 32).1 k, size)))),
        )
      ]
    ]
  ]

  -- A configuration is read exactly as the environment says: its keypair is the readable one of the
  -- path that is set, its program the one that is set or the crate's, its operator digest the one that
  -- is set, 32 bytes long, or that of the token that is set. The program panics only where the keypair
  -- is there and the program id that is set is no public key. It refuses to start only where the path
  -- is not set or its file not readable, or, with a keypair and a program, where a digest is set that
  -- is no hexadecimal text of 32 bytes.
  pub from_env-Explained : Explained (from_env x setup env)
  unfolding from_env
  from_env-Explained = elim keypair_cases [
    | inr (m, e, lacks) ↦ rw (e, from_env) (inl lacks)
    | inl (key, e, has) ↦ elim program_cases [
      | inr (m, r, bad) ↦ rw (e, from_env) (rw r ((key, has), bad))
      | inl (id, r, program) ↦ elim hash_cases [
        | inr (m, h, bad) ↦ rw (e, from_env) (rw r (rw h (inr ((key, has), (id, program), bad))))
        | inl (token, h, hash) ↦
            rw (e, from_env) (rw r (rw h (key, id, token, has, program, hash, refl)))
      ]
    ]
  ]
