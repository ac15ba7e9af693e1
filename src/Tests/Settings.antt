-- ===== src/Tests/Settings.antt =====
-- The configuration that sample environments give.
use oracle_qa.Prelude.{
  ℕ, zero, suc, ◌<◌, ◌≡◌, ◌↔◌, ◌⊎◌, refl, ap, Bytes, String, List, [], ◌∷◌, none, some, ok, err,
  length, if◌then◌else◌, false,
}
use oracle_qa.Prelude.Text.{str_eq, as_bytes, trim, parse_u64}
use oracle_qa.State.{OracleConfig}
use oracle_qa.External.{Deps}
use oracle_qa.Samples.{sample_deps}
use oracle_qa.Server.Access.{Headers, authorize_manual_evaluate, expire, window_ns}
use oracle_qa.Config.Parse.{
  Env, trimmed, u32_or, parse_u32, env_bool, is_switched_on, comma_list, split_commas, fill,
}
use oracle_qa.Config.FromEnv.{
  Setup, panicked, refused, from_env, oracle_keypair, escrow_program_id, operator_token_sha256,
  evidence_registry_urls, config_of,
}
use oracle_qa.Config.Admits.{Explained, from_env-Explained}
use oracle_qa.Config.WellTyped.{IsWellTyped, from_env-IsWellTyped}
use oracle_qa.Config.Opens.{IsDemo, HasToken, authorize-from_env}

-- The first bytes of a list, and zeros where it is shorter.
abbrev pad : ℕ → Bytes → Bytes
pad zero b = []
pad (suc n) [] = 0 ∷ pad n []
pad (suc n) (b ∷ bs) = b ∷ pad n bs

length-pad : (n : ℕ) (b : Bytes) → length (pad n b) ≡ n
length-pad zero b = refl
length-pad (suc n) [] = ap suc (length-pad n [])
length-pad (suc n) (b ∷ bs) = ap suc (length-pad n bs)

abbrev pub wide_deps : Deps
wide_deps = record sample_deps { encodings = record sample_deps.encodings { digest = pad 32 } }

abbrev pub setup : Setup
setup = record {
  read_keypair_file = λ path. if str_eq path "/key" then ok (9 ∷ []) else err "no such file";
  default_program_id = 8 ∷ [];
  hex_decode = λ hex. if str_eq hex "05" then ok (5 ∷ []) else ok (pad 32 (as_bytes hex));
}

abbrev pub look_up : List (String × String) → Env
look_up [] name = none
look_up (v ∷ vs) name = if str_eq v.0 name then some v.1 else look_up vs name

abbrev settings : Env
settings = look_up (
    ("ORACLE_KEYPAIR_PATH", "/key")
    ∷ ("EVIDENCE_REGISTRY_URLS", " http://a , ,http://b")
    ∷ ("ORACLE_OPERATOR_TOKEN", " secret ")
    ∷ ("ORACLE_DEAD_LETTER_MAX_ATTEMPTS", "4294967296")
    ∷ ("ORACLE_STRICT_PROFILE", "OFF")
    ∷ [])

abbrev settings_config : OracleConfig
settings_config =
    config_of wide_deps setup settings (9 ∷ []) (8 ∷ []) (some (pad 32 (as_bytes "secret")))

settings_read : from_env wide_deps setup settings ≡ ok settings_config
unfolding from_env oracle_keypair escrow_program_id operator_token_sha256 trimmed trim
settings_read = refl

-- A number that its type cannot hold counts as not set.
too_large : settings_config.dead_letter_max_attempts ≡ 5
unfolding u32_or parse_u32 parse_u64
too_large = refl

two_registries : settings_config.evidence_registry_urls ≡ "http://a" ∷ "http://b" ∷ []
unfolding evidence_registry_urls comma_list split_commas fill trim
two_registries = refl

not_strict : settings_config.strict_profile ≡ false
unfolding env_bool is_switched_on trim
not_strict = refl

short_digest :
    from_env wide_deps setup
      (look_up (("ORACLE_KEYPAIR_PATH", "/key") ∷ ("ORACLE_OPERATOR_TOKEN_SHA256", "05") ∷ []))
    ≡ err (refused "ORACLE_OPERATOR_TOKEN_SHA256 must decode to 32 bytes")
unfolding from_env oracle_keypair escrow_program_id operator_token_sha256 trimmed trim
short_digest = refl

bad_program :
    from_env wide_deps setup
      (look_up (("ORACLE_KEYPAIR_PATH", "/key") ∷ ("ESCROW_PROGRAM_ID", "??") ∷ []))
    ≡ err (panicked "Invalid ESCROW_PROGRAM_ID")
unfolding from_env oracle_keypair escrow_program_id operator_token_sha256 trimmed trim
bad_program = refl

from_env-Explained_example : Explained wide_deps setup settings (from_env wide_deps setup settings)
from_env-Explained_example = from_env-Explained wide_deps setup settings

from_env-IsWellTyped_example : IsWellTyped settings_config
from_env-IsWellTyped_example =
    from_env-IsWellTyped wide_deps setup settings (length-pad 32) settings_config settings_read

abbrev headers : Headers
headers = record { authorization = some "Bearer secret"; x_oracle_token = none }

authorize-from_env_example :
    ((authorize_manual_evaluate wide_deps settings_config headers 7 []).0 ≡ ok tt) ↔ (
      (IsDemo wide_deps setup settings ⊎ HasToken wide_deps setup settings headers)
      × (length (expire (window_ns settings_config) 7 [])
          < settings_config.manual_evaluate_rate_limit))
authorize-from_env_example =
    authorize-from_env wide_deps setup settings settings_config headers 7 [] settings_read
