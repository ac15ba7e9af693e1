-- ===== src/Server/Router.antt =====
-- src/server.rs, `create_router`, `cors_layer` and `root`: the addresses of the interface, the origins
-- that a browser may call it from, and what it says of itself.
use oracle_qa.Prelude.{String, Bytes, List, [], ◌∷◌, Option, none, some, if◌then◌else◌, is_empty}
use oracle_qa.State.{OracleConfig}

pub data Method : Type 0 where
  get post : Method

pub data Endpoint : Type 0 where
  root health stats metrics manual_evaluate : Endpoint

-- What answers which method at which path; the framework answers anything else by itself.
abbrev pub create_router : List (String × Method × Endpoint)
create_router =
    ("/", get, root)
    ∷ ("/health", get, health)
    ∷ ("/stats", get, stats)
    ∷ ("/metrics", get, metrics)
    ∷ ("/evaluate", post, manual_evaluate)
    ∷ []

-- `CorsLayer`: the methods and headers that are allowed, and the origins, where the list is set.
pub record CorsLayer : Type 0 where
  pub allow_methods : List Method
  pub allow_headers : List String
  pub allow_origin : Option (List Bytes)

-- `filter_map(|origin| origin.parse().ok())`, into header values.
unfoldable pub parsed_origins : (String → Option Bytes) → List String → List Bytes
parsed_origins parse [] = []
parsed_origins parse (origin ∷ origins) =
    let rest = parsed_origins parse origins in
    elim (parse origin) [ none ↦ rest | some value ↦ value ∷ rest ]

abbrev pub origins_of : List Bytes → Option (List Bytes)
origins_of [] = none
origins_of (o ∷ os) = some (o ∷ os)

unfoldable pub cors_layer : (String → Option Bytes) → OracleConfig → CorsLayer
cors_layer parse config = record {
  allow_methods = get ∷ post ∷ [];
  allow_headers = "content-type" ∷ "authorization" ∷ "x-oracle-token" ∷ [];
  allow_origin =
      if is_empty config.cors_allowed_origins
      then none
      else origins_of (parsed_origins parse config.cors_allowed_origins);
}

-- The fields of the JSON at the root; the version is the package's.
pub record About : Type 0 where
  pub service : String
  pub version : String
  pub description : String
  pub endpoints : List (String × String)

abbrev pub about : String → About
about package_version = record {
  service = "oracle-qa";
  version = package_version;
  description = "API Response Quality Oracle for x402 SLA-Escrow";
  endpoints =
      ("GET /health", "Health check")
      ∷ ("GET /stats", "Oracle statistics (JSON)")
      ∷ ("GET /metrics", "Prometheus text exposition")
      ∷ ("POST /evaluate", "Manual evaluation trigger (operator-only)")
      ∷ [];
}
