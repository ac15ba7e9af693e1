-- ===== src/Config/Parse.antt =====
-- src/config.rs: how one variable is read: trimmed, as a list, as a number, as a switch.
use oracle_qa.Prelude.{
  ℕ, ◌+◌, ◌≡◌, refl, ◌&&◌, Bool, true, String, List, [], ◌∷◌, Option, none, some, map, leb, ◌==◌,
  if◌then◌else◌, any, bytes_eq,
}
use oracle_qa.Prelude.Text.{str_eq, trim, parse_u64}
use Prim.Native.Char.{Char, code}

-- `env::var`: nothing where the variable is not set or is not Unicode.
abbrev pub Env : Type 0
Env = String → Option String

abbrev pub unwrap_or {ℓ} : {A : Type ℓ} → Option A → A → A
unwrap_or none a = a
unwrap_or (some b) a = b

abbrev pub and_then {ℓ κ} : {A : Type ℓ} {B : Type κ} → Option A → (A → Option B) → Option B
and_then none f = none
and_then (some a) f = f a

-- `.filter(|s| !s.is_empty())`.
abbrev pub filled : String → Option String
filled s = if str_eq s "" then none else some s

-- `.ok().map(|s| s.trim().to_string()).filter(|s| !s.is_empty())`.
unfoldable pub trimmed : Option String → Option String
trimmed s = and_then s (λ t. filled (trim t))

push_first : Char → List String → List String
push_first c [] = String.◌∷◌ c "" ∷ []
push_first c (p ∷ ps) = String.◌∷◌ c p ∷ ps

-- `split(',')`.
unfoldable pub split_commas : String → List String
unfolding push_first
split_commas String.[] = "" ∷ []
split_commas (String.◌∷◌ c s) =
    let rest = split_commas s in if code c == b',' then "" ∷ rest else push_first c rest

unfoldable pub fill : List String → List String
fill [] = []
fill (p ∷ ps) = let rest = fill ps in if str_eq (trim p) "" then rest else trim p ∷ rest

-- `split(',')`, each part trimmed, the empty ones dropped.
unfoldable pub comma_list : String → List String
comma_list s = fill (split_commas s)

comma_list_test : comma_list " a,b , ,c" ≡ "a" ∷ "b" ∷ "c" ∷ []
unfolding comma_list split_commas fill trim
comma_list_test = refl

-- `.and_then(|s| s.parse().ok()).unwrap_or(default)`, into a `u64` or a 64-bit `usize`, and into a `u32`.
unfoldable pub u64_or : Option String → ℕ → ℕ
u64_or s default = unwrap_or (and_then s parse_u64) default

abbrev pub u32_max : ℕ
u32_max = 4294967295

unfoldable pub parse_u32 : String → Option ℕ
parse_u32 s = and_then (parse_u64 s) (λ n. if leb n u32_max then some n else none)

unfoldable pub u32_or : Option String → ℕ → ℕ
u32_or s default = unwrap_or (and_then s parse_u32) default

-- The characters' codes after `to_ascii_lowercase`.
lowercase_code : ℕ → ℕ
lowercase_code c = if leb b'A' c && leb c b'Z' then c + 32 else c

codes : String → List ℕ
codes String.[] = []
codes (String.◌∷◌ c s) = code c ∷ codes s

-- `matches!(s.trim().to_ascii_lowercase().as_str(), "1" | "true" | "yes" | "on")`.
unfoldable pub is_switched_on : String → Bool
unfolding lowercase_code codes
is_switched_on s =
    any (λ word. bytes_eq (map lowercase_code (codes (trim s))) (codes word))
      ("1" ∷ "true" ∷ "yes" ∷ "on" ∷ [])

unfoldable pub env_bool : Env → String → Bool → Bool
env_bool env name default = unwrap_or (and_then (env name) (λ s. some (is_switched_on s))) default

is_switched_on_test : is_switched_on " True\n" ≡ true
unfolding is_switched_on trim
is_switched_on_test = refl
