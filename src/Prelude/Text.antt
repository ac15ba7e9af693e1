-- ===== src/Prelude/Text.antt =====
-- The text that the program prints and compares: `format!` of numbers, `join`, comparisons.
use Prim.Native.String.{String, ◌++◌}
use text.Mathlib.Text.{starts_with}
use mathlib.Core.Path.{◌≡◌, refl, ap}
use mathlib.Core.Logic.{inl, inr}
use mathlib.Core.Bool.{Bool, true, false, ◌&&◌, ◌||◌}
use Prim.Native.Char.{code}
use mathlib.Core.Option.{Option, none, some}
use mathlib.Core.List.{List, [], ◌∷◌, ◌++◌ as append}
use Prim.Native.Nat.{ℕ, ◌+◌, ◌/◌, ◌%◌}
use oracle_qa.Prelude.Tests.{leb, ltb, ◌==◌, if◌then◌else◌, Bool-cases}
pub use text.Mathlib.Text.{◌==◌ as str_eq, starts_with}
pub use text.Mathlib.TextEquality.{eq_iff}
pub use text.Mathlib.TextPositions.{eq_refl, starts_with-append}
unfoldable pub use oracle_qa.Prelude.Decimal.{show, parse_u64}
pub use Prim.Native.String.{len, ◌++◌ as str_append}

infixl 65 ◌⊹◌
abbrev pub ◌⊹◌ : String → String → String
a ⊹ b = ◌++◌ a b

unfoldable pub join : String → List String → String
join sep [] = ""
join sep (s ∷ []) = s
join sep (s ∷ t ∷ ts) = s ⊹ sep ⊹ join sep (t ∷ ts)

-- A text that extends a prefix differs from every text that lacks it.
pub ne_of_prefix : (p s t : String) → starts_with t p ≡ false → str_eq (p ⊹ s) t ≡ false
ne_of_prefix p s t h = elim (Bool-cases (str_eq (p ⊹ s) t)) [
  | inl e ↦ cc (ap (λ u. starts_with u p) ((eq_iff (p ⊹ s) t).0 e), starts_with-append p s)
  | inr e ↦ e
]

-- `trim_end_matches('/')`.
unfoldable pub trim_end_slashes : String → String
trim_end_slashes String.[] = ""
trim_end_slashes (String.◌∷◌ c s) =
    let rest = trim_end_slashes s in
    if code c == b'/' && str_eq rest "" then "" else String.◌∷◌ c rest

trim_end_slashes_test : trim_end_slashes "http://a/b//" ≡ "http://a/b"
unfolding trim_end_slashes
trim_end_slashes_test = refl

-- `char::is_whitespace`.
is_whitespace : ℕ → Bool
is_whitespace c =
    (leb 9 c && leb c 13)
    || c == 32
    || c == 0x85
    || c == 0xa0
    || c == 0x1680
    || (leb 0x2000 c && leb c 0x200a)
    || c == 0x2028
    || c == 0x2029
    || c == 0x202f
    || c == 0x205f
    || c == 0x3000

trim_start : String → String
trim_start String.[] = ""
trim_start (String.◌∷◌ c s) = if is_whitespace (code c) then trim_start s else String.◌∷◌ c s

trim_end : String → String
trim_end String.[] = ""
trim_end (String.◌∷◌ c s) =
    let rest = trim_end s in
    if is_whitespace (code c) && str_eq rest "" then "" else String.◌∷◌ c rest

unfoldable pub trim : String → String
unfolding trim_start trim_end is_whitespace
trim s = trim_end (trim_start s)

trim_test : trim "  a b \n" ≡ "a b"
unfolding trim
trim_test = refl

unfoldable pub strip_prefix : String → String → Option String
strip_prefix String.[] s = some s
strip_prefix (String.◌∷◌ p ps) String.[] = none
strip_prefix (String.◌∷◌ p ps) (String.◌∷◌ c s) =
    if code p == code c then strip_prefix ps s else none

strip_prefix_test : strip_prefix "ab" "abc" ≡ some "c"
unfolding strip_prefix
strip_prefix_test = refl

utf8_char : ℕ → List ℕ
utf8_char c =
    if ltb c 0x80
    then c ∷ []
    else if ltb c 0x800
    then (0xc0 + c / 64) ∷ (0x80 + c % 64) ∷ []
    else if ltb c 0x10000
    then (0xe0 + c / 4096) ∷ (0x80 + c / 64 % 64) ∷ (0x80 + c % 64) ∷ []
    else (0xf0 + c / 262144) ∷ (0x80 + c / 4096 % 64) ∷ (0x80 + c / 64 % 64) ∷ (0x80 + c % 64) ∷ []

-- `str::as_bytes`.
unfoldable pub as_bytes : String → List ℕ
unfolding utf8_char
as_bytes String.[] = []
as_bytes (String.◌∷◌ c s) = append (utf8_char (code c)) (as_bytes s)

as_bytes_test : as_bytes "aé" ≡ 97 ∷ 195 ∷ 169 ∷ []
unfolding as_bytes
as_bytes_test = refl

-- `str::contains`, of a text that is not empty.
unfoldable pub contains : String → String → Bool
contains String.[] p = false
contains (String.◌∷◌ c s) p =
    let rest = contains s p in if starts_with (String.◌∷◌ c s) p then true else rest

contains_test : contains "a Program data: b" "Program data:" ≡ true
unfolding contains
contains_test = refl
