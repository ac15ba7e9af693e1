-- ===== src/Prelude/Decimal.antt =====
-- Numbers as text: `Display` of an unsigned integer, `str::parse::<u64>()`, and the way back.
use Prim.Native.Nat.{ℕ, zero, suc, ◌+◌, ◌-◌, ◌*◌, ◌/◌, ◌%◌, ◌≤◌, ◌<◌}
use Prim.Native.String.{String}
use Prim.Native.Char.{Char, code}
use mathlib.Core.Path.{◌≡◌, refl, ap, sym, ◌∙◌}
use mathlib.Core.Logic.{inl, inr}
use mathlib.Core.Bool.{true, false, ◌&&◌}
use mathlib.Core.Option.{Option, none, some}
use native.Mathlib.Omega.{arith}
use oracle_qa.Prelude.Tests.{leb, ltb, ◌==◌, if◌then◌else◌, Bool-cases, u64_max, ltb→lt, le→leb}

digit : ℕ → Char
digit d =
    if d == 0
    then "0"
    else if d == 1
    then "1"
    else if d == 2
    then "2"
    else if d == 3
    then "3"
    else if d == 4
    then "4"
    else if d == 5
    then "5"
    else if d == 6
    then "6"
    else if d == 7
    then "7"
    else if d == 8
    then "8"
    else "9"

-- The digits of a number before a text; a number has at most as many as the fuel that `show` gives.
put_digits : ℕ → ℕ → String → String
put_digits zero n out = out
put_digits (suc fuel) n out =
    let more = put_digits fuel (n / 10) (String.◌∷◌ (digit (n % 10)) out) in
    if ltb n 10 then String.◌∷◌ (digit n) out else more

-- `Display` of an unsigned integer: its decimal digits.
unfoldable pub show : ℕ → String
unfolding put_digits digit
show n = put_digits (suc n) n ""

show_test : show 5030 ≡ "5030"
unfolding show
show_test = refl

parse_digits : ℕ → String → Option ℕ
parse_digits acc String.[] = some acc
parse_digits acc (String.◌∷◌ c s) =
    let n = acc * 10 + (code c - b'0') in
    let rest = parse_digits n s in
    if leb b'0' (code c) && leb (code c) b'9' && leb n u64_max then rest else none

-- `str::parse::<u64>()`: digits, at least one, after a plus sign or none; too large a number fails.
unfoldable pub parse_u64 : String → Option ℕ
unfolding parse_digits
parse_u64 String.[] = none
parse_u64 (String.◌∷◌ c String.[]) = parse_digits 0 (String.◌∷◌ c String.[])
parse_u64 (String.◌∷◌ c (String.◌∷◌ d s)) =
    if code c == b'+'
    then parse_digits 0 (String.◌∷◌ d s)
    else parse_digits 0 (String.◌∷◌ c (String.◌∷◌ d s))

parse_u64_test : parse_u64 "5030" ≡ some 5030
unfolding parse_u64
parse_u64_test = refl

parse_u64_big : parse_u64 "18446744073709551616" ≡ none
unfolding parse_u64
parse_u64_big = refl

code-digit : (d : ℕ) → d < 10 → code (digit d) ≡ b'0' + d
unfolding digit
code-digit zero small = refl
code-digit (suc zero) small = refl
code-digit (suc (suc zero)) small = refl
code-digit (suc (suc (suc zero))) small = refl
code-digit (suc (suc (suc (suc zero)))) small = refl
code-digit (suc (suc (suc (suc (suc zero))))) small = refl
code-digit (suc (suc (suc (suc (suc (suc zero)))))) small = refl
code-digit (suc (suc (suc (suc (suc (suc (suc zero))))))) small = refl
code-digit (suc (suc (suc (suc (suc (suc (suc (suc zero)))))))) small = refl
code-digit (suc (suc (suc (suc (suc (suc (suc (suc (suc zero))))))))) small = refl
code-digit (suc (suc (suc (suc (suc (suc (suc (suc (suc (suc d)))))))))) small =
    absurd (omega arith)

-- A digit that is read after `acc`.
parse_digits-digit :
    (acc d n : ℕ) (out : String)
    → d < 10
    → acc * 10 + d ≡ n
    → n ≤ u64_max
    → parse_digits acc (String.◌∷◌ (digit d) out) ≡ parse_digits n out
unfolding parse_digits
parse_digits-digit acc d n out small e fits =
    let value : acc * 10 + (code (digit d) - b'0') ≡ n = omega (arith, code-digit d small, e) in
    let low : leb b'0' (code (digit d)) ≡ true = le→leb _ _ (omega (arith, code-digit d small)) in
    let high : leb (code (digit d)) b'9' ≡ true = le→leb _ _ (omega (arith, code-digit d small)) in
    rw value (rw low (rw high (rw (le→leb n u64_max fits) refl)))

-- A number is read back before any text.
parse_digits-put_digits :
    (fuel n : ℕ) (out : String)
    → n < fuel
    → n ≤ u64_max
    → parse_digits 0 (put_digits fuel n out) ≡ parse_digits n out
unfolding put_digits
parse_digits-put_digits zero n out h fits = absurd (omega (arith, h))
parse_digits-put_digits (suc fuel) n out h fits = elim (Bool-cases (ltb n 10)) [
  | inl e ↦ rw e (parse_digits-digit 0 n n out (ltb→lt n 10 e) (omega arith) fits)
  | inr e ↦ rw e (
      parse_digits-put_digits fuel (n / 10) (String.◌∷◌ (digit (n % 10)) out) (ground arith)
        (omega (arith, fits))
      ∙ parse_digits-digit (n / 10) (n % 10) n out (omega arith) (omega arith) fits)
]

-- A text that begins with a digit.
StartsWithDigit : String → Type 0
StartsWithDigit s = (d : ℕ) × (t : String) × (s ≡ String.◌∷◌ (digit d) t) × (d < 10)

put_digits-StartsWithDigit :
    (fuel n : ℕ) (out : String) → n < fuel → StartsWithDigit (put_digits fuel n out)
unfolding put_digits StartsWithDigit
put_digits-StartsWithDigit zero n out h = absurd (omega (arith, h))
put_digits-StartsWithDigit (suc fuel) n out h = elim (Bool-cases (ltb n 10)) [
  | inl e ↦ rw e (n, out, refl, ltb→lt n 10 e)
  | inr e ↦ rw e (put_digits-StartsWithDigit fuel (n / 10) _ (ground arith))
]

parse_u64-parse_digits :
    (d : ℕ) (t : String)
    → d < 10
    → parse_u64 (String.◌∷◌ (digit d) t) ≡ parse_digits 0 (String.◌∷◌ (digit d) t)
unfolding parse_u64
parse_u64-parse_digits d String.[] small = refl
parse_u64-parse_digits d (String.◌∷◌ c t) small =
    let no_plus : (code (digit d) == b'+') ≡ false = ground (arith, code-digit d small) in
    rw no_plus refl

-- Every `u64` is read back from its digits.
pub parse_u64-show : (n : ℕ) → n ≤ u64_max → parse_u64 (show n) ≡ some n
unfolding show StartsWithDigit parse_digits
parse_u64-show n fits =
    let (d, t, e, small) = put_digits-StartsWithDigit (suc n) n "" (omega arith) in
    let read = parse_digits-put_digits (suc n) n "" (omega arith) fits in
    ap parse_u64 e ∙ (parse_u64-parse_digits d t small ∙ (ap (parse_digits 0) (sym e) ∙ read))

parse_digits_le :
    (s : String) (acc n : ℕ) → acc ≤ u64_max → parse_digits acc s ≡ some n → n ≤ u64_max
unfolding parse_digits
parse_digits_le String.[] acc n fits e = ground arith
parse_digits_le (String.◌∷◌ c s) acc n fits e =
    ground (arith, parse_digits_le s (acc * 10 + (code c - b'0')) n)

-- What is read fits a `u64`.
pub parse_u64_le : (s : String) (n : ℕ) → parse_u64 s ≡ some n → n ≤ u64_max
unfolding parse_u64
parse_u64_le String.[] n e = cc
parse_u64_le (String.◌∷◌ c String.[]) n e =
    parse_digits_le (String.◌∷◌ c String.[]) 0 n (omega arith) e
parse_u64_le (String.◌∷◌ c (String.◌∷◌ d s)) n e = elim (Bool-cases (code c == b'+')) [
  | inl plus ↦ parse_digits_le (String.◌∷◌ d s) 0 n (omega arith) (rw plus at e)
  | inr digit ↦ parse_digits_le (String.◌∷◌ c (String.◌∷◌ d s)) 0 n (omega arith) (rw digit at e)
]
