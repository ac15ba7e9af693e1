-- ===== src/Prelude/Lists.antt =====
-- Lists measured by native numbers, quantified over by Boolean tests and by predicates.
use Prim.Native.Nat.{ℕ, zero, suc, ◌+◌, ◌<◌}
use mathlib.Core.Path.{◌≡◌, refl}
use mathlib.Core.Bool.{Bool, true, false, ◌&&◌, ◌||◌}
use mathlib.Core.List.{List, [], ◌∷◌, ◌++◌}
use mathlib.Core.Option.{Option, none, some}
use native.Mathlib.Omega.{arith}
use oracle_qa.Prelude.Tests.{if◌then◌else◌, Bool-cases}
use mathlib.Core.Logic.{◌⊎◌, inl, inr}

module _ {ℓ} {A : Type ℓ} where
  abbrev pub length : List A → ℕ
  length [] = 0
  length (x ∷ xs) = suc (length xs)

  pub length-append : (xs ys : List A) → length (xs ++ ys) ≡ length xs + length ys
  length-append [] ys = omega arith
  length-append (x ∷ xs) ys = omega (arith, length-append xs ys)

  abbrev pub is_empty : List A → Bool
  is_empty [] = true
  is_empty (x ∷ xs) = false

  abbrev pub all : (A → Bool) → List A → Bool
  all p [] = true
  all p (x ∷ xs) = p x && all p xs

  abbrev pub any : (A → Bool) → List A → Bool
  any p [] = false
  any p (x ∷ xs) = p x || any p xs

  abbrev pub find : (A → Bool) → List A → Option A
  find p [] = none
  find p (x ∷ xs) = if p x then some x else find p xs

  pub all-append : (p : A → Bool) (xs ys : List A) → all p (xs ++ ys) ≡ (all p xs && all p ys)
  all-append p [] ys = refl
  all-append p (x ∷ xs) ys = ground (arith, all-append p xs ys)

module _ {ℓ κ} {A : Type ℓ} where
  -- A predicate of every element, as a tuple.
  abbrev pub All : (A → Type κ) → List A → Type κ
  All P [] = Unit
  All P (x ∷ xs) = P x × All P xs

module _ {ℓ} {A : Type ℓ} where
  abbrev pub take : ℕ → List A → List A
  take zero xs = []
  take (suc n) [] = []
  take (suc n) (x ∷ xs) = x ∷ take n xs

  abbrev pub drop : ℕ → List A → List A
  drop zero xs = xs
  drop (suc n) [] = []
  drop (suc n) (x ∷ xs) = drop n xs

  abbrev pub get_elem? : List A → ℕ → Option A
  get_elem? [] i = none
  get_elem? (x ∷ xs) zero = some x
  get_elem? (x ∷ xs) (suc i) = get_elem? xs i

module _ {A : Type 0} where
  -- A predicate of some element.
  abbrev pub Any : (A → Type 0) → List A → Type 0
  Any P [] = ⊥
  Any P (x ∷ xs) = P x ⊎ Any P xs

  pub Any-append : (P : A → Type 0) (xs ys : List A) → Any P (xs ++ ys) → Any P xs ⊎ Any P ys
  Any-append P [] ys h = inr h
  Any-append P (x ∷ xs) ys (inl h) = inl (inl h)
  Any-append P (x ∷ xs) ys (inr h) = elim (Any-append P xs ys h) [
    | inl k ↦ inl (inr k)
    | inr k ↦ inr k
  ]

  pub append-Any : (P : A → Type 0) (xs ys : List A) → Any P xs ⊎ Any P ys → Any P (xs ++ ys)
  append-Any P [] ys (inl h) = absurd h
  append-Any P [] ys (inr h) = h
  append-Any P (x ∷ xs) ys (inl (inl h)) = inl h
  append-Any P (x ∷ xs) ys (inl (inr h)) = inr (append-Any P xs ys (inl h))
  append-Any P (x ∷ xs) ys (inr h) = inr (append-Any P xs ys (inr h))

  pub Any-imp : {P Q : A → Type 0} (f : (a : A) → P a → Q a) (xs : List A) → Any P xs → Any Q xs
  Any-imp f [] h = absurd h
  Any-imp f (x ∷ xs) (inl h) = inl (f x h)
  Any-imp f (x ∷ xs) (inr h) = inr (Any-imp f xs h)

module _ {A : Type 0} where
  -- `a` is an element of the list.
  abbrev pub In : A → List A → Type 0
  In a = Any (λ b. b ≡ a)

  pub Any-any : (p : A → Bool) (xs : List A) → Any (λ a. p a ≡ true) xs → any p xs ≡ true
  Any-any p [] h = absurd h
  Any-any p (x ∷ xs) (inl h) = ground arith
  Any-any p (x ∷ xs) (inr h) = ground (arith, Any-any p xs h)

  pub any-Any : (p : A → Bool) (xs : List A) → any p xs ≡ true → Any (λ a. p a ≡ true) xs
  any-Any p [] h = cc
  any-Any p (x ∷ xs) h = elim (Bool-cases (p x)) [
    | inl e ↦ inl e
    | inr e ↦ inr (any-Any p xs (rw e at h))
  ]

module _ {ℓ} {A : Type ℓ} where
  pub get_elem?_lt : (xs : List A) (i : ℕ) (a : A) → get_elem? xs i ≡ some a → i < length xs
  get_elem?_lt [] i a h = cc
  get_elem?_lt (x ∷ xs) zero a h = omega arith
  get_elem?_lt (x ∷ xs) (suc i) a h = omega (arith, get_elem?_lt xs i a h)
