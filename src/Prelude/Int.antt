-- ===== src/Prelude/Int.antt =====
-- `i64` time stamps, as integers: the program only compares them.
use Prim.Native.Nat.{ℕ, suc, ◌+◌, ◌≤◌}
use mathlib.Core.Path.{◌≡◌}
use mathlib.Core.Bool.{Bool, true}
use native.Mathlib.Omega.{arith}
use oracle_qa.Prelude.Tests.{ltb, ◌==◌}

-- `negsuc n` is -(n + 1).
pub data ℤ : Type 0 where
  pos : ℕ → ℤ
  negsuc : ℕ → ℤ

abbrev pub pos_part : ℤ → ℕ
pos_part (pos n) = n
pos_part (negsuc n) = 0

abbrev pub neg_part : ℤ → ℕ
neg_part (pos n) = 0
neg_part (negsuc n) = suc n

infix 50 ◌≤ℤ◌
abbrev pub ◌≤ℤ◌ : ℤ → ℤ → Type 0
a ≤ℤ b = pos_part a + neg_part b ≤ pos_part b + neg_part a

abbrev pub gt_ℤ : ℤ → ℤ → Bool
gt_ℤ a b = ltb (pos_part b + neg_part a) (pos_part a + neg_part b)

abbrev pub is_zero : ℤ → Bool
is_zero a = pos_part a == neg_part a

pub is_zero→eq : (a : ℤ) → is_zero a ≡ true → a ≡ pos 0
is_zero→eq (pos n) h = ground arith
is_zero→eq (negsuc n) h = ground arith
