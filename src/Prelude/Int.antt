-- ===== src/Prelude/Int.antt =====
-- Signed integers over the native numbers: the values of an `i64`.
use Prim.Native.Nat.{ℕ, zero, suc, ◌+◌, ◌-◌, ◌*◌, ◌≤◌}
use mathlib.Core.Bool.{Bool, true, false}
use mathlib.Core.Path.{◌≡◌}
use native.Mathlib.Omega.{arith}
use osubot_rs.Prelude.Tests.{leb, ltb, ◌==◌, if◌then◌else◌}

-- `negsuc n` is -(n + 1).
pub data ℤ : Type 0 where
  pos : ℕ → ℤ
  negsuc : ℕ → ℤ

-- -n.
abbrev pub negate : ℕ → ℤ
negate zero = pos zero
negate (suc n) = negsuc n

-- The product with a positive constant.
unfoldable pub scale : ℕ → ℤ → ℤ
scale k (pos n) = pos (n * k)
scale k (negsuc n) = negate (suc n * k)

abbrev pub pos_part : ℤ → ℕ
pos_part (pos n) = n
pos_part (negsuc n) = 0

abbrev pub neg_part : ℤ → ℕ
neg_part (pos n) = 0
neg_part (negsuc n) = suc n

-- a - b, as an integer.
abbrev pub sub_ℕ : ℕ → ℕ → ℤ
sub_ℕ a b = if leb b a then pos (a - b) else negsuc (b - a - 1)

infixl 65 ◌+ℤ◌
infix 50 ◌≤ℤ◌
unfoldable pub ◌+ℤ◌ : ℤ → ℤ → ℤ
a +ℤ b = sub_ℕ (pos_part a + pos_part b) (neg_part a + neg_part b)

abbrev pub ◌≤ℤ◌ : ℤ → ℤ → Type 0
a ≤ℤ b = pos_part a + neg_part b ≤ pos_part b + neg_part a

-- `a > b` for a natural number `b`.
abbrev pub exceeds : ℤ → ℕ → Bool
exceeds (pos n) b = ltb b n
exceeds (negsuc n) b = false

-- `a < b` and `a == b`, as Booleans.
abbrev pub lt_i64 : ℤ → ℤ → Bool
lt_i64 (pos a) (pos b) = ltb a b
lt_i64 (pos a) (negsuc b) = false
lt_i64 (negsuc a) (pos b) = true
lt_i64 (negsuc a) (negsuc b) = ltb b a

abbrev pub eq_i64 : ℤ → ℤ → Bool
eq_i64 (pos a) (pos b) = a == b
eq_i64 (negsuc a) (negsuc b) = a == b
eq_i64 _ _ = false

pub eq_i64_same : (a b : ℤ) → eq_i64 a b ≡ true → a ≡ b
eq_i64_same (pos a) (pos b) h = ground arith
eq_i64_same (pos a) (negsuc b) h = ground arith
eq_i64_same (negsuc a) (pos b) h = ground arith
eq_i64_same (negsuc a) (negsuc b) h = ground arith
