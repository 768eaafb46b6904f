-- ===== src/Text/Number/Digits.antt =====
-- Reading the digits of a number gives the number.
use osubot_rs.Prelude.{ℕ, ◌+◌, ◌-◌, ◌*◌, ◌≤◌, ◌≡◌, refl, Bool, true, ◌&&◌, [], ◌∷◌, some, arith}
use osubot_rs.Text.Trim.{Text, is_digit}
use osubot_rs.Text.Number.{parse_digits, parse_unsigned}

abbrev pub all_digits : Text → Bool
all_digits [] = true
all_digits (c ∷ s) = is_digit c && all_digits s

-- The number that digits stand for, behind those of `acc`.
abbrev pub value_from : ℕ → Text → ℕ
value_from acc [] = acc
value_from acc (c ∷ s) = value_from (acc * 10 + (c - b'0')) s

le-value_from : (acc : ℕ) (s : Text) → acc ≤ value_from acc s
le-value_from acc [] = omega arith
le-value_from acc (c ∷ s) = omega (arith, le-value_from (acc * 10 + (c - b'0')) s)

parse_digits-value :
    (limit acc : ℕ) (s : Text)
    → all_digits s ≡ true
    → value_from acc s ≤ limit
    → parse_digits limit acc s ≡ some (value_from acc s)
unfolding parse_digits
parse_digits-value limit acc [] d h = refl
parse_digits-value limit acc (c ∷ s) d h = ground (
  arith,
  parse_digits-value limit (acc * 10 + (c - b'0')) s,
  le-value_from (acc * 10 + (c - b'0')) s,
)

-- A text of one digit or more is read as its value, where that fits the type.
pub parse_unsigned-value :
    (limit c : ℕ) (s : Text)
    → all_digits (c ∷ s) ≡ true
    → value_from 0 (c ∷ s) ≤ limit
    → parse_unsigned limit (c ∷ s) ≡ some (value_from 0 (c ∷ s))
unfolding parse_unsigned
parse_unsigned-value limit c s d h = ground (arith, parse_digits-value limit 0 (c ∷ s) d h)
