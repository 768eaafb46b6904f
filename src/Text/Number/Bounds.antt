-- ===== src/Text/Number/Bounds.antt =====
-- A number that is read fits its type.
use osubot_rs.Prelude.{
  ℕ, ◌+◌, ◌-◌, ◌*◌, ◌≤◌, [], ◌∷◌, Option, none, some, arith, Within, ℤ, ◌≤ℤ◌, pos, negsuc,
}
use osubot_rs.Text.Trim.{Text}
use osubot_rs.Text.Number.{parse_digits, parse_nonempty, parse_unsigned, parse_i64, i64_max}

parse_digits_bounds :
    (limit acc : ℕ) (s : Text) → acc ≤ limit → Within 0 limit (parse_digits limit acc s)
unfolding parse_digits
parse_digits_bounds limit acc [] h = ground arith
parse_digits_bounds limit acc (c ∷ s) h =
    ground (arith, parse_digits_bounds limit (acc * 10 + (c - b'0')) s)

parse_nonempty_bounds : (limit : ℕ) (s : Text) → Within 0 limit (parse_nonempty limit s)
unfolding parse_nonempty
parse_nonempty_bounds limit [] = ground arith
parse_nonempty_bounds limit (c ∷ s) = parse_digits_bounds limit 0 (c ∷ s) (omega arith)

-- `parse` at an unsigned type returns at most the type's largest value.
pub parse_unsigned_bounds : (limit : ℕ) (s : Text) → Within 0 limit (parse_unsigned limit s)
unfolding parse_unsigned
parse_unsigned_bounds limit [] = ground arith
parse_unsigned_bounds limit (c ∷ s) =
    ground (arith, parse_nonempty_bounds limit s, parse_nonempty_bounds limit (c ∷ s))

abbrev pub IsI64 : Option ℤ → Type 0
IsI64 none = Unit
IsI64 (some v) = (negsuc i64_max ≤ℤ v) × (v ≤ℤ pos i64_max)

-- `parse::<i64>` returns a value from -2^63 to 2^63 - 1.
pub parse_i64_bounds : (s : Text) → IsI64 (parse_i64 s)
unfolding parse_i64
parse_i64_bounds [] = ground arith
parse_i64_bounds (c ∷ s) = ground (
  arith,
  parse_nonempty_bounds i64_max s,
  parse_nonempty_bounds (i64_max + 1) s,
  parse_nonempty_bounds i64_max (c ∷ s),
)
