-- ===== src/Text/Number.antt =====
-- `str::parse` at the integer types: an optional sign, digits in base ten, no overflow.
pub mod Digits
pub mod Bounds
use osubot_rs.Prelude.{
  ℕ, ◌+◌, ◌-◌, ◌*◌, [], ◌∷◌, Option, none, some, ℤ, pos, negate, ltb, ◌==◌, if◌then◌else◌,
}
use osubot_rs.Text.Trim.{Text, is_digit}

abbrev pub u32_max : ℕ
u32_max = 4294967295

abbrev pub u64_max : ℕ
u64_max = 18446744073709551615

-- The largest `i64`; the smallest is `- i64_max - 1`.
abbrev pub i64_max : ℕ
i64_max = 9223372036854775807

-- The digits read into `acc`, refused as soon as the value passes `limit`.
unfoldable pub parse_digits : ℕ → ℕ → Text → Option ℕ
parse_digits limit acc [] = some acc
parse_digits limit acc (c ∷ s) =
    let next = acc * 10 + (c - b'0') in
    let rest = parse_digits limit next s in
    if is_digit c then (if ltb limit next then none else rest) else none

-- At least one digit.
unfoldable pub parse_nonempty : ℕ → Text → Option ℕ
unfolding parse_digits
parse_nonempty limit [] = none
parse_nonempty limit (c ∷ s) = parse_digits limit 0 (c ∷ s)

unfoldable pub parse_unsigned : ℕ → Text → Option ℕ
unfolding parse_nonempty
parse_unsigned limit [] = none
parse_unsigned limit (c ∷ s) =
    if c == b'+' then parse_nonempty limit s else parse_nonempty limit (c ∷ s)

abbrev pub parse_u32 : Text → Option ℕ
parse_u32 = parse_unsigned u32_max

abbrev pub parse_u64 : Text → Option ℕ
parse_u64 = parse_unsigned u64_max

abbrev to_negative : Option ℕ → Option ℤ
to_negative none = none
to_negative (some n) = some (negate n)

abbrev to_positive : Option ℕ → Option ℤ
to_positive none = none
to_positive (some n) = some (pos n)

unfoldable pub parse_i64 : Text → Option ℤ
unfolding parse_nonempty
parse_i64 [] = none
parse_i64 (c ∷ s) =
    if c == b'-'
    then to_negative (parse_nonempty (i64_max + 1) s)
    else if c == b'+'
    then to_positive (parse_nonempty i64_max s)
    else to_positive (parse_nonempty i64_max (c ∷ s))
