-- ===== src/Commands/Args/Limit.antt =====
-- Positions, ranges and times (osubot-core/src/commands/common.rs).
use osubot_rs.Prelude.{
  ℕ, not, ◌||◌, List, [], ◌∷◌, Option, none, some, ℤ, scale, ◌+ℤ◌, exceeds, ltb, ◌==◌,
  if◌then◌else◌, ◌>>=◌, is_empty, unwrap_or,
}
use osubot_rs.Text.{Text, split, split_once, byte_len}
use osubot_rs.Text.Number.{parse_u32, parse_i64}

abbrev pub max_limit : ℕ
max_limit = 200

abbrev pub score_id_threshold : ℕ
score_id_threshold = 10000000

-- `x.clamp(lo, hi)`, where `lo ≤ hi`.
abbrev pub clamp : ℕ → ℕ → ℕ → ℕ
clamp lo hi x = if ltb x lo then lo else if ltb hi x then hi else x

abbrev pub parse_range_parts : Text → Text → Option (ℕ × ℕ)
parse_range_parts a b =
    if is_empty a || is_empty b
    then none
    else parse_u32 a >>= λ start. parse_u32 b >>= λ end. some (start, end)

unfoldable pub try_parse_range : Text → Option (ℕ × ℕ)
unfolding split_once
try_parse_range s = split_once b'-' s >>= λ p. parse_range_parts p.0 p.1

abbrev pub limit_range : Text → Text → ℕ × Option ℕ
limit_range a b =
    let start = clamp 1 max_limit (unwrap_or (parse_u32 a) 1) in
    (start, some (clamp start max_limit (unwrap_or (parse_u32 b) start)))

unfoldable pub parse_limit : Text → ℕ × Option ℕ
unfolding split_once
parse_limit num_str = elim (split_once b'-' num_str) [
  | some (a, b) ↦ limit_range a b
  | none ↦ (clamp 1 max_limit (unwrap_or (parse_u32 num_str) 1), none)
]

abbrev time_ms : ℤ → ℤ → ℤ → Option ℤ
time_ms minutes seconds millis =
    if exceeds seconds 59 || exceeds millis 999
    then none
    else some (scale 60000 minutes +ℤ scale 1000 seconds +ℤ millis)

time_parts : Text → Text → Text → Option ℤ
time_parts a b c =
    if is_empty a || ltb 2 (byte_len a)
    then none
    else if not (byte_len b == 2)
    then none
    else if not (byte_len c == 3)
    then none
    else parse_i64 a >>= λ minutes.
        parse_i64 b >>= λ seconds. parse_i64 c >>= λ millis. time_ms minutes seconds millis

time_of_parts : List Text → Option ℤ
time_of_parts (a ∷ b ∷ c ∷ []) = time_parts a b c
time_of_parts _ = none

unfoldable pub parse_time_token : Text → Option ℤ
unfolding time_of_parts time_parts
parse_time_token s = time_of_parts (split b':' s)
