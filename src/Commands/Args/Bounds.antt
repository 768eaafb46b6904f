-- ===== src/Commands/Args/Bounds.antt =====
-- Bounds of the positions read from a message (osubot-core/src/commands/common.rs).
use osubot_rs.Prelude.{
  ℕ, ◌≤◌, Option, none, some, List, Returns, Within, Returns-and_then, Returns-any, Option-cases,
  inl, inr, arith, ◌>>=◌,
}
use osubot_rs.Text.{Text, rsplit_once}
use osubot_rs.Commands.Args.Limit.{max_limit, parse_limit}
use osubot_rs.Commands.Args.Mode.{extract_mode}
use osubot_rs.Commands.Args.Suffix.{extract_plus_suffix}
use osubot_rs.Commands.Args.Common.{
  find_position, position_in_filters, split_last, extract_common_args,
}

abbrev pub LimitsOk : ℕ → Option ℕ → Type 0
LimitsOk limit limit_end = (1 ≤ limit) × (limit ≤ max_limit) × Within 1 max_limit limit_end

-- A range is in order.
abbrev pub Ordered : ℕ → Option ℕ → Type 0
Ordered limit limit_end = Within limit max_limit limit_end

-- Whatever text stands behind `#`, the position lies in 1 to 200, and a range ends at or behind
-- its start, and at 200 at most.
parse_limit_bounds :
    (s : Text)
    → (1 ≤ (parse_limit s).0)
      × ((parse_limit s).0 ≤ max_limit)
      × Ordered (parse_limit s).0 (parse_limit s).1
unfolding parse_limit
parse_limit_bounds s = ground arith

pub parse_limit-LimitsOk : (s : Text) → LimitsOk (parse_limit s).0 (parse_limit s).1
unfolding parse_limit
parse_limit-LimitsOk s = ground arith

position_in_filters-LimitsOk :
    (s : Text) (d : ℕ) (fs : Option (List Text)) (last : Option (List Text × Text))
    → 1 ≤ d
    → d ≤ max_limit
    → LimitsOk (position_in_filters s d fs last).limit (position_in_filters s d fs last).limit_end
unfolding position_in_filters
position_in_filters-LimitsOk s d fs none lo hi = ground arith
position_in_filters-LimitsOk s d fs (some (before, last)) lo hi =
    elim (Option-cases (rsplit_once b'#' last)) [
      | inl e ↦ rw (e, position_in_filters) (lo, hi, tt)
      | inr ((kept, num_str), e) ↦ rw (e, position_in_filters) (parse_limit-LimitsOk num_str)
    ]

find_position-LimitsOk :
    (s : Text) (d : ℕ) (fs : Option (List Text))
    → 1 ≤ d
    → d ≤ max_limit
    → LimitsOk (find_position s d fs).limit (find_position s d fs).limit_end
unfolding find_position
find_position-LimitsOk s d fs lo hi = elim (Option-cases (rsplit_once b'#' s)) [
  | inl e ↦
      rw (e, find_position) (position_in_filters-LimitsOk s d fs (fs >>= λ l. split_last l) lo hi)
  | inr ((before, num_str), e) ↦ rw (e, find_position) (parse_limit-LimitsOk num_str)
]

-- The position of the common arguments lies in 1 to 200, and so does the end of a range.
pub extract_common_args-LimitsOk :
    (s : Text) (d : ℕ)
    → 1 ≤ d
    → d ≤ max_limit
    → Returns (λ args. LimitsOk args.limit args.limit_end) (extract_common_args s d)
unfolding extract_common_args
extract_common_args-LimitsOk s d lo hi =
    Returns-and_then (λ _. Unit {0}) (λ args. LimitsOk args.limit args.limit_end) (extract_mode s) _
      (Returns-any _)
      (λ moded _.
        find_position-LimitsOk (extract_plus_suffix moded.0).0 d (extract_plus_suffix moded.0).2 lo
          hi)
