-- ===== src/Commands/Scoring/Tokens.antt =====
-- The tokens that are left after mode, mods and position: `is_filter_token` and
-- `parse_remaining_tokens` (osubot-core/src/commands/scoring.rs).
use osubot_rs.Prelude.{
  ℕ, ◌%◌, ◌^◌, Bool, true, false, not, ◌&&◌, ◌||◌, List, [], ◌∷◌, ◌++◌, Option, none, some, ℤ, ltb,
  leb, if◌then◌else◌, ◌>>=◌, is_empty, is_some, or_else,
}
use osubot_rs.Text.{Text, codes, split, split_whitespace, split_once, split_at, strip_prefix, join}
use osubot_rs.Text.Number.{parse_u64, parse_i64}
use osubot_rs.Commands.Args.{max_limit, score_id_threshold, clamp, try_parse_range}

pub record RemainingTokens : Type 0 where
  pub beatmap_id : Option ℕ
  pub score_id : Option ℕ
  pub username : Option Text
  pub qq : Option ℤ
  pub filters : Option (List Text)
  pub implicit_limit : Option ℕ
  pub limit_end : Option ℕ

-- An operator was found with something on both sides.
abbrev splits_token : Option (Text × Text) → Bool
splits_token none = false
splits_token (some (key, value)) = not (is_empty key) && not (is_empty value)

unfoldable pub is_filter_token : Text → Bool
unfolding split_at split_once
is_filter_token token =
    splits_token (split_at (codes "==") token)
    || splits_token (split_at (codes ">=") token)
    || splits_token (split_at (codes "<=") token)
    || splits_token (split_at (codes "!=") token)
    || splits_token (split_once b'=' token)
    || splits_token (split_once b'>' token)
    || splits_token (split_once b'<' token)

-- The local variables of the loop.
pub record Scan : Type 0 where
  pub beatmap_id : Option ℕ
  pub score_id : Option ℕ
  pub name_parts : List Text
  pub qq_id : Option ℤ
  pub found_eq : Bool
  pub extra_filters : List Text
  pub implicit_limit : Option ℕ
  pub limit_end : Option ℕ
  pub has_invalid_mention : Bool

abbrev pub scan_start : Scan
scan_start = record {
  beatmap_id = none;
  score_id = none;
  name_parts = [];
  qq_id = none;
  found_eq = false;
  extra_filters = [];
  implicit_limit = none;
  limit_end = none;
  has_invalid_mention = false;
}

-- The id of `qq=<id>` or `@<id>`.
unfoldable pub scan_mention : Scan → Option ℤ → Scan
scan_mention s (some id) = record s { qq_id = some id }
scan_mention s none = record s { has_invalid_mention = true }

unfoldable pub scan_range : Scan → ℕ → ℕ → Option Scan
scan_range s start end =
    let clamped_start = clamp 1 max_limit start in
    if ltb max_limit start
    then none
    else some (record s {
      implicit_limit = some clamped_start;
      limit_end = some (clamp clamped_start max_limit end);
    })

-- `num as u32` keeps the low 32 bits.
unfoldable pub scan_number : Scan → ℕ → Option Scan
scan_number s num =
    if leb score_id_threshold num
    then some (record s { score_id = some num })
    else if leb num max_limit
    then some (record s { implicit_limit = some (clamp 1 max_limit (num % 2 ^ 32)) })
    else if not (is_some s.beatmap_id)
    then some (record s { beatmap_id = some (num % 2 ^ 32) })
    else none

unfoldable pub scan_word : Scan → Text → Option ℕ → Option Scan
scan_word s token (some num) = scan_number s num
scan_word s token none = some (record s { name_parts = s.name_parts ++ (token ∷ []) })

-- A token that is no mention and no filter; `found_eq` makes the loop ignore it.
unfoldable pub scan_other : Scan → Text → Option (ℕ × ℕ) → Option Scan
scan_other s token (some (start, end)) = if not s.found_eq then scan_range s start end else some s
scan_other s token none = if not s.found_eq then scan_word s token (parse_u64 token) else some s

unfoldable pub scan_at : Scan → Text → Option Text → Option Scan
scan_at s token (some id) = some (scan_mention s (parse_i64 id))
scan_at s token none = scan_other s token (try_parse_range token)

unfoldable pub scan_filter : Scan → Text → Option Scan
scan_filter s token =
    if is_filter_token token
    then some (record s { found_eq = true; extra_filters = s.extra_filters ++ split b',' token })
    else scan_at s token (strip_prefix (codes "@") token)

-- One round of the loop; `none` is its early return.
unfoldable pub scan_qq : Scan → Text → Option Text → Option Scan
scan_qq s token (some id) = some (scan_mention s (parse_i64 id))
scan_qq s token none = scan_filter s token

unfoldable pub scan_token : Scan → Text → Option Scan
unfolding scan_mention scan_range scan_number scan_word scan_other scan_at scan_filter scan_qq
scan_token s token = scan_qq s token (strip_prefix (codes "qq=") token)

unfoldable pub scan_tokens : Scan → List Text → Option Scan
scan_tokens s [] = some s
scan_tokens s (t ∷ ts) = scan_token s t >>= λ s'. scan_tokens s' ts

abbrev pub some_unless_empty : List Text → Option (List Text)
some_unless_empty [] = none
some_unless_empty (f ∷ fs) = some (f ∷ fs)

abbrev user_name : List Text → Option Text
user_name [] = none
user_name (w ∷ ws) = some (join (codes " ") (w ∷ ws))

-- What follows the loop.
unfoldable pub finish_scan : Option ℤ → Scan → Option RemainingTokens
finish_scan mentioned_user_id s =
    if s.has_invalid_mention
    then none
    else if is_some s.qq_id && is_some (user_name s.name_parts)
    then none
    else if is_some s.score_id && is_some s.beatmap_id
    then none
    else some (record {
      beatmap_id = s.beatmap_id;
      score_id = s.score_id;
      username = user_name s.name_parts;
      qq = or_else s.qq_id mentioned_user_id;
      filters = some_unless_empty s.extra_filters;
      implicit_limit = s.implicit_limit;
      limit_end = s.limit_end;
    })

abbrev no_tokens : Option ℤ → RemainingTokens
no_tokens mentioned_user_id = record {
  beatmap_id = none;
  score_id = none;
  username = none;
  qq = mentioned_user_id;
  filters = none;
  implicit_limit = none;
  limit_end = none;
}

unfoldable pub parse_remaining_tokens : Text → Option ℤ → Option RemainingTokens
unfolding scan_tokens finish_scan
parse_remaining_tokens [] mentioned_user_id = some (no_tokens mentioned_user_id)
parse_remaining_tokens (c ∷ rest) mentioned_user_id =
    scan_tokens scan_start (split_whitespace (c ∷ rest)) >>= finish_scan mentioned_user_id
