-- ===== src/Tests/Parsing.antt =====
-- Messages parsed as in the repository's tests, and the theorems on parsing at concrete messages.
use osubot_rs.Prelude.{
  ℕ, ◌≡◌, ◌↔◌, ◌+◌, refl, true, [], ◌∷◌, ◌++◌, Option, none, some, pos, ok, done, panicked, Returns,
  Holds, arith, ◌+ℤ◌, scale, negsuc,
}
use osubot_rs.Text.{
  Text, codes, trim, is_whitespace, text_eq, split_whitespace, rsplit_once, split_once, split_at,
  strip_prefix, join, replace, member, byte_len, trim_end_by, trim_start_by,
}
use osubot_rs.Text.Number.{parse_unsigned, parse_i64}
use osubot_rs.GameMode.{osu, taiko, try_from_i32, to_i32, from_digit_str, to_u8}
use osubot_rs.GameMode.Laws.{try_from_i32_iff, from_digit_str_iff}
use osubot_rs.Types.{Command, match_listen, start, pass, query_self}
use osubot_rs.Commands.Args.{
  extract_mode, parse_limit, extract_plus_suffix, extract_common_args, merge_mods_into_filters,
  try_parse_range, parse_time_token,
}
use osubot_rs.Commands.MatchListen.{
  parse_ml_match_id, parse_ml_subcommand, strip_ml_operation_prefix, strip_ml_operation_suffix,
}
use osubot_rs.Commands.Chain.{
  parse_command, tilde_form, where_qq_form, where_form, look_up_form, bind_form, highlight_form,
  mode_form, profile_form, ml_form,
}
use osubot_rs.Commands.MatchId.{parse_ml_match_id_spellings}
use osubot_rs.Commands.Limits.{
  LimitsInRange, IdsInRange, ShapeOk, parse_command-LimitsInRange, parse_command-IdsInRange,
  parse_command-ShapeOk,
}
use osubot_rs.Commands.Scoring.{
  parse_scoring_command, parse_remaining_tokens, scan_token, is_filter_token,
}
use osubot_rs.Commands.Ranges.{range_of, parse_standard_score-range}
use osubot_rs.Commands.Scoring.{parse_standard_score, best_list}
use osubot_rs.Commands.Returning.{parse_command-Ascii}
use osubot_rs.Commands.Panics.{extract_mode_panics}

-- All that the parser calls, for the runs below.
parser : ℕ
unfolding parse_command parse_ml_match_id tilde_form strip_prefix where_qq_form where_form
    look_up_form bind_form text_eq highlight_form mode_form profile_form parse_scoring_command
    ml_form parse_ml_subcommand rsplit_once parse_unsigned strip_ml_operation_prefix
    strip_ml_operation_suffix member extract_common_args extract_mode parse_remaining_tokens
    extract_plus_suffix scan_token is_filter_token split_whitespace split_once split_at join replace
    trim trim_end_by trim_start_by byte_len parse_i64 from_digit_str merge_mods_into_filters
    parse_limit try_parse_range parse_time_token ◌+ℤ◌ scale is_whitespace
parser = 0

skipped : parse_command (codes "!ml mp123 #2") none ≡ done (some (match_listen (start 123 2)))
unfolding parser
skipped = refl

-- `!ml info <id>` is no command.
info_id : parse_command (codes "!ml info 12345678") none ≡ done none
unfolding parser
info_id = refl

-- The position is behind the end of the range.
backwards :
    parse_command (codes "!ps 2-10 50") none
    ≡ done (
        some (
          pass (record {
            mode = none;
            username = none;
            qq = none;
            beatmap_id = none;
            score_id = none;
            limit = 50;
            limit_end = some 10;
            is_summary = true;
            filters = none;
          })))
unfolding parser
backwards = refl

-- A space and a Chinese name behind a colon.
name_panics : parse_command (codes "!p : 你好") none ≡ panicked
unfolding parser
name_panics = refl

-- A negative time is read.
negative_time : parse_time_token (codes "-1:00:000") ≡ some (negsuc 59999)
unfolding parser
negative_time = refl

fullwidth : parse_command (codes "～，1") none ≡ done (some (query_self (some taiko)))
unfolding parser
fullwidth = refl

try_from_i32_iff_example : (try_from_i32 (pos 1) ≡ ok taiko) ↔ (pos 1 ≡ to_i32 taiko)
try_from_i32_iff_example = try_from_i32_iff (pos 1) taiko

from_digit_str_iff_example :
    (from_digit_str (codes " 0 ") ≡ some osu) ↔ (trim (codes " 0 ") ≡ (b'0' + to_u8 osu) ∷ [])
from_digit_str_iff_example = from_digit_str_iff (codes " 0 ") osu

-- A message with a mode, mods, a filter, an id, a range and a number.
abbrev message : Text
message = codes "!bs :1 12345 +HDDT,miss=0 #2-10 50"

parse_command-LimitsInRange_example : Returns (Holds LimitsInRange) (parse_command message none)
parse_command-LimitsInRange_example = parse_command-LimitsInRange message none

parse_command-IdsInRange_example : Returns (Holds IdsInRange) (parse_command message none)
parse_command-IdsInRange_example = parse_command-IdsInRange message none

parse_command-ShapeOk_example : Returns (Holds ShapeOk) (parse_command message none)
parse_command-ShapeOk_example = parse_command-ShapeOk message none

parse_command-Ascii_example :
    (r : Option Command) × (parse_command (codes "!p :0 #3") none ≡ done r)
parse_command-Ascii_example = parse_command-Ascii (codes "!p :0 #3") none (omega arith)

extract_mode_panics_example :
    extract_mode (codes "a" ++ (b':' ∷ b' ' ∷ (codes "你" ++ (22909 ∷ [])))) ≡ panicked
unfolding is_whitespace
extract_mode_panics_example =
    extract_mode_panics (codes "a") (codes "你") 22909 refl refl (omega arith)

parse_standard_score-range_example :
    (c : Option Command) × (parse_standard_score (codes "2-10 50") best_list none ≡ done c)
    × (range_of c ≡ some (50, some 10))
parse_standard_score-range_example =
    parse_standard_score-range b'2' [] b'1' (codes "0") b'5' (codes "0") best_list none refl refl
      refl refl (omega arith) (omega arith) (omega arith)

parse_ml_match_id_spellings_example :
    (parse_ml_match_id (codes "42") ≡ some 42)
    × (parse_ml_match_id (codes "mp42") ≡ some 42)
    × (parse_ml_match_id (codes "https://osu.ppy.sh/community/matches/42") ≡ some 42)
parse_ml_match_id_spellings_example =
    parse_ml_match_id_spellings b'4' (codes "2") refl (omega arith)
