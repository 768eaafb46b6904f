-- ===== src/Commands/Scoring/Parse.antt =====
-- `parse_scoring_command` and `parse_standard_score` (osubot-core/src/commands/scoring.rs).
use osubot_rs.Prelude.{
  ℕ, Bool, true, false, ◌&&◌, ◌||◌, List, [], ◌∷◌, ◌++◌, Option, none, some, ℤ, Run, done, and_then,
  length, leb, ◌==◌, if◌then◌else◌, ◌>>=◌, is_some, or_else, unwrap_or,
}
use osubot_rs.Text.{
  Text, codes, trim, text_eq, strip_prefix, is_ascii_alphabetic, split_whitespace, join,
}
use osubot_rs.Types.{Command}
use osubot_rs.Commands.Args.{CommonArgs, extract_common_args, parse_time_token}
use osubot_rs.Commands.Scoring.Tokens.{RemainingTokens, parse_remaining_tokens}
use osubot_rs.Commands.Scoring.Build.{
  ScoringCmd, pass_summary, recent_summary, score_all, pass_single, recent_single, score_single,
  beatmap_preview, best_single, best_list, today_best, beatmap_audio, make_score_cmd,
}

unfoldable pub default_limit : ScoringCmd → ℕ
default_limit pass_summary = 20
default_limit recent_summary = 20
default_limit score_all = 20
default_limit pass_single = 1
default_limit recent_single = 1
default_limit score_single = 1
default_limit beatmap_audio = 1
default_limit best_single = 1
default_limit best_list = 20
default_limit today_best = 20
default_limit beatmap_preview = 1

abbrev pub is_preview : ScoringCmd → Bool
is_preview beatmap_preview = true
is_preview _ = false

abbrev pub is_audio : ScoringCmd → Bool
is_audio beatmap_audio = true
is_audio _ = false

abbrev pub is_today : ScoringCmd → Bool
is_today today_best = true
is_today _ = false

-- `single_cmd`.
abbrev pub is_single : ScoringCmd → Bool
is_single pass_single = true
is_single recent_single = true
is_single score_single = true
is_single best_single = true
is_single _ = false

-- The command with no arguments behind it.
unfoldable pub bare_command : ScoringCmd → Option ℤ → Option Command
unfolding default_limit make_score_cmd
bare_command cmd mentioned_user_id =
    if is_preview cmd
    then some (
        Command.beatmap_preview (record {
          score_id = none;
          beatmap_id = none;
          mode = none;
          username = none;
          qq = mentioned_user_id;
          mods = none;
          gif = false;
          times = none;
          limit = default_limit cmd;
          filters = none;
          explicit_position = false;
        }))
    else make_score_cmd (record {
      cmd = cmd;
      mentioned_user_id = mentioned_user_id;
      mode = none;
      beatmap_id = none;
      score_id = none;
      username = none;
      qq = none;
      limit = default_limit cmd;
      limit_end = none;
      filters = none;
      explicit_position = false;
    })

-- The variables of the loop that takes flags and times out of a preview command.
pub record Flags : Type 0 where
  pub gif : Bool
  pub times : List ℤ
  pub filtered : List Text

unfoldable pub flag_time : Flags → Text → Option ℤ → Option Flags
flag_time f token (some ms) =
    if leb 2 (length f.times) then none else some (record f { times = f.times ++ (ms ∷ []) })
flag_time f token none = some (record f { filtered = f.filtered ++ (token ∷ []) })

-- One round of the loop; `none` is its early return.
unfoldable pub flag_token : Flags → Text → Option Flags
unfolding flag_time
flag_token f token =
    if text_eq token (codes "--gif") || text_eq token (codes "-g")
    then some (record f { gif = true })
    else flag_time f token (parse_time_token token)

unfoldable pub flag_tokens : Flags → List Text → Option Flags
flag_tokens f [] = some f
flag_tokens f (t ∷ ts) = flag_token f t >>= λ f'. flag_tokens f' ts

abbrev pub no_flags : Flags
no_flags = record { gif = false; times = []; filtered = [] }

-- `rest`, `rv_gif` and `rv_times`.
abbrev pub preprocess : ScoringCmd → Text → Option (Text × Flags)
preprocess cmd rest =
    if is_preview cmd
    then (flag_tokens no_flags (split_whitespace rest) >>= λ f.
        some (join (codes " ") f.filtered, f))
    else some (rest, no_flags)

abbrev pub some_times : List ℤ → Option (List ℤ)
some_times [] = none
some_times (t ∷ ts) = some (t ∷ ts)

-- `f.extend(extra)` where both are given.
abbrev pub join_filters : Option (List Text) → Option (List Text) → Option (List Text)
join_filters (some f) (some extra) = some (f ++ extra)
join_filters (some f) none = some f
join_filters none extra = extra

unfoldable pub preview_command : Flags → CommonArgs → RemainingTokens → Command
preview_command flags args rt = Command.beatmap_preview (record {
  score_id = rt.score_id;
  beatmap_id = rt.beatmap_id;
  mode = args.mode;
  username = rt.username;
  qq = rt.qq;
  mods = args.raw_mods;
  gif = flags.gif;
  times = some_times flags.times;
  limit = unwrap_or rt.implicit_limit args.limit;
  filters = join_filters args.filters rt.filters;
  explicit_position = is_some rt.implicit_limit || args.explicit_position;
})

unfoldable pub score_command : ScoringCmd → Option ℤ → CommonArgs → RemainingTokens → Option Command
unfolding make_score_cmd
score_command cmd mentioned_user_id args rt =
    let range_given = is_some rt.limit_end || is_some args.limit_end in
    if (is_single cmd || is_audio cmd) && range_given
    then none
    else make_score_cmd (record {
      cmd = cmd;
      mentioned_user_id = mentioned_user_id;
      mode = args.mode;
      beatmap_id = rt.beatmap_id;
      score_id = rt.score_id;
      username = rt.username;
      qq = rt.qq;
      limit = unwrap_or rt.implicit_limit args.limit;
      limit_end = if is_single cmd then none else or_else rt.limit_end args.limit_end;
      filters = join_filters args.filters rt.filters;
      explicit_position =
          (is_audio cmd || is_today cmd) && (is_some rt.implicit_limit || args.explicit_position);
    })

-- The command, once its arguments and its remaining tokens are read.
unfoldable pub finish_command :
    ScoringCmd → Option ℤ → Flags → CommonArgs → RemainingTokens → Option Command
unfolding preview_command score_command
finish_command cmd mentioned_user_id flags args rt =
    if is_preview cmd
    then some (preview_command flags args rt)
    else score_command cmd mentioned_user_id args rt

unfoldable pub with_args : ScoringCmd → Option ℤ → Option (Text × Flags) → Run (Option Command)
unfolding finish_command default_limit
with_args cmd mentioned_user_id none = done none
with_args cmd mentioned_user_id (some (rest, flags)) =
    and_then (extract_common_args rest (default_limit cmd)) (λ args. done (
      parse_remaining_tokens args.rest mentioned_user_id >>= λ rt.
      finish_command cmd mentioned_user_id flags args rt))

unfoldable pub parse_standard_score : Text → ScoringCmd → Option ℤ → Run (Option Command)
unfolding bare_command with_args flag_tokens
parse_standard_score [] cmd mentioned_user_id = done (bare_command cmd mentioned_user_id)
parse_standard_score (c ∷ rest) cmd mentioned_user_id =
    with_args cmd mentioned_user_id (preprocess cmd (c ∷ rest))

abbrev pub prefixes : List (Text × ScoringCmd)
prefixes =
    (codes "!ps", pass_summary)
    ∷ (codes "!rs", recent_summary)
    ∷ (codes "!ss", score_all)
    ∷ (codes "!bs", best_list)
    ∷ (codes "!p", pass_single)
    ∷ (codes "!r", recent_single)
    ∷ (codes "!s", score_single)
    ∷ (codes "!b", best_single)
    ∷ (codes "!t", today_best)
    ∷ (codes "!a", beatmap_audio)
    ∷ (codes "!rv", beatmap_preview)
    ∷ []

-- The prefix is not the command's name: a letter, `_` or `-` goes on.
abbrev goes_on : Text → Bool
goes_on [] = false
goes_on (c ∷ s) = is_ascii_alphabetic c || c == b'_' || c == b'-'

-- The command that a message names, and the text behind its prefix.
unfoldable pub find_command : List (Text × ScoringCmd) → Text → Option (Text × ScoringCmd)
find_command [] msg = none
find_command ((prefix, cmd) ∷ more) msg =
    let later = find_command more msg in
    elim (strip_prefix prefix msg) [
      | none ↦ later
      | some rest ↦ if goes_on rest then later else some (rest, cmd)
    ]

unfoldable pub parse_found : Option (Text × ScoringCmd) → Option ℤ → Run (Option (Option Command))
unfolding parse_standard_score
parse_found none mentioned_user_id = done none
parse_found (some (rest, cmd)) mentioned_user_id =
    and_then (parse_standard_score (trim rest) cmd mentioned_user_id) (λ c. done (some c))

-- `none` where the message is no score command.
unfoldable pub parse_scoring_command : Text → Option ℤ → Run (Option (Option Command))
unfolding parse_found find_command
parse_scoring_command msg mentioned_user_id =
    parse_found (find_command prefixes msg) mentioned_user_id
