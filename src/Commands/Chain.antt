-- ===== src/Commands/Chain.antt =====
-- `parse_command` (osubot-core/src/commands/mod.rs): the forms of a message, tried in order.
use osubot_rs.Prelude.{
  Bool, true, ◌||◌, List, [], ◌∷◌, Option, none, some, ℤ, Run, done, and_then, if◌then◌else◌, ◌>>=◌,
  is_empty, or_else,
}
use osubot_rs.Text.{
  Text, codes, trim, text_eq, replace, starts_with, strip_prefix, trim_start_matches, split,
  is_whitespace,
}
use osubot_rs.Text.Number.{parse_i64}
use osubot_rs.GameMode.{GameMode, from_digit_str}
use osubot_rs.Types.{
  Command, query_self, query_user, query_mentioned_user, bind, unbind, highlight, profile_card,
  set_default_mode, help,
}
use osubot_rs.Commands.Scoring.{parse_scoring_command}
use osubot_rs.Commands.MatchListen.{parse_ml_subcommand}

-- The message trimmed, with fullwidth tilde, comma and exclamation mark as ASCII.
unfoldable pub normalize : Text → Text
unfolding replace trim
normalize msg = replace 0xff01 b'!' (replace 0xff0c b',' (replace 0xff5e b'~' (trim msg)))

-- `Some(GameMode::from_digit_str(s)?)`.
abbrev some_mode : Text → Option (Option GameMode)
some_mode s = from_digit_str s >>= λ m. some (some m)

-- The mode of `parts[1]`, if there is one.
unfoldable pub second_mode : List Text → Option (Option GameMode)
second_mode (w ∷ v ∷ ws) = some_mode (trim v)
second_mode _ = some none

-- `parts[0].trim()`.
abbrev first_trimmed : List Text → Text
first_trimmed [] = []
first_trimmed (w ∷ ws) = trim w

abbrev self_mode : Text → Option Command
self_mode rest =
    if is_empty rest
    then some (query_self none)
    else from_digit_str rest >>= λ m. some (query_self (some m))

-- Each form below gives `some` of what the function returns for it, or `none` to go on.
unfoldable pub tilde_form : Text → Option (Option Command)
tilde_form msg =
    let rest =
      trim_start_matches b','
        (trim_start_matches b' ' (trim_start_matches b',' (trim_start_matches b'~' msg))) in
    if starts_with (codes "~") msg then some (self_mode rest) else none

abbrev mentioned : Option ℤ → List Text → Option Command
mentioned id parts = id >>= λ qq. second_mode parts >>= λ m. some (query_mentioned_user qq m)

unfoldable pub where_qq_form : Text → Option (Option Command)
unfolding second_mode
where_qq_form msg = strip_prefix (codes "where qq=") msg >>= λ rest.
    some (mentioned (parse_i64 (first_trimmed (split b',' rest))) (split b',' rest))

unfoldable pub where_first : List Text → Option Text → Option Command
unfolding second_mode
where_first parts (some at) = mentioned (parse_i64 at) parts
where_first parts none = second_mode parts >>= λ m. some (query_user (first_trimmed parts) m)

unfoldable pub where_form : Text → Option (Option Command)
unfolding where_first
where_form msg = strip_prefix (codes "where ") msg >>= λ rest.
    some
      (where_first (split b',' rest) (strip_prefix (codes "@") (first_trimmed (split b',' rest))))

abbrev optional_mode : Text → Option (Option GameMode)
optional_mode rest = if is_empty rest then some none else some_mode rest

unfoldable pub look_up_form : Text → Option ℤ → Option (Option Command)
look_up_form msg mentioned_user_id = strip_prefix (codes "查") msg >>= λ rest.
    let rest = trim_start_matches b',' (trim (trim_start_matches b',' rest)) in
    some (mentioned_user_id >>= λ qq. optional_mode rest >>= λ m. some (query_mentioned_user qq m))

unfoldable pub bind_form : Text → Option (Option Command)
bind_form msg = strip_prefix (codes "绑定 ") msg >>= λ username.
    some (if is_empty (trim username) then none else some (bind (trim username)))

abbrev unbind_form : Text → Option (Option Command)
unbind_form msg = if text_eq msg (codes "解绑") then some (some unbind) else none

abbrev highlight_mode : Text → Option GameMode
highlight_mode rest =
    let mode_str = trim (trim_start_matches b',' rest) in
    if is_empty rest || starts_with (codes ",") rest
    then (if is_empty mode_str then none else from_digit_str mode_str)
    else from_digit_str rest

unfoldable pub highlight_form : Text → Option (Option Command)
highlight_form msg =
    strip_prefix (codes "今日高光") msg >>= λ rest. some (some (highlight (highlight_mode (trim rest))))

abbrev help_form : Text → Option (Option Command)
help_form msg = if text_eq msg (codes "!help") then some (some help) else none

-- The text is empty, or its first character is a space.
abbrev ends_word : Text → Bool
ends_word [] = true
ends_word (c ∷ s) = is_whitespace c

unfoldable pub mode_form : Text → Option (Option Command)
mode_form msg = strip_prefix (codes "!mode") msg >>= λ rest.
    if ends_word rest
    then some (
        some (set_default_mode (if is_empty (trim rest) then none else from_digit_str (trim rest))))
    else none

unfoldable pub profile_of_qq : Option ℤ → Option Command
profile_of_qq none = none
profile_of_qq (some qq) = some (profile_card none (some qq))

unfoldable pub profile_named : Text → Option Text → Option Command
profile_named rest (some qq_str) = profile_of_qq (parse_i64 qq_str)
profile_named rest none = some (profile_card (some rest) none)

unfoldable pub profile_at : Text → Option Text → Option Command
profile_at rest (some at) = profile_of_qq (parse_i64 at)
profile_at rest none = profile_named rest (strip_prefix (codes "qq=") rest)

unfoldable pub profile_form : Text → Option ℤ → Option (Option Command)
unfolding profile_at profile_named profile_of_qq
profile_form msg mentioned_user_id = strip_prefix (codes "!profile") msg >>= λ rest. some (
    if is_empty (trim rest)
    then some (profile_card none mentioned_user_id)
    else profile_at (trim rest) (strip_prefix (codes "@") (trim rest)))

unfoldable pub ml_rest : Text → Option Command
ml_rest rest = if is_empty rest then none else parse_ml_subcommand rest

-- `!ml` and `!li`, and the final `None`.
unfoldable pub ml_form : Text → Option Command
unfolding ml_rest
ml_form msg = or_else (strip_prefix (codes "!ml") msg) (strip_prefix (codes "!li") msg) >>= λ rest.
    ml_rest (trim rest)

-- The forms before the score commands.
unfoldable pub simple_forms : Text → Option ℤ → Option (Option Command)
simple_forms msg mentioned_user_id = or_else (tilde_form msg) (
    or_else (where_qq_form msg) (
      or_else (where_form msg) (
        or_else (look_up_form msg mentioned_user_id) (
          or_else (bind_form msg) (
            or_else (unbind_form msg) (
              or_else (highlight_form msg) (
                or_else (help_form msg)
                  (or_else (mode_form msg) (profile_form msg mentioned_user_id)))))))))

-- The score commands and what follows them.
unfoldable pub last_forms : Text → Option (Option Command) → Option Command
last_forms msg (some cmd) = cmd
last_forms msg none = ml_form msg

unfoldable pub dispatch : Text → Option ℤ → Option (Option Command) → Run (Option Command)
unfolding last_forms
dispatch msg mentioned_user_id (some cmd) = done cmd
dispatch msg mentioned_user_id none =
    and_then (parse_scoring_command msg mentioned_user_id) (λ scored. done (last_forms msg scored))

unfoldable pub parse_command : Text → Option ℤ → Run (Option Command)
unfolding normalize dispatch simple_forms
parse_command msg mentioned_user_id =
    dispatch (normalize msg) mentioned_user_id (simple_forms (normalize msg) mentioned_user_id)
