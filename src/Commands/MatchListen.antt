-- ===== src/Commands/MatchListen.antt =====
-- The `!ml` subcommands (osubot-core/src/commands/mod.rs from line 170).
use osubot_rs.Prelude.{
  ℕ, Bool, ◌&&◌, List, [], ◌∷◌, ◌++◌, Option, none, some, leb, if◌then◌else◌, ◌>>=◌, is_some,
  or_else,
}
use osubot_rs.Text.{Text, codes, trim, text_eq, trim_end_matches, strip_prefix, rsplit_once, member}
use osubot_rs.Text.Number.{parse_u32, parse_u64}
use osubot_rs.Types.{Command, match_listen, start, stop, stop_all, list, status}

abbrev pub matches_url : Text
matches_url = codes "https://osu.ppy.sh/community/matches/"

-- The last test of the source, for lazer rooms, returns `None` on both branches.
unfoldable pub parse_ml_match_id : Text → Option ℕ
parse_ml_match_id input =
    let input = trim input in
    or_else (parse_u64 input) (
      or_else (strip_prefix (codes "mp") input >>= λ id_str. parse_u64 id_str)
        (strip_prefix matches_url input >>= λ path. parse_u64 (trim_end_matches b'/' path)))

unfoldable pub parse_skip_rounds : Text → Text → Option (Text × ℕ)
parse_skip_rounds command skip = parse_u32 (trim skip) >>= λ skip_rounds.
    if leb 1 skip_rounds && leb skip_rounds 100 then some (trim command, skip_rounds) else none

unfoldable pub parse_ml_skip_suffix : Text → Option (Text × ℕ)
unfolding parse_skip_rounds
parse_ml_skip_suffix rest = elim (rsplit_once b'#' (trim rest)) [
  | none ↦ some (trim rest, 0)
  | some (command, skip) ↦ parse_skip_rounds command skip
]

abbrev is_ml_operation : Text → List Text → Bool
is_ml_operation input operations = member input operations

unfoldable pub strip_ml_operation_prefix : Text → List Text → Option Text
strip_ml_operation_prefix input [] = none
strip_ml_operation_prefix input (operation ∷ operations) =
    or_else (strip_prefix (operation ++ codes " ") input)
      (strip_ml_operation_prefix input operations)

unfoldable pub strip_ml_operation_suffix : Text → List Text → Option Text
strip_ml_operation_suffix input operations = rsplit_once b' ' input >>= λ p.
    if is_ml_operation (trim p.1) operations then some (trim p.0) else none

abbrev pub stop_words : List Text
stop_words = codes "stop" ∷ codes "p" ∷ codes "end" ∷ codes "e" ∷ codes "off" ∷ codes "f" ∷ []

abbrev pub start_words : List Text
start_words = codes "start" ∷ codes "s" ∷ codes "on" ∷ codes "o" ∷ []

abbrev pub list_words : List Text
list_words = codes "list" ∷ codes "l" ∷ codes "info" ∷ codes "i" ∷ []

abbrev pub status_words : List Text
status_words = codes "status" ∷ []

abbrev start_command : Text → ℕ → Option Command
start_command arg skip_rounds =
    parse_ml_match_id arg >>= λ match_id. some (match_listen (start match_id skip_rounds))

abbrev stop_command : Text → Option Command
stop_command arg = parse_ml_match_id arg >>= λ match_id. some (match_listen (stop match_id))

abbrev status_command : Text → Option Command
status_command arg = parse_ml_match_id arg >>= λ match_id. some (match_listen (status match_id))

-- Each part below returns `some` of what the function returns there, or `none` to go on.
abbrev stop_prefix : Text → Option (Option Command)
stop_prefix rest = strip_ml_operation_prefix rest stop_words >>= λ arg. some (
    if text_eq (trim arg) (codes "all")
    then some (match_listen stop_all)
    else stop_command (trim arg))

abbrev bare_stop : Text → Option (Option Command)
bare_stop rest = if is_ml_operation rest stop_words then some none else none

abbrev status_prefix : Text → Option (Option Command)
status_prefix rest =
    strip_ml_operation_prefix rest status_words >>= λ arg. some (status_command (trim arg))

abbrev bare_status : Text → Option (Option Command)
bare_status rest = if text_eq rest (codes "status") then some none else none

abbrev bare_list : Text → Option (Option Command)
bare_list rest = if is_ml_operation rest list_words then some (some (match_listen list)) else none

abbrev start_suffix : Text → ℕ → Option (Option Command)
start_suffix rest skip_rounds =
    strip_ml_operation_suffix rest start_words >>= λ arg. some (start_command arg skip_rounds)

abbrev stop_suffix : Text → Option (Option Command)
stop_suffix rest = strip_ml_operation_suffix rest stop_words >>= λ arg. some (stop_command arg)

abbrev list_suffix : Text → Option (Option Command)
list_suffix rest = strip_ml_operation_suffix rest list_words >>= λ arg.
    if is_some (parse_ml_match_id arg) then some (some (match_listen list)) else none

-- What follows the skip suffix.
unfoldable pub ml_action : Text → ℕ → Option Command
ml_action rest skip_rounds =
    elim (or_else (stop_prefix rest) (
      or_else (bare_stop rest) (
        or_else (status_prefix rest) (
          or_else (bare_status rest) (
            or_else (bare_list rest) (
              or_else (start_suffix rest skip_rounds)
                (or_else (stop_suffix rest) (list_suffix rest)))))))) [
                  | some returned ↦ returned
                  | none ↦ start_command rest skip_rounds
                ]

unfoldable pub parse_ml_subcommand : Text → Option Command
unfolding ml_action parse_ml_skip_suffix
parse_ml_subcommand rest = parse_ml_skip_suffix rest >>= λ p. ml_action (trim p.0) p.1
