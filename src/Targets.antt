-- ===== src/Targets.antt =====
-- Whom a command is about, in which mode (osubot/src/command/mod.rs), and whether a group may use it
-- (osubot/src/config.rs). `Storage` stands for the database: what it answers.
pub mod Agreement
use osubot_rs.Prelude.{
  ℕ, Bool, true, false, List, [], ◌∷◌, Option, none, some, ℤ, eq_i64, Result, ok, err, or_else,
  unwrap_or, not, ◌||◌, if◌then◌else◌,
}
use osubot_rs.Text.{Text}
use osubot_rs.GameMode.{GameMode, osu}
use osubot_rs.Types.{
  Command, CommandGroup, ScoreArgs, OnBeatmapArgs, PreviewArgs, AudioArgs, query_self, query_user,
  query_mentioned_user, unbind, profile_card, score_on_beatmap, pass, recent, best, today_best,
  set_default_mode, beatmap_audio, group_name,
}

pub record Storage (E : Type 0) : Type 0 where
  pub find_qq_by_username : Text → Result (Option ℤ) E
  pub get_default_mode : ℤ → Result (Option GameMode) E

-- An error of the database is logged, and nothing is found.
abbrev pub found : {E A : Type 0} → Result (Option A) E → Option A
found (ok a) = a
found (err e) = none

module _ {E : Type 0} (storage : Storage E) (user_id : ℤ) where
  -- The commands that may name a user by QQ number or by name.
  abbrev pub named_qq : Option ℤ → Option Text → Option ℤ
  named_qq (some qq) username = some qq
  named_qq none (some username) = found (storage.find_qq_by_username username)
  named_qq none none = some user_id

  unfoldable pub resolve_cmd_target_qq : Command → Option ℤ
  resolve_cmd_target_qq (query_self m) = some user_id
  resolve_cmd_target_qq (query_user username m) = found (storage.find_qq_by_username username)
  resolve_cmd_target_qq (query_mentioned_user qq m) = some qq
  resolve_cmd_target_qq (pass a) = named_qq a.qq a.username
  resolve_cmd_target_qq (recent a) = named_qq a.qq a.username
  resolve_cmd_target_qq (best a) = named_qq a.qq a.username
  resolve_cmd_target_qq (today_best a) = named_qq a.qq a.username
  resolve_cmd_target_qq (score_on_beatmap a) = named_qq a.qq a.username
  resolve_cmd_target_qq (beatmap_audio a) = named_qq a.qq a.username
  resolve_cmd_target_qq (Command.beatmap_preview a) = named_qq a.qq a.username
  resolve_cmd_target_qq (Command.highlight m) = some user_id
  resolve_cmd_target_qq _ = none

unfoldable pub mode_sensitive : Command → Bool
mode_sensitive (query_self m) = true
mode_sensitive (query_user u m) = true
mode_sensitive (query_mentioned_user q m) = true
mode_sensitive (pass a) = true
mode_sensitive (recent a) = true
mode_sensitive (best a) = true
mode_sensitive (today_best a) = true
mode_sensitive (score_on_beatmap a) = true
mode_sensitive (Command.highlight m) = true
mode_sensitive (beatmap_audio a) = true
mode_sensitive (Command.beatmap_preview a) = true
mode_sensitive _ = false

unfoldable pub extract_explicit_mode : Command → Option GameMode
extract_explicit_mode (query_self m) = m
extract_explicit_mode (query_user u m) = m
extract_explicit_mode (query_mentioned_user q m) = m
extract_explicit_mode (pass a) = a.mode
extract_explicit_mode (recent a) = a.mode
extract_explicit_mode (best a) = a.mode
extract_explicit_mode (today_best a) = a.mode
extract_explicit_mode (Command.highlight m) = m
extract_explicit_mode (score_on_beatmap a) = a.mode
extract_explicit_mode (beatmap_audio a) = a.mode
extract_explicit_mode (Command.beatmap_preview a) = a.mode
extract_explicit_mode _ = none

-- The mode of a user in the database, or `Osu`.
abbrev pub default_mode : {E : Type 0} → Storage E → Option ℤ → GameMode
default_mode storage none = osu
default_mode storage (some qq) = unwrap_or (found (storage.get_default_mode qq)) osu

unfoldable pub resolve_mode : {E : Type 0} → Storage E → Option ℤ → Option GameMode → GameMode
resolve_mode storage target_qq (some mode) = mode
resolve_mode storage target_qq none = default_mode storage target_qq

-- The mode that `handle_command` hands on.
unfoldable pub resolved_mode : {E : Type 0} → Storage E → ℤ → Command → Option GameMode
unfolding mode_sensitive resolve_cmd_target_qq extract_explicit_mode resolve_mode
resolved_mode storage user_id cmd =
    if mode_sensitive cmd
    then some (
        resolve_mode storage (resolve_cmd_target_qq storage user_id cmd)
          (extract_explicit_mode cmd))
    else none

pub data FilterMode : Type 0 where
  blacklist whitelist : FilterMode

-- `contains`.
unfoldable pub contains_id : ℤ → List ℤ → Bool
contains_id id [] = false
contains_id id (x ∷ xs) = eq_i64 x id || contains_id id xs

-- `is_group_allowed` of the group filter and `is_user_allowed` of the private filter.
unfoldable pub is_allowed : FilterMode → List ℤ → ℤ → Bool
unfolding contains_id
is_allowed whitelist ids id = contains_id id ids
is_allowed blacklist ids id = not (contains_id id ids)

pub record GroupConfig : Type 0 where
  pub query : Option Bool
  pub score : Option Bool
  pub beatmap_preview : Option Bool
  pub beatmap_audio : Option Bool
  pub profile : Option Bool
  pub highlight : Option Bool
  pub bind : Option Bool
  pub mode : Option Bool
  pub help : Option Bool
  pub match_listen : Option Bool

-- The field that a group of commands reads.
abbrev pub setting : GroupConfig → CommandGroup → Option Bool
setting c CommandGroup.query = c.query
setting c CommandGroup.score = c.score
setting c CommandGroup.beatmap_preview = c.beatmap_preview
setting c CommandGroup.beatmap_audio = c.beatmap_audio
setting c CommandGroup.profile = c.profile
setting c CommandGroup.highlight = c.highlight
setting c CommandGroup.bind = c.bind
setting c CommandGroup.mode = c.mode
setting c CommandGroup.help = c.help
setting c CommandGroup.match_listen = c.match_listen

unfoldable pub is_enabled : GroupConfig → CommandGroup → Bool
is_enabled c group = unwrap_or (setting c group) true

-- `overrides` is the map, on the group ids that its keys print.
pub record GroupsConfig : Type 0 where
  pub default : GroupConfig
  pub overrides : ℤ → Option GroupConfig

abbrev pub merge : GroupConfig → Option GroupConfig → GroupConfig
merge d none = d
merge d (some o) = record {
  query = or_else o.query d.query;
  score = or_else o.score d.score;
  beatmap_preview = or_else o.beatmap_preview d.beatmap_preview;
  beatmap_audio = or_else o.beatmap_audio d.beatmap_audio;
  profile = or_else o.profile d.profile;
  highlight = or_else o.highlight d.highlight;
  bind = or_else o.bind d.bind;
  mode = or_else o.mode d.mode;
  help = or_else o.help d.help;
  match_listen = or_else o.match_listen d.match_listen;
}

unfoldable pub get_group_config : GroupsConfig → ℤ → GroupConfig
get_group_config g group_id = merge g.default (g.overrides group_id)
