-- ===== src/Types.antt =====
-- The commands that a message is parsed into (osubot-core/src/types.rs). An enum variant with
-- fields is a constructor over a record with those fields; `Pass`, `Recent`, `Best` and
-- `TodayBest` have the same fields and share one record.
use osubot_rs.Prelude.{ℕ, Bool, List, Option, ℤ}
use osubot_rs.Text.{Text, codes}
use osubot_rs.GameMode.{GameMode}

pub data MatchListenAction : Type 0 where
  start : ℕ → ℕ → MatchListenAction
  stop : ℕ → MatchListenAction
  stop_all : MatchListenAction
  list : MatchListenAction
  status : ℕ → MatchListenAction

pub data CommandGroup : Type 0 where
  query score beatmap_preview beatmap_audio profile highlight : CommandGroup
  bind mode help match_listen : CommandGroup

-- The fields of `Pass`, `Recent`, `Best` and `TodayBest`.
pub record ScoreArgs : Type 0 where
  pub mode : Option GameMode
  pub username : Option Text
  pub qq : Option ℤ
  pub beatmap_id : Option ℕ
  pub score_id : Option ℕ
  pub limit : ℕ
  pub limit_end : Option ℕ
  pub is_summary : Bool
  pub filters : Option (List Text)

-- The fields of `ScoreOnBeatmap`.
pub record OnBeatmapArgs : Type 0 where
  pub mode : Option GameMode
  pub username : Option Text
  pub qq : Option ℤ
  pub beatmap_id : Option ℕ
  pub score_id : Option ℕ
  pub filters : Option (List Text)
  pub limit : ℕ
  pub limit_end : Option ℕ
  pub is_all : Bool

-- The fields of `BeatmapPreview`.
pub record PreviewArgs : Type 0 where
  pub score_id : Option ℕ
  pub beatmap_id : Option ℕ
  pub mode : Option GameMode
  pub username : Option Text
  pub qq : Option ℤ
  pub mods : Option (List Text)
  pub gif : Bool
  pub times : Option (List ℤ)
  pub limit : ℕ
  pub filters : Option (List Text)
  pub explicit_position : Bool

-- The fields of `BeatmapAudio`.
pub record AudioArgs : Type 0 where
  pub mode : Option GameMode
  pub username : Option Text
  pub qq : Option ℤ
  pub beatmap_id : Option ℕ
  pub score_id : Option ℕ
  pub limit : ℕ
  pub filters : Option (List Text)
  pub explicit_position : Bool

pub data Command : Type 0 where
  query_self : Option GameMode → Command
  query_user : Text → Option GameMode → Command
  query_mentioned_user : ℤ → Option GameMode → Command
  bind : Text → Command
  unbind : Command
  highlight : Option GameMode → Command
  profile_card : Option Text → Option ℤ → Command
  score_on_beatmap : OnBeatmapArgs → Command
  pass : ScoreArgs → Command
  recent : ScoreArgs → Command
  best : ScoreArgs → Command
  today_best : ScoreArgs → Command
  set_default_mode : Option GameMode → Command
  beatmap_preview : PreviewArgs → Command
  beatmap_audio : AudioArgs → Command
  help : Command
  match_listen : MatchListenAction → Command

unfoldable pub group_name : Command → CommandGroup
group_name (query_self m) = query
group_name (query_user u m) = query
group_name (query_mentioned_user q m) = query
group_name (pass a) = score
group_name (recent a) = score
group_name (best a) = score
group_name (today_best a) = score
group_name (beatmap_preview a) = beatmap_preview
group_name (beatmap_audio a) = beatmap_audio
group_name (profile_card u q) = profile
group_name (score_on_beatmap a) = score
group_name (highlight m) = highlight
group_name (bind u) = bind
group_name unbind = bind
group_name (set_default_mode m) = mode
group_name help = help
group_name (match_listen a) = match_listen

unfoldable pub command_name : Command → Text
command_name (query_self m) = codes "~"
command_name (query_user u m) = codes "where"
command_name (query_mentioned_user q m) = codes "where"
command_name (bind u) = codes "绑定"
command_name unbind = codes "解绑"
command_name (highlight m) = codes "今日高光"
command_name (profile_card u q) = codes "!profile"
command_name (pass a) = codes "!p"
command_name (recent a) = codes "!r"
command_name (best a) = codes "!b"
command_name (today_best a) = codes "!t"
command_name (score_on_beatmap a) = codes "!s"
command_name (set_default_mode m) = codes "!mode"
command_name (beatmap_preview a) = codes "!rv"
command_name (beatmap_audio a) = codes "!a"
command_name help = codes "!help"
command_name (match_listen a) = codes "!ml"
