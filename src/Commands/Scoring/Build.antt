-- ===== src/Commands/Scoring/Build.antt =====
-- The kinds of score command, and `make_score_cmd` (osubot-core/src/commands/scoring.rs).
use osubot_rs.Prelude.{
  ℕ, Bool, true, false, not, ◌||◌, List, Option, none, some, ℤ, is_some, or_else,
}
use osubot_rs.Text.{Text}
use osubot_rs.GameMode.{GameMode}
use osubot_rs.Types.{
  Command, ScoreArgs, OnBeatmapArgs, PreviewArgs, AudioArgs, pass, recent, best, score_on_beatmap,
}

pub data ScoringCmd : Type 0 where
  pass_summary recent_summary score_all pass_single recent_single : ScoringCmd
  score_single beatmap_preview best_single best_list today_best beatmap_audio : ScoringCmd

pub record ScoreCmdParams : Type 0 where
  pub cmd : ScoringCmd
  pub mentioned_user_id : Option ℤ
  pub mode : Option GameMode
  pub beatmap_id : Option ℕ
  pub score_id : Option ℕ
  pub username : Option Text
  pub qq : Option ℤ
  pub limit : ℕ
  pub limit_end : Option ℕ
  pub filters : Option (List Text)
  pub explicit_position : Bool

abbrev score_args : ScoreCmdParams → Bool → ScoreArgs
score_args p is_summary = record {
  mode = p.mode;
  username = p.username;
  qq = or_else p.qq p.mentioned_user_id;
  beatmap_id = p.beatmap_id;
  score_id = p.score_id;
  limit = p.limit;
  limit_end = p.limit_end;
  is_summary = is_summary;
  filters = p.filters;
}

abbrev on_beatmap_args : ScoreCmdParams → Bool → OnBeatmapArgs
on_beatmap_args p is_all = record {
  mode = p.mode;
  username = p.username;
  qq = or_else p.qq p.mentioned_user_id;
  beatmap_id = p.beatmap_id;
  score_id = p.score_id;
  filters = p.filters;
  limit = p.limit;
  limit_end = p.limit_end;
  is_all = is_all;
}

abbrev audio_args : ScoreCmdParams → AudioArgs
audio_args p = record {
  mode = p.mode;
  username = p.username;
  qq = or_else p.qq p.mentioned_user_id;
  beatmap_id = p.beatmap_id;
  score_id = p.score_id;
  limit = p.limit;
  filters = p.filters;
  explicit_position = p.explicit_position;
}

abbrev preview_args : ScoreCmdParams → PreviewArgs
preview_args p = record {
  score_id = p.score_id;
  beatmap_id = p.beatmap_id;
  mode = p.mode;
  username = p.username;
  qq = or_else p.qq p.mentioned_user_id;
  mods = none;
  gif = false;
  times = none;
  limit = p.limit;
  filters = p.filters;
  explicit_position = p.explicit_position;
}

unfoldable pub build : ScoringCmd → ScoreCmdParams → Command
build pass_summary p = pass (score_args p true)
build recent_summary p = recent (score_args p true)
build score_all p = score_on_beatmap (on_beatmap_args p true)
build pass_single p = pass (score_args p false)
build recent_single p = recent (score_args p false)
build score_single p = score_on_beatmap (on_beatmap_args p false)
build best_single p = best (score_args p false)
build best_list p = best (score_args p true)
build today_best p =
    Command.today_best (score_args p (is_some p.limit_end || not p.explicit_position))
build beatmap_audio p = Command.beatmap_audio (audio_args p)
build beatmap_preview p = Command.beatmap_preview (preview_args p)

unfoldable pub make_score_cmd : ScoreCmdParams → Option Command
unfolding build
make_score_cmd p = some (build p.cmd p)
