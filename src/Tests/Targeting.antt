-- ===== src/Tests/Targeting.antt =====
-- Commands about others, and the settings of groups.
use osubot_rs.Prelude.{true, false, none, some, pos, ok, ◌≡◌, refl, if◌then◌else◌, eq_i64}
use osubot_rs.Text.{Text, codes}
use osubot_rs.GameMode.{taiko, mania}
use osubot_rs.Types.{Command, CommandGroup, query_user, group_name}
use osubot_rs.Targets.{
  Storage, resolved_mode, mode_sensitive, resolve_cmd_target_qq, extract_explicit_mode,
  resolve_mode, GroupConfig, GroupsConfig, is_enabled, get_group_config,
}
use osubot_rs.Targets.Agreement.{
  in_mode, about_user, for_play, stored_or_osu, counts_for, user_in, resolved_mode_groups,
}

-- Everybody is user 7, whose mode is taiko.
abbrev database : Storage Text
database = record {
  find_qq_by_username = λ name. ok (some (pos 7));
  get_default_mode = λ qq. ok (some taiko);
}

abbrev asks : Command
asks = query_user (codes "ZnCookie") none

mode_of_the_other : resolved_mode database (pos 1) asks ≡ some taiko
unfolding resolved_mode mode_sensitive resolve_cmd_target_qq extract_explicit_mode resolve_mode
mode_of_the_other = refl

resolved_mode_groups_example :
    (resolved_mode database (pos 1) (in_mode (some mania) asks) ≡ for_play (group_name asks) mania)
    × (resolved_mode database (pos 1) (in_mode none (about_user (some (pos 3)) none asks))
        ≡ for_play
            (group_name asks)
            (stored_or_osu database (counts_for (group_name asks) (pos 1) (some (pos 3)))))
    × (resolved_mode database (pos 1) (in_mode none (about_user none (some (codes "peppy")) asks))
        ≡ for_play (group_name asks) (
            stored_or_osu database (
              counts_for
                (group_name asks)
                (pos 1)
                (user_in (database.find_qq_by_username (codes "peppy"))))))
    × (resolved_mode database (pos 1) (in_mode none (about_user none none asks))
        ≡ for_play
            (group_name asks)
            (stored_or_osu database (counts_for (group_name asks) (pos 1) (some (pos 1)))))
resolved_mode_groups_example =
    resolved_mode_groups database (pos 1) asks mania (pos 3) (codes "peppy") none

abbrev unset : GroupConfig
unset = record {
  query = none;
  score = none;
  beatmap_preview = none;
  beatmap_audio = none;
  profile = none;
  highlight = none;
  bind = none;
  mode = none;
  help = none;
  match_listen = none;
}

-- Scores are off by default and on in group 5.
abbrev groups : GroupsConfig
groups = record {
  default = record unset { score = some false };
  overrides = λ id. if eq_i64 id (pos 5) then some (record unset { score = some true }) else none;
}

enabled_in_group : is_enabled (get_group_config groups (pos 5)) CommandGroup.score ≡ true
unfolding is_enabled get_group_config
enabled_in_group = refl
