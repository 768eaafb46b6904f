-- ===== src/Targets/Agreement.antt =====
-- The functions on commands beside the groups of commands, and a group's settings beside the
-- defaults.
use osubot_rs.Prelude.{
  Bool, true, false, Option, none, some, ℤ, or_else, unwrap_or, ◌≡◌, refl, if◌then◌else◌, ap, ◌∙◌,
  Result, ok, err, arith,
}
use osubot_rs.Text.{Text}
use osubot_rs.GameMode.{GameMode, osu}
use osubot_rs.Types.{
  Command, CommandGroup, query_self, query_user, query_mentioned_user, score_on_beatmap, pass,
  recent, best, today_best, beatmap_audio, group_name,
}
use osubot_rs.Targets.{
  Storage, resolve_cmd_target_qq, mode_sensitive, extract_explicit_mode, default_mode, resolve_mode,
  resolved_mode, found, named_qq, GroupConfig, GroupsConfig, setting, is_enabled, merge,
  get_group_config,
}

-- The groups of commands that look at scores or players.
abbrev pub about_play : CommandGroup → Bool
about_play CommandGroup.query = true
about_play CommandGroup.score = true
about_play CommandGroup.beatmap_preview = true
about_play CommandGroup.beatmap_audio = true
about_play CommandGroup.highlight = true
about_play _ = false

-- The command with a mode, or with none. A command for the default mode stays.
abbrev pub in_mode : Option GameMode → Command → Command
in_mode m (query_self _) = query_self m
in_mode m (query_user u _) = query_user u m
in_mode m (query_mentioned_user q _) = query_mentioned_user q m
in_mode m (Command.highlight _) = Command.highlight m
in_mode m (pass a) = pass (record a { mode = m })
in_mode m (recent a) = recent (record a { mode = m })
in_mode m (best a) = best (record a { mode = m })
in_mode m (today_best a) = today_best (record a { mode = m })
in_mode m (score_on_beatmap a) = score_on_beatmap (record a { mode = m })
in_mode m (beatmap_audio a) = beatmap_audio (record a { mode = m })
in_mode m (Command.beatmap_preview a) = Command.beatmap_preview (record a { mode = m })
in_mode m c = c

-- The command about a user of QQ who is mentioned, or about the user with a name, or about the sender.
-- A command for a highlight is about the sender.
abbrev pub about_user : Option ℤ → Option Text → Command → Command
about_user (some q) name (query_self m) = query_mentioned_user q m
about_user (some q) name (query_user u m) = query_mentioned_user q m
about_user (some q) name (query_mentioned_user p m) = query_mentioned_user q m
about_user none (some n) (query_self m) = query_user n m
about_user none (some n) (query_user u m) = query_user n m
about_user none (some n) (query_mentioned_user p m) = query_user n m
about_user none none (query_self m) = query_self m
about_user none none (query_user u m) = query_self m
about_user none none (query_mentioned_user p m) = query_self m
about_user q name (pass a) = pass (record a { qq = q; username = name })
about_user q name (recent a) = recent (record a { qq = q; username = name })
about_user q name (best a) = best (record a { qq = q; username = name })
about_user q name (today_best a) = today_best (record a { qq = q; username = name })
about_user q name (score_on_beatmap a) = score_on_beatmap (record a { qq = q; username = name })
about_user q name (beatmap_audio a) = beatmap_audio (record a { qq = q; username = name })
about_user q name (Command.beatmap_preview a) =
    Command.beatmap_preview (record a { qq = q; username = name })
about_user q name c = c

-- What the database answered, and what stands for no answer.
abbrev pub mode_in : {E : Type 0} → Result (Option GameMode) E → GameMode
mode_in (ok (some m)) = m
mode_in (ok none) = osu
mode_in (err e) = osu

abbrev pub user_in : {E : Type 0} → Result (Option ℤ) E → Option ℤ
user_in (ok q) = q
user_in (err e) = none

abbrev pub stored_or_osu : {E : Type 0} → Storage E → Option ℤ → GameMode
stored_or_osu storage none = osu
stored_or_osu storage (some q) = mode_in (storage.get_default_mode q)

-- The user whose mode counts: the sender for a highlight, and otherwise the one who is meant.
abbrev pub counts_for : CommandGroup → ℤ → Option ℤ → Option ℤ
counts_for CommandGroup.highlight sender meant = some sender
counts_for group sender meant = meant

abbrev pub for_play : {A : Type 0} → CommandGroup → A → Option A
for_play group a = if about_play group then some a else none

mode_in-found : {E : Type 0} (r : Result (Option GameMode) E) → unwrap_or (found r) osu ≡ mode_in r
mode_in-found (ok (some m)) = refl
mode_in-found (ok none) = refl
mode_in-found (err e) = refl

user_in-found : {E : Type 0} (r : Result (Option ℤ) E) → found r ≡ user_in r
user_in-found (ok q) = refl
user_in-found (err e) = refl

default_mode-stored :
    {E : Type 0} (storage : Storage E) (q : Option ℤ)
    → default_mode storage q ≡ stored_or_osu storage q
default_mode-stored storage none = refl
default_mode-stored storage (some q) = mode_in-found (storage.get_default_mode q)

module _ {E : Type 0} (storage : Storage E) (sender : ℤ) where
  resolved-in_mode :
      (m : GameMode) (cmd : Command)
      → resolved_mode storage sender (in_mode (some m) cmd) ≡ for_play (group_name cmd) m
  unfolding resolved_mode mode_sensitive resolve_cmd_target_qq extract_explicit_mode resolve_mode
      group_name
  resolved-in_mode m cmd = ground arith

  -- A command that names no mode, about a user.
  resolved-about_user :
      (q : Option ℤ) (name : Option Text) (cmd : Command)
      → resolved_mode storage sender (in_mode none (about_user q name cmd))
        ≡ for_play (group_name cmd) (
            default_mode storage
              (counts_for (group_name cmd) sender (named_qq storage sender q name)))
  unfolding resolved_mode mode_sensitive resolve_cmd_target_qq extract_explicit_mode resolve_mode
      group_name
  resolved-about_user q name cmd = ground arith

-- For every command, and what a user may add to it. With a mode it is handled in that mode. Without one it
-- is handled in the mode that the database has for the user who is mentioned; or else for the user whom the
-- database finds under the name that is given; or else for the sender; a highlight is always in the mode of
-- the sender. Where the database has none, does not find the user or fails, the mode is `Osu`. All this
-- holds of queries, scores, previews, audio and highlights; the other commands are given no mode.
pub resolved_mode_groups :
    {E : Type 0} (storage : Storage E) (sender : ℤ) (cmd : Command) (m : GameMode) (q : ℤ)
    (n : Text) (name : Option Text)
    → (resolved_mode storage sender (in_mode (some m) cmd) ≡ for_play (group_name cmd) m)
      × (resolved_mode storage sender (in_mode none (about_user (some q) name cmd))
          ≡ for_play
              (group_name cmd)
              (stored_or_osu storage (counts_for (group_name cmd) sender (some q))))
      × (resolved_mode storage sender (in_mode none (about_user none (some n) cmd))
          ≡ for_play (group_name cmd) (
              stored_or_osu storage
                (counts_for (group_name cmd) sender (user_in (storage.find_qq_by_username n)))))
      × (resolved_mode storage sender (in_mode none (about_user none none cmd))
          ≡ for_play
              (group_name cmd)
              (stored_or_osu storage (counts_for (group_name cmd) sender (some sender))))
resolved_mode_groups storage sender cmd m q n name =
    let stored = λ (x : Option ℤ).
      ap (for_play (group_name cmd))
        (default_mode-stored storage (counts_for (group_name cmd) sender x)) in
    (
      resolved-in_mode storage sender m cmd,
      resolved-about_user storage sender (some q) name cmd ∙ stored (some q),
      resolved-about_user storage sender none (some n) cmd
          ∙ rw (user_in-found (storage.find_qq_by_username n))
              (stored (user_in (storage.find_qq_by_username n))),
      resolved-about_user storage sender none none cmd ∙ stored (some sender),
    )

setting-merge :
    (d own : GroupConfig) (group : CommandGroup)
    → setting (merge d (some own)) group ≡ or_else (setting own group) (setting d group)
setting-merge d own CommandGroup.query = refl
setting-merge d own CommandGroup.score = refl
setting-merge d own CommandGroup.beatmap_preview = refl
setting-merge d own CommandGroup.beatmap_audio = refl
setting-merge d own CommandGroup.profile = refl
setting-merge d own CommandGroup.highlight = refl
setting-merge d own CommandGroup.bind = refl
setting-merge d own CommandGroup.mode = refl
setting-merge d own CommandGroup.help = refl
setting-merge d own CommandGroup.match_listen = refl

-- For every group of commands: a chat group has it enabled when its own setting says so, or else the
-- default setting, and where neither says anything.
get_group_config_enabled :
    (g : GroupsConfig) (id : ℤ) (group : CommandGroup) (own : GroupConfig)
    → g.overrides id ≡ some own
    → is_enabled (get_group_config g id) group
      ≡ unwrap_or (or_else (setting own group) (setting g.default group)) true
unfolding is_enabled get_group_config
get_group_config_enabled g id group own e =
    rw (e) (ap (λ s. unwrap_or s true) (setting-merge g.default own group))
