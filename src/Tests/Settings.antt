-- ===== src/Tests/Settings.antt =====
-- A configuration that passes the checks, and one that does not.
use osubot_rs.Prelude.{◌≡◌, ◌↔◌, refl, true, none, some, pos, [], ◌∷◌}
use osubot_rs.Text.{codes, text_eq}
use osubot_rs.Validation.{
  Config, validate, check_upstream, check_providers, is_known_provider, unknown_provider,
}
use osubot_rs.Validation.Ranges.{ConfigOk, validate_iff}

abbrev settings : Config
settings = record {
  bot = record {
    onebot_url = codes "ws://localhost";
    command_timeout_secs = 180;
    render_timeout_secs = 120;
    onebot_api_timeout_secs = 10;
    ur_timeout_secs = 15;
  };
  scheduler = record {
    interval_minutes = 10;
    semi_active_interval_hours = pos 12;
    normal_interval_hours = pos 24;
    inactive_interval_hours = pos 48;
    no_recent_interval_hours = pos 72;
    user_not_exists_interval_hours = pos 168;
  };
  upstream = record { enabled = true; providers = codes "xfs" ∷ codes "yumu" ∷ [] };
  poll_interval_secs = 8;
}

passes : validate settings ≡ none
unfolding validate check_upstream check_providers is_known_provider text_eq
passes = refl

names_provider :
    validate
      (record settings { upstream = record { enabled = true; providers = codes "osu" ∷ [] } })
    ≡ some (unknown_provider (codes "osu"))
unfolding validate check_upstream check_providers is_known_provider text_eq
names_provider = refl

validate_iff_example : (validate settings ≡ none) ↔ ConfigOk settings
validate_iff_example = validate_iff settings
