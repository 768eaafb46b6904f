-- ===== src/Validation.antt =====
-- The checks of a configuration (osubot/src/config.rs, Config::validate). An error is the check that
-- failed; its text is left out, and so are the fields that no check reads.
pub mod Ranges
use osubot_rs.Prelude.{
  ℕ, Bool, true, false, List, [], ◌∷◌, Option, none, some, ℤ, pos, negsuc, ltb, is_empty, not, ◌||◌,
  if◌then◌else◌,
}
use osubot_rs.Text.{Text, codes, text_eq}

pub record BotConfig : Type 0 where
  pub onebot_url : Text
  pub command_timeout_secs : ℕ
  pub render_timeout_secs : ℕ
  pub onebot_api_timeout_secs : ℕ
  pub ur_timeout_secs : ℕ

pub record SchedulerConfig : Type 0 where
  pub interval_minutes : ℕ
  pub semi_active_interval_hours : ℤ
  pub normal_interval_hours : ℤ
  pub inactive_interval_hours : ℤ
  pub no_recent_interval_hours : ℤ
  pub user_not_exists_interval_hours : ℤ

pub record UpstreamConfig : Type 0 where
  pub enabled : Bool
  pub providers : List Text

pub record Config : Type 0 where
  pub bot : BotConfig
  pub scheduler : SchedulerConfig
  pub upstream : UpstreamConfig
  pub poll_interval_secs : ℕ

-- The check that failed, with the value that the message shows.
pub data ConfigError : Type 0 where
  empty_url : ConfigError
  too_small : Text → ℕ → ConfigError
  too_large : Text → ℕ → ConfigError
  negative : Text → ℤ → ConfigError
  unknown_provider : Text → ConfigError

-- `none` is `Ok(())`. A check, and what comes behind it.
abbrev pub check : Bool → ConfigError → Option ConfigError → Option ConfigError
check failed error rest = if failed then some error else rest

abbrev pub is_negative : ℤ → Bool
is_negative (pos n) = false
is_negative (negsuc n) = true

unfoldable pub is_known_provider : Text → Bool
unfolding text_eq
is_known_provider p = text_eq p (codes "xfs") || text_eq p (codes "yumu")

unfoldable pub check_providers : List Text → Option ConfigError → Option ConfigError
unfolding is_known_provider
check_providers [] rest = rest
check_providers (p ∷ ps) rest =
    check (not (is_known_provider p)) (unknown_provider p) (check_providers ps rest)

unfoldable pub check_upstream : UpstreamConfig → Option ConfigError → Option ConfigError
unfolding check_providers
check_upstream u rest = if u.enabled then check_providers u.providers rest else rest

abbrev pub check_hours : SchedulerConfig → Option ConfigError → Option ConfigError
check_hours s rest =
    check (is_negative s.semi_active_interval_hours)
      (negative (codes "semi_active_interval_hours") s.semi_active_interval_hours)
      (check (is_negative s.normal_interval_hours)
        (negative (codes "normal_interval_hours") s.normal_interval_hours)
        (check (is_negative s.inactive_interval_hours)
          (negative (codes "inactive_interval_hours") s.inactive_interval_hours)
          (check (is_negative s.no_recent_interval_hours)
            (negative (codes "no_recent_interval_hours") s.no_recent_interval_hours)
            (check (is_negative s.user_not_exists_interval_hours)
              (negative (codes "user_not_exists_interval_hours") s.user_not_exists_interval_hours)
              rest))))

abbrev pub check_timeouts : BotConfig → Option ConfigError → Option ConfigError
check_timeouts b rest =
    check (ltb b.command_timeout_secs 5)
      (too_small (codes "command_timeout_secs") b.command_timeout_secs)
      (check (ltb b.render_timeout_secs 5)
        (too_small (codes "render_timeout_secs") b.render_timeout_secs)
        (check (ltb b.onebot_api_timeout_secs 2)
          (too_small (codes "onebot_api_timeout_secs") b.onebot_api_timeout_secs)
          (check (ltb b.ur_timeout_secs 3) (too_small (codes "ur_timeout_secs") b.ur_timeout_secs) (
            check (ltb 3600 b.command_timeout_secs)
              (too_large (codes "command_timeout_secs") b.command_timeout_secs)
              (check (ltb 600 b.render_timeout_secs)
                (too_large (codes "render_timeout_secs") b.render_timeout_secs)
                (check (ltb 120 b.onebot_api_timeout_secs)
                  (too_large (codes "onebot_api_timeout_secs") b.onebot_api_timeout_secs)
                  (check (ltb 300 b.ur_timeout_secs)
                    (too_large (codes "ur_timeout_secs") b.ur_timeout_secs) rest)))))))

unfoldable pub validate : Config → Option ConfigError
unfolding check_upstream
validate c = check (is_empty c.bot.onebot_url) empty_url (
    check_timeouts c.bot (
      check (ltb 1440 c.scheduler.interval_minutes)
        (too_large (codes "interval_minutes") c.scheduler.interval_minutes)
        (check_hours c.scheduler (
          check_upstream c.upstream (
            check (ltb c.poll_interval_secs 5)
              (too_small (codes "poll_interval_secs") c.poll_interval_secs) none)))))
