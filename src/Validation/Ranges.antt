-- ===== src/Validation/Ranges.antt =====
-- The configurations that pass.
use osubot_rs.Prelude.{
  ℕ, ◌≤◌, ◌≡◌, ◌↔◌, refl, Bool, true, false, List, [], ◌∷◌, Option, none, is_empty, arith, ◌⊎◌, inl,
  inr, All, Bool-cases,
}
use osubot_rs.Text.{Text}
use osubot_rs.Validation.{
  BotConfig, SchedulerConfig, UpstreamConfig, Config, ConfigError, check, is_negative,
  is_known_provider, check_providers, check_upstream, check_hours, check_timeouts, validate,
}

abbrev pub Between : ℕ → ℕ → ℕ → Type 0
Between lo hi n = (lo ≤ n) × (n ≤ hi)

abbrev pub TimeoutsOk : BotConfig → Type 0
TimeoutsOk b =
    Between 5 3600 b.command_timeout_secs
    × (Between 5 600 b.render_timeout_secs
        × (Between 2 120 b.onebot_api_timeout_secs × Between 3 300 b.ur_timeout_secs))

abbrev pub HoursOk : SchedulerConfig → Type 0
HoursOk s =
    (is_negative s.semi_active_interval_hours ≡ false)
    × ((is_negative s.normal_interval_hours ≡ false)
        × ((is_negative s.inactive_interval_hours ≡ false)
            × ((is_negative s.no_recent_interval_hours ≡ false)
                × (is_negative s.user_not_exists_interval_hours ≡ false))))

abbrev pub ProvidersOk : UpstreamConfig → Type 0
unfolding is_known_provider
ProvidersOk u = (u.enabled ≡ false) ⊎ All (λ p. is_known_provider p ≡ true) u.providers

check_timeouts_iff :
    (b : BotConfig) (rest : Option ConfigError)
    → (check_timeouts b rest ≡ none) ↔ (TimeoutsOk b × (rest ≡ none))
check_timeouts_iff b rest = ground arith

check_hours_iff :
    (s : SchedulerConfig) (rest : Option ConfigError)
    → (check_hours s rest ≡ none) ↔ (HoursOk s × (rest ≡ none))
check_hours_iff s rest = ground arith

check_providers_iff :
    (ps : List Text) (rest : Option ConfigError)
    → (check_providers ps rest ≡ none) ↔ (All (λ p. is_known_provider p ≡ true) ps × (rest ≡ none))
unfolding check_providers is_known_provider
check_providers_iff [] rest = ground arith
check_providers_iff (p ∷ ps) rest =
    let ih = check_providers_iff ps rest in
    elim (Bool-cases (is_known_provider p)) [
      | inl q ↦ rw (q) ((λ h. ((refl, (ih.0 h).0), (ih.0 h).1)), (λ h. ih.1 (h.0.1, h.1)))
      | inr q ↦ rw (q) ((λ h. absurd (ground arith)), (λ h. absurd (ground arith)))
    ]

check_upstream_iff :
    (u : UpstreamConfig) (rest : Option ConfigError)
    → (check_upstream u rest ≡ none) ↔ (ProvidersOk u × (rest ≡ none))
unfolding ProvidersOk check_providers check_upstream
check_upstream_iff u rest =
    let ps = check_providers_iff u.providers rest in
    elim (Bool-cases u.enabled) [
      | inl q ↦ rw (q) (
        (λ h. (inr (ps.0 h).0, (ps.0 h).1)),
        (λ h. elim h.0 [ inl off ↦ absurd (ground arith) | inr known ↦ ps.1 (known, h.1) ]),
      )
      | inr q ↦ rw (q) ((λ h. (inl refl, h)), (λ h. h.1))
    ]

check_iff :
    (failed : Bool) (e : ConfigError) (rest : Option ConfigError)
    → (check failed e rest ≡ none) ↔ ((failed ≡ false) × (rest ≡ none))
check_iff failed e rest = ground arith

-- All that a valid configuration meets.
abbrev pub ConfigOk : Config → Type 0
ConfigOk c =
    (is_empty c.bot.onebot_url ≡ false)
    × (TimeoutsOk c.bot
        × ((c.scheduler.interval_minutes ≤ 1440)
            × (HoursOk c.scheduler × (ProvidersOk c.upstream × (5 ≤ c.poll_interval_secs)))))

-- A configuration passes the checks exactly when its URL is not empty, its four timeouts, the interval
-- of the scheduler and that of the poller are in their ranges, its five intervals in hours are not
-- negative, and the upstream is disabled or all its providers are known.
pub validate_iff : (c : Config) → (validate c ≡ none) ↔ ConfigOk c
unfolding validate
validate_iff c = (
  (λ h.
      let url = (check_iff _ _ _).0 h in
      let times = (check_timeouts_iff c.bot _).0 url.1 in
      let minutes = (check_iff _ _ _).0 times.1 in
      let hours = (check_hours_iff c.scheduler _).0 minutes.1 in
      let ups = (check_upstream_iff c.upstream _).0 hours.1 in
      let polls = (check_iff _ _ none).0 ups.1 in
      (url.0, (times.0, (ground (arith, minutes.0), (hours.0, (ups.0, ground (arith, polls.0))))))),
  (λ h. (check_iff _ _ _).1 (
    h.0,
    (check_timeouts_iff c.bot _).1 (
      h.1.0,
      (check_iff _ _ _).1 (
        ground arith,
        (check_hours_iff c.scheduler _).1 (
          h.1.1.1.0,
          (check_upstream_iff c.upstream _).1
              (h.1.1.1.1.0, (check_iff _ _ none).1 (ground arith, refl)),
        ),
      ),
    ),
  )),
)
