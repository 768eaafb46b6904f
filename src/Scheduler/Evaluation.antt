-- ===== src/Scheduler/Evaluation.antt =====
-- The evaluation of a user in a mode (osubot/src/scheduler.rs, eval_activity). What the outside gives to it
-- is a record: times, the answers of the API, and the statements that fail.
use osubot_rs.Prelude.{
  ℕ, ◌-◌, ◌*◌, ◌/◌, Bool, true, false, not, ◌&&◌, ◌||◌, List, [], Option, none, some, ltb,
  if◌then◌else◌, ℤ, pos, eq_i64,
}
use osubot_rs.Text.{Text}
use osubot_rs.GameMode.{GameMode}
use osubot_rs.Database.Bindings.{
  Binding, UserId, NextUpdate, update_binding_username_by_user_id, set_user_id,
}
use osubot_rs.Database.Pending.{second, timestamp}
use osubot_rs.Database.Schedule.{
  LastUpdate, PlayRecord, Stats, Snapshot, get_last_update, set_last_update, save_play_records,
  has_play_since, save_stats, get_latest_snapshot,
}

pub data UserActivity : Type 0 where
  semi_active normal no_recent inactive user_not_exists : UserActivity

pub record UpdateResult : Type 0 where
  pub activity : UserActivity
  pub success : Bool

pub record Tables (Rest : Type 0) : Type 0 where
  pub user_bindings : List Binding
  pub osu_user_ids : List UserId
  pub user_next_update : List NextUpdate
  pub user_last_update : List LastUpdate
  pub user_play_records : List PlayRecord
  pub user_stats_history : List (Snapshot Rest)

-- The answer of `fetch_user_stats_by_user_id`.
pub data StatsAnswer (Rest : Type 0) : Type 0 where
  got : Stats Rest → StatsAnswer Rest
  missing rate_limited client_rate_limited other_error : StatsAnswer Rest

pub record EvalOutside (Rest : Type 0) : Type 0 where
  pub now : ℕ
  pub acquired : Bool
  pub answer : StatsAnswer Rest
  pub rename_fails : Bool
  pub id_fails : Bool
  pub snapshot_fails : Bool
  pub save_fails : Bool
  pub saved_at : ℕ
  pub recent_plays : Option (List ℤ)
  pub records_fails : Bool
  pub has_recent_fails : Bool
  pub today : ℤ
  pub has_today_fails : Bool
  pub get_last_fails : Bool
  pub set_last_fails : Bool

abbrev pub hour : ℕ
hour = 3600 * second

abbrev pub no_success : UpdateResult
no_success = record { activity = no_recent; success = false }

abbrev pub hours_since : ℕ → Option ℕ → Option ℕ
hours_since now none = none
hours_since now (some t) = some ((now - t) / hour)

-- `none` is `i64::MAX` hours.
abbrev pub fallback_activity : Option ℕ → UserActivity
fallback_activity none = inactive
fallback_activity (some hours) =
    if ltb hours 8 then no_recent else if ltb hours 48 then normal else inactive

abbrev pub activity_of : Bool → Bool → Option ℕ → UserActivity
activity_of has_recent has_today hours =
    if has_recent then semi_active else if has_today then normal else fallback_activity hours

abbrev pub plays_now : UserActivity → Bool → Bool
plays_now semi_active has_today = true
plays_now normal has_today = has_today
plays_now a has_today = false

abbrev pub times_of : Option (List ℤ) → List ℤ
times_of none = []
times_of (some ts) = ts

module _ {Rest : Type 0} where
  abbrev pub changed : Stats Rest → Option (Stats Rest) → Bool
  changed current none = true
  changed current (some prev) =
      not (eq_i64 prev.rank current.rank) || not (eq_i64 prev.playcount current.playcount)

  -- A snapshot is saved when the statistics have changed, or are not known.
  abbrev pub snapshots_after :
      EvalOutside Rest → ℤ → GameMode → Stats Rest → List (Snapshot Rest) → List (Snapshot Rest)
  snapshots_after o user_id mode current rows =
      if (o.snapshot_fails || changed current (get_latest_snapshot user_id mode rows))
        && not o.save_fails
      then save_stats user_id mode current o.saved_at rows
      else rows

  abbrev pub plays_after : EvalOutside Rest → ℤ → GameMode → List PlayRecord → List PlayRecord
  plays_after o user_id mode rows =
      if o.records_fails
      then rows
      else save_play_records user_id mode (times_of o.recent_plays) rows

  abbrev pub last_after :
      EvalOutside Rest → ℤ → GameMode → UserActivity → Bool → List LastUpdate → List LastUpdate
  last_after o user_id mode activity has_today rows =
      if plays_now activity has_today && not o.set_last_fails
      then set_last_update user_id mode o.now rows
      else rows

  abbrev pub last_known : EvalOutside Rest → ℤ → GameMode → List LastUpdate → Option ℕ
  last_known o user_id mode rows =
      if o.get_last_fails then none else get_last_update user_id mode rows

  abbrev pub evaluated :
      (Text → Text)
      → EvalOutside Rest
      → ℤ
      → GameMode
      → Stats Rest
      → Tables Rest
      → UpdateResult × Tables Rest
  evaluated lower o user_id mode current t =
      let plays = plays_after o user_id mode t.user_play_records in
      let has_recent =
        not o.has_recent_fails
        && has_play_since user_id mode (pos (timestamp (o.now - 4 * hour))) plays in
      let has_today = not o.has_today_fails && has_play_since user_id mode o.today plays in
      let activity =
        activity_of has_recent has_today
          (hours_since o.now (last_known o user_id mode t.user_last_update)) in
      (
        record { activity = activity; success = true },
        record t {
          user_bindings =
              if o.rename_fails
              then t.user_bindings
              else (update_binding_username_by_user_id user_id current.username t.user_bindings).0;
          osu_user_ids =
              if o.id_fails
              then t.osu_user_ids
              else set_user_id lower current.username user_id t.osu_user_ids;
          user_last_update = last_after o user_id mode activity has_today t.user_last_update;
          user_play_records = plays;
          user_stats_history = snapshots_after o user_id mode current t.user_stats_history;
        },
      )

  abbrev pub on_answer :
      (Text → Text)
      → EvalOutside Rest
      → StatsAnswer Rest
      → ℤ
      → GameMode
      → Tables Rest
      → UpdateResult × Tables Rest
  on_answer lower o (got current) user_id mode t = evaluated lower o user_id mode current t
  on_answer lower o missing user_id mode t =
      (record { activity = user_not_exists; success = true }, t)
  on_answer lower o rate_limited user_id mode t = (no_success, t)
  on_answer lower o client_rate_limited user_id mode t = (no_success, t)
  on_answer lower o other_error user_id mode t = (no_success, t)

  unfoldable pub eval_activity :
      (Text → Text) → EvalOutside Rest → ℤ → GameMode → Tables Rest → UpdateResult × Tables Rest
  eval_activity lower o user_id mode t =
      if not o.acquired then (no_success, t) else on_answer lower o o.answer user_id mode t
