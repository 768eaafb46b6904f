-- ===== src/Tests/Updates.antt =====
-- A tick of the scheduler for a user who has just been bound.
use osubot_rs.Prelude.{
  Bool, negsuc, Run, done, panicked, leb, if◌then◌else◌, ◌*◌, ◌+◌, ◌≤◌, arith, ℕ, ◌≡◌, refl, true,
  false, [], ◌∷◌, some, pos, ℤ, is_some, ◌+ℤ◌, scale,
}
use osubot_rs.Text.{codes, text_eq}
use osubot_rs.GameMode.{taiko, to_i32, to_u8}
use osubot_rs.Validation.{SchedulerConfig}
use osubot_rs.Database.Table.{count_where, select_where, upsert, update_where, order_by, insert_by}
use osubot_rs.Database.Bindings.{new_binding, update_binding_username_by_user_id, set_user_id}
use osubot_rs.Database.Schedule.{
  get_next_update, set_next_update, get_due_users, unscheduled, save_play_records, has_play_since,
  save_stats, get_latest_snapshot, get_last_update, set_last_update,
}
use osubot_rs.Scheduler.{Chrono, Written, evaluate_all, write_all, next_due, process_due_users}
use osubot_rs.Scheduler.Evaluation.{Tables, got, EvalOutside, eval_activity}
use osubot_rs.Scheduler.Times.{Documented}
use osubot_rs.Scheduler.Scheduled.{process_due_users-scheduled}

abbrev config : SchedulerConfig
config = record {
  interval_minutes = 10;
  semi_active_interval_hours = pos 4;
  normal_interval_hours = pos 8;
  inactive_interval_hours = pos 48;
  no_recent_interval_hours = pos 6;
  user_not_exists_interval_hours = pos 24;
}

abbrev user : ℤ
user = pos 124493

-- One user, and no times.
abbrev tables : Tables ℕ
tables = record {
  user_bindings = new_binding (pos 10001) user (codes "Cookiezi") ∷ [];
  osu_user_ids = [];
  user_next_update = [];
  user_last_update = [];
  user_play_records = [];
  user_stats_history = [];
}

-- At 100000 seconds; the last play was an hour ago.
abbrev outside : EvalOutside ℕ
outside = record {
  now = 100000000000000;
  acquired = true;
  answer = got (record { username = codes "Cookiezi"; rank = pos 1; playcount = pos 2; rest = 3 });
  rename_fails = false;
  id_fails = false;
  snapshot_fails = false;
  save_fails = false;
  saved_at = 100000000000000;
  recent_plays = some (pos 96400 ∷ []);
  records_fails = false;
  has_recent_fails = false;
  today = pos 86400;
  has_today_fails = false;
  get_last_fails = false;
  set_last_fails = false;
}

abbrev written : Written
written = record { done_at = 100000000000000; write_fails = false }

-- Durations and times in the documented bounds.
abbrev in_duration : ℤ → Run ℤ
in_duration (pos h) = if leb h 2562047788015 then done (pos (h * 3600)) else panicked
in_duration (negsuc h) = panicked

abbrev in_time : ℤ → ℤ → Run ℤ
in_time (pos t) (pos d) = if leb (t + d) 8000000000000 then done (pos (t + d)) else panicked
in_time t d = panicked

abbrev chrono : Chrono
chrono = record { hours = in_duration; plus = in_time }

chrono-Documented : Documented chrono
chrono-Documented = (λ h k. rw (within h _ k) refl, λ t d k. rw (within (t + d) _ k) refl)
  where
    within : (a b : ℕ) → a ≤ b → leb a b ≡ true
    within a b k = ground arith

abbrev after_tick : Tables ℕ × Bool
after_tick =
    process_due_users (λ t. t) chrono config (λ u m. outside) (λ u m. written) (λ ps. ps) false
      100000000000000 tables

-- Due again four hours later.
taiko_due : get_next_update user taiko after_tick.0.user_next_update ≡ some (pos 114400)
unfolding process_due_users evaluate_all eval_activity write_all next_due get_due_users unscheduled
    get_next_update set_next_update save_play_records has_play_since save_stats get_latest_snapshot
    get_last_update set_last_update update_binding_username_by_user_id set_user_id count_where
    select_where upsert update_where order_by insert_by text_eq to_i32 to_u8 ◌+ℤ◌ scale
taiko_due = refl

process_due_users-scheduled_example :
    (after_tick.1 ≡ false)
    × (is_some (get_next_update user taiko after_tick.0.user_next_update) ≡ true)
unfolding count_where
process_due_users-scheduled_example =
    process_due_users-scheduled (λ t. t) chrono config (λ u m. outside) (λ u m. written) (λ ps. ps)
      100000000000000 tables user taiko chrono-Documented
      (omega arith, omega arith, omega arith, omega arith, omega arith) (λ u m. omega arith)
      (λ u m. refl) (λ ps h. h) refl

-- An interval that passes the checks of the configuration ends the tick.
large_interval :
    (process_due_users
      (λ t. t)
      chrono
      (record config { semi_active_interval_hours = pos 2562047788016 })
      (λ u m. outside)
      (λ u m. written)
      (λ ps. ps)
      false
      100000000000000
      tables).1
    ≡ true
unfolding process_due_users evaluate_all eval_activity write_all next_due get_due_users unscheduled
    get_next_update set_next_update save_play_records has_play_since save_stats get_latest_snapshot
    get_last_update set_last_update update_binding_username_by_user_id set_user_id count_where
    select_where upsert update_where order_by insert_by text_eq to_i32 to_u8 ◌+ℤ◌ scale
large_interval = refl
