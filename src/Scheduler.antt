-- ===== src/Scheduler.antt =====
-- The scheduler of updates (osubot/src/scheduler.rs): a tick for those who are due, the time of the next
-- update, and the calls of other parts.
pub mod Evaluation
pub mod Times
pub mod Due
pub mod Scheduled
use osubot_rs.Prelude.{
  ℕ, ◌+◌, ◌-◌, ◌*◌, ◌/◌, Bool, true, false, not, ◌&&◌, ◌||◌, List, [], ◌∷◌, Option, none, some, ltb,
  if◌then◌else◌, ℤ, pos, negsuc, eq_i64, suc, Run, done, panicked, and_then,
}
use osubot_rs.Text.{Text}
use osubot_rs.GameMode.{GameMode}
use osubot_rs.Validation.{SchedulerConfig}
use osubot_rs.Database.Bindings.{
  Binding, UserId, NextUpdate, update_binding_username_by_user_id, set_user_id,
}
use osubot_rs.Database.Pending.{
  PendingBind, PendingUnbind, second, timestamp, prune_expired_pending_binds,
  prune_expired_pending_unbinds,
}
use osubot_rs.Database.Schedule.{
  LastUpdate, PlayRecord, Stats, Snapshot, get_next_update, set_next_update, reset_all_next_updates,
  get_last_update, set_last_update, get_due_users, save_play_records, has_play_since, save_stats,
  get_latest_snapshot, prune_old_records,
}
use osubot_rs.Scheduler.Evaluation.{
  UserActivity, UpdateResult, Tables, StatsAnswer, got, EvalOutside, hour, no_success, hours_since,
  fallback_activity, activity_of, plays_now, times_of, changed, snapshots_after, plays_after,
  last_after, last_known, evaluated, on_answer, eval_activity, semi_active, normal, no_recent,
  inactive, user_not_exists, missing, rate_limited, client_rate_limited, other_error,
}

-- Of chrono, in seconds: `Duration::hours`, and the sum of a time and a duration. Both panic out of the
-- bounds of their types.
pub record Chrono : Type 0 where
  pub hours : ℤ → Run ℤ
  pub plus : ℤ → ℤ → Run ℤ

abbrev pub interval_hours : SchedulerConfig → UserActivity → ℤ
interval_hours cfg semi_active = cfg.semi_active_interval_hours
interval_hours cfg normal = cfg.normal_interval_hours
interval_hours cfg inactive = cfg.inactive_interval_hours
interval_hours cfg no_recent = cfg.no_recent_interval_hours
interval_hours cfg user_not_exists = cfg.user_not_exists_interval_hours

abbrev pub get_update_interval : Chrono → SchedulerConfig → UserActivity → Run ℤ
get_update_interval c cfg activity = c.hours (interval_hours cfg activity)

-- The second at which a user is due again; at once after a failure.
unfoldable pub next_due : Chrono → SchedulerConfig → UpdateResult → ℕ → Run ℤ
next_due c cfg r now =
    if r.success
    then and_then (get_update_interval c cfg r.activity) (c.plus (pos (timestamp now)))
    else done (pos (timestamp now))

-- What the outside gives when the result of a pair is written.
pub record Written : Type 0 where
  pub done_at : ℕ
  pub write_fails : Bool

module _ {Rest : Type 0} where
  -- The evaluations, one after another; in which order they end is the order of the list.
  unfoldable pub evaluate_all :
      (Text → Text)
      → (ℤ → GameMode → EvalOutside Rest)
      → List (ℤ × GameMode)
      → Tables Rest
      → List (ℤ × GameMode × UpdateResult) × Tables Rest
  unfolding eval_activity
  evaluate_all lower o [] t = ([], t)
  evaluate_all lower o ((user_id, mode) ∷ due) t =
      let here = eval_activity lower (o user_id mode) user_id mode t in
      let rest = evaluate_all lower o due here.1 in ((user_id, mode, here.0) ∷ rest.0, rest.1)

-- The rows, and whether the tick panicked after it wrote them.
unfoldable pub write_all :
    Chrono
    → SchedulerConfig
    → (ℤ → GameMode → Written)
    → List (ℤ × GameMode × UpdateResult)
    → List NextUpdate
    → List NextUpdate × Bool
unfolding next_due
write_all c cfg w [] rows = (rows, false)
write_all c cfg w ((user_id, mode, r) ∷ rs) rows =
    let o = w user_id mode in
    elim (next_due c cfg r o.done_at) [
      | panicked ↦ (rows, true)
      | done next ↦
          write_all c cfg w rs
            (if o.write_fails then rows else set_next_update user_id mode next rows)
    ]

-- The list of those that are due.
abbrev pub due_list : Bool → ℕ → List Binding → List NextUpdate → List (ℤ × GameMode)
due_list due_fails now bindings updates =
    if due_fails then [] else get_due_users (pos (timestamp now)) bindings updates

module _ {Rest : Type 0} where
  -- `order` is the order in which the evaluations end. The tables, and whether the tick panicked.
  unfoldable pub process_due_users :
      (Text → Text)
      → Chrono
      → SchedulerConfig
      → (ℤ → GameMode → EvalOutside Rest)
      → (ℤ → GameMode → Written)
      → (List (ℤ × GameMode) → List (ℤ × GameMode))
      → (due_fails : Bool) → (now : ℕ) → Tables Rest
      → Tables Rest × Bool
  unfolding evaluate_all write_all
  process_due_users lower c cfg o w order due_fails now t =
      let result =
        evaluate_all lower o (order (due_list due_fails now t.user_bindings t.user_next_update))
          t in
      let written = write_all c cfg w result.0 result.1.user_next_update in
      (record result.1 { user_next_update = written.0 }, written.1)

-- `now - last < cooldown`, with the cooldown in seconds.
abbrev pub before_end : ℕ → ℕ → ℤ → Bool
before_end now last (pos seconds) = ltb now (last + seconds * second)
before_end now last (negsuc seconds) = ltb (now + suc seconds * second) last

abbrev pub cooling : Chrono → ℕ → ℤ → Option ℕ → Run Bool
cooling c now hours none = done false
cooling c now hours (some last) = and_then (c.hours hours) (λ d. done (before_end now last d))

module _ {Rest : Type 0} where
  unfoldable pub is_in_cooldown : Chrono → Bool → ℕ → ℤ → ℤ → GameMode → Tables Rest → Run Bool
  is_in_cooldown c get_fails now cooldown user_id mode t =
      cooling c now cooldown
        (if get_fails then none else get_last_update user_id mode t.user_last_update)

  unfoldable pub trigger_update :
      Chrono → (get_fails set_fails : Bool) → ℕ → ℤ → ℤ → GameMode → Tables Rest → Run (Tables Rest)
  unfolding is_in_cooldown
  trigger_update c get_fails set_fails now cooldown user_id mode t =
      and_then (is_in_cooldown c get_fails now cooldown user_id mode t) (λ in_cooldown. done (
        if in_cooldown || set_fails then t else record t {
          user_next_update = set_next_update user_id mode (pos (timestamp now)) t.user_next_update;
        }))

  unfoldable pub reschedule_all : Bool → ℕ → Tables Rest → Tables Rest
  reschedule_all fails now t = if fails then t else record t {
    user_next_update = reset_all_next_updates (pos (timestamp now)) t.user_next_update;
  }
