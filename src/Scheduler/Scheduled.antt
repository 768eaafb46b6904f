-- ===== src/Scheduler/Scheduled.antt =====
-- Nobody who is bound is forgotten by the scheduler (osubot/src/scheduler.rs).
use osubot_rs.Prelude.{
  ℕ, ◌≡◌, refl, ap, ◌∙◌, Bool, true, false, not, ◌||◌, List, [], ◌∷◌, ltb, ℤ, pos, arith, inl, inr,
  is_some, if_both, map,
}
use osubot_rs.Text.{Text}
use osubot_rs.GameMode.{GameMode}
use osubot_rs.Validation.{SchedulerConfig}
use osubot_rs.Database.Table.{count_where}
use osubot_rs.Database.Bindings.{has_user_id}
use osubot_rs.Database.Pending.{timestamp}
use osubot_rs.Database.Schedule.{get_next_update, get_due_users}
use osubot_rs.Scheduler.{Chrono, Written, evaluate_all, process_due_users}
use osubot_rs.Scheduler.Evaluation.{
  Tables, StatsAnswer, got, missing, rate_limited, client_rate_limited, other_error, UpdateResult,
  EvalOutside, on_answer, eval_activity,
}
use osubot_rs.Scheduler.Times.{
  occurs, evaluated_pair, is_scheduled, AllWrite, OnTime, AreIntervals, Documented,
  write_all-scheduled,
}
use osubot_rs.Scheduler.Due.{due_or_scheduled}

module _ {Rest : Type 0} where
  -- An evaluation leaves the times of the next updates.
  answered_updates :
      (lower : Text → Text) (o : EvalOutside Rest) (a : StatsAnswer Rest) (u : ℤ) (m : GameMode)
      (t : Tables Rest)
      → (on_answer lower o a u m t).1.user_next_update ≡ t.user_next_update
  answered_updates lower o (got s) u m t = refl
  answered_updates lower o missing u m t = refl
  answered_updates lower o rate_limited u m t = refl
  answered_updates lower o client_rate_limited u m t = refl
  answered_updates lower o other_error u m t = refl

  evaluated_updates :
      (lower : Text → Text) (o : EvalOutside Rest) (u : ℤ) (m : GameMode) (t : Tables Rest)
      → (eval_activity lower o u m t).1.user_next_update ≡ t.user_next_update
  unfolding eval_activity
  evaluated_updates lower o u m t =
      if_both (λ (r : UpdateResult × Tables Rest). r.1.user_next_update ≡ t.user_next_update)
        (not o.acquired) refl (answered_updates lower o o.answer u m t)

  evaluate_all-updates :
      (lower : Text → Text) (o : ℤ → GameMode → EvalOutside Rest) (due : List (ℤ × GameMode))
      (t : Tables Rest)
      → (evaluate_all lower o due t).1.user_next_update ≡ t.user_next_update
  unfolding evaluate_all
  evaluate_all-updates lower o [] t = refl
  evaluate_all-updates lower o ((u, m) ∷ due) t =
      evaluate_all-updates lower o due (eval_activity lower (o u m) u m t).1
      ∙ evaluated_updates lower (o u m) u m t

  evaluate_all-pairs :
      (lower : Text → Text) (o : ℤ → GameMode → EvalOutside Rest) (due : List (ℤ × GameMode))
      (t : Tables Rest)
      → map evaluated_pair (evaluate_all lower o due t).0 ≡ due
  unfolding evaluate_all
  evaluate_all-pairs lower o [] t = refl
  evaluate_all-pairs lower o ((u, m) ∷ due) t =
      ap (λ l. (u, m) ∷ l) (evaluate_all-pairs lower o due (eval_activity lower (o u m) u m t).1)

-- A tick in which the list of those that are due is read and every write succeeds ends without a panic, and
-- after it each mode of each user who was bound has a time of its next update, whatever the API answers and
-- whichever other statements fail, if every evaluation that starts comes to its end, in whatever order; the
-- configured intervals are from 0 to 1000000000 hours, and the clock is before the second 4000000000000.
pub process_due_users-scheduled :
    {Rest : Type 0} (lower : Text → Text) (c : Chrono) (cfg : SchedulerConfig)
    (o : ℤ → GameMode → EvalOutside Rest) (w : ℤ → GameMode → Written)
    (order : List (ℤ × GameMode) → List (ℤ × GameMode)) (now : ℕ) (t : Tables Rest) (u : ℤ)
    (m : GameMode)
    → Documented c
    → AreIntervals cfg
    → OnTime w
    → AllWrite w
    → ((ps : List (ℤ × GameMode)) → occurs u m ps ≡ true → occurs u m (order ps) ≡ true)
    → ltb 0 (count_where (has_user_id u) t.user_bindings) ≡ true
    → ((process_due_users lower c cfg o w order false now t).1 ≡ false)
      × (is_some (
            get_next_update u m
              (process_due_users lower c cfg o w order false now t).0.user_next_update)
          ≡ true)
unfolding process_due_users
process_due_users-scheduled lower c cfg o w order now t u m k b n ok keeps bound =
    let due = order (get_due_users (pos (timestamp now)) t.user_bindings t.user_next_update) in
    let r = evaluate_all lower o due t in
    write_all-scheduled c cfg w u m r.0 r.1.user_next_update k b n ok (
      rw (evaluate_all-updates lower o due t, evaluate_all-pairs lower o due t)
        (elim (due_or_scheduled u m (pos (timestamp now)) t.user_bindings t.user_next_update
          bound) [
            | inl q ↦ rw (q) refl
            | inr q ↦ or_right (is_scheduled u m t.user_next_update) _ (keeps _ q)
          ]))
  where
    or_right : (b c : Bool) → c ≡ true → (b || c) ≡ true
    or_right b c h = ground arith
