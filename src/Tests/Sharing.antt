-- ===== src/Tests/Sharing.antt =====
-- Two calls that share one request, as in the repository's tests of the deduplicator.
use osubot_rs.Prelude.{ℕ, ◌≡◌, refl, true, false, some, Result, ◌⊎◌, arith}
use osubot_rs.Text.{Text}
use osubot_rs.Dedup.{
  Joined, Task, Stage, RequestDedup, new, put, enter_at, enter, claim, store_result, close,
  close_dropped, remove_key, go, waited, Step, Reachable,
}
use osubot_rs.Dedup.Single.{one_creator}
use osubot_rs.Dedup.Places.{At, will_close, was_abandoned}
use osubot_rs.Dedup.Tasks.{waiting_wakes, one_task}
use osubot_rs.Dedup.Replies.{Delivers, abandoned_reply}
use osubot_rs.Dedup.Answers.{returned_reply}

-- `E::from(&'static str)` of the concrete error type.
abbrev from : Text → Text
from t = t

-- All that the steps call, for the runs below.
steps : ℕ
unfolding new enter_at claim store_result close close_dropped remove_key
steps = 0

abbrev both_entered : RequestDedup ℕ Text
both_entered = enter 2 7 (enter 1 7 new)

abbrev both_claimed : RequestDedup ℕ Text
both_claimed = claim 2 (claim 1 both_entered)

abbrev finished : Joined ℕ Text
finished = Joined.joined (Result.ok 42)

abbrev task_ended : RequestDedup ℕ Text
task_ended = record both_claimed { tasks = put 0 (Task.ended finished) both_claimed.tasks }

abbrev result_stored : RequestDedup ℕ Text
result_stored = store_result from 1 finished task_ended

abbrev closed : RequestDedup ℕ Text
closed = close 1 (Result.ok 42) result_stored

abbrev woken : RequestDedup ℕ Text
woken = go 2 (Stage.returned (waited from (closed.arena (closed.callers 2).entry).result)) closed

both_entered-Reachable : Reachable from both_entered
unfolding steps
both_entered-Reachable =
    Reachable.step (enter 1 7 new) _ (Reachable.step new _ Reachable.start (Step.enters 1 7 refl))
      (Step.enters 2 7 refl)

both_claimed-Reachable : Reachable from both_claimed
unfolding steps
both_claimed-Reachable =
    Reachable.step (claim 1 both_entered) _
      (Reachable.step both_entered _ both_entered-Reachable (Step.claims 1 refl))
      (Step.claims 2 refl)

closed-Reachable : Reachable from closed
unfolding steps
closed-Reachable =
    Reachable.step result_stored _
      (Reachable.step task_ended _
        (Reachable.step both_claimed _ both_claimed-Reachable (Step.task_ends 0 finished refl))
        (Step.stores 1 finished refl refl))
      (Step.closes 1 (Result.ok 42) refl)

woken-Reachable : Reachable from woken
unfolding steps
woken-Reachable = Reachable.step closed _ closed-Reachable (Step.wakes 2 refl refl)

-- The waiter has the value of the creator's task.
wakes_with_value : (woken.callers 2).stage ≡ Stage.returned (Result.ok 42)
unfolding steps
wakes_with_value = refl

-- The creator is dropped while its task runs, and a second call starts the request anew: two tasks
-- of one key run at once.
abbrev retried : RequestDedup ℕ Text
retried =
    claim 2 (enter 2 7 (remove_key 1 Stage.abandoned (close_dropped 1 (claim 1 (enter 1 7 new)))))

first_still_runs : retried.tasks 0 ≡ Task.running
unfolding steps
first_still_runs = refl

second_runs : retried.tasks 1 ≡ Task.running
unfolding steps
second_runs = refl

abbrev creator : ℕ
creator = 1

one_creator_example :
    (creator ≡ creator)
    × ((both_claimed.entries (both_claimed.callers creator).key)
        ≡ some (both_claimed.callers creator).entry)
unfolding steps
one_creator_example =
    one_creator from both_claimed creator creator both_claimed-Reachable refl refl refl

waiting_wakes_example :
    ((both_claimed.arena (both_claimed.callers 2).entry).closed ≡ true)
    ⊎ At both_claimed.callers will_close (both_claimed.callers 2).entry
unfolding steps
waiting_wakes_example = waiting_wakes from both_claimed 2 both_claimed-Reachable refl

nobody_abandoned : (d : ℕ) → was_abandoned (both_claimed.callers d).stage ≡ false
unfolding steps
nobody_abandoned d = ground arith

one_task_example : (both_claimed.callers 1).entry ≡ (both_claimed.callers 2).entry
unfolding steps
one_task_example =
    one_task from both_claimed 1 2 both_claimed-Reachable nobody_abandoned refl refl refl refl refl

abbrev value : Result ℕ Text
value = Result.ok 42

returned_reply_example :
    Delivers from (woken.tasks (woken.callers 2).entry) value
    ⊎ ((value ≡ abandoned_reply from) × At woken.callers was_abandoned (woken.callers 2).entry)
unfolding steps
returned_reply_example = returned_reply from woken 2 value woken-Reachable refl
