-- ===== src/Tests/Listens.antt =====
-- `!ml` in a group and in a private chat, and the polls of the table that it leaves.
use osubot_rs.Prelude.{
  true, ◌⊎◌, ℤ, ℕ, ◌≡◌, ◌≤◌, refl, false, [], ◌∷◌, none, some, arith, pos, negsuc, ◌&&◌,
}
use osubot_rs.Text.{codes}
use osubot_rs.Types.{MatchListenAction}
use osubot_rs.Poller.{process_one}
use osubot_rs.Poller.Stored.{Writes, store_progress, cursor_of, poll_listener}
use osubot_rs.Poller.Resume.{cursor_in, poll_listener_cursor, poll_listener_again}
use osubot_rs.MatchStart.Actions.{
  Attempt, LegacyMatchResponse, Table, limit_exceeded, failed, started, numbered, execute_ml_action,
  execute_start, counted,
}
use osubot_rs.MatchStart.Actions.Limit.{opened, acted, count_active-Served}
use osubot_rs.MatchStart.Actions.Outcome.{Answered, execute_start-Answered}
use osubot_rs.Database.Table.First.{updated_first}
use osubot_rs.Database.Listeners.{
  MatchListener, MatchListenerStartParams, new_row, deactivated, progressed, at_key,
  start_match_listener, stop_match_listener, get_match_listener, update_match_listener_progress,
  count_active_match_listeners_in_group,
}
use osubot_rs.Database.Listeners.Keys.{StartedFrom, get-start_match_listener, get-stop, same_key}
use osubot_rs.Tests.Listening.{response}
use osubot_rs.Tests.Polls.{config, sends_all, fails_at_12, polls}

abbrev match_response : LegacyMatchResponse ℕ
match_response = record {
  name = codes "OWC";
  has_ended = false;
  users = 2;
  events = response;
  latest_event_id = 13;
}

-- A call with no failure, whose statements run at 100, 101 and 102.
abbrev attempt : Attempt ℕ
attempt = record {
  asked_at = pos 100;
  counted_at = pos 101;
  started_at = pos 102;
  created_at = 102;
  get_fails = false;
  count_fails = false;
  write_fails = false;
  response = some match_response;
}

abbrev params : MatchListenerStartParams
params = record {
  match_id = pos 5;
  group_id = pos 777;
  user_id = none;
  notification_type = codes "group";
  creator_qq = pos 10001;
  match_name = codes "OWC";
  expires_at = pos 21702;
  initial_last_event_id = some (pos 11);
  initial_last_notified_event_id = some (pos 11);
}

abbrev listener : MatchListener
listener = new_row params 102

abbrev one : Table
one = listener ∷ []

-- A listener in a private chat.
abbrev private_one : Table
unfolding execute_ml_action
private_one = (execute_ml_action config attempt (MatchListenAction.start 5 0) none (pos 10001) []).1

count_active-Served_example :
    count_active_match_listeners_in_group (negsuc 10000) (pos 102) private_one ≤ 3
unfolding private_one
count_active-Served_example =
    count_active-Served config (pos 102) private_one
      (acted (pos 100) (pos 102) [] attempt (MatchListenAction.start 5 0) none (pos 10001)
        (opened (pos 100)) (refl, refl, refl, refl) (omega arith))
      (negsuc 10000)

execute_start-Answered_example :
    Answered
      (pos 100)
      (pos 5)
      (pos 777)
      one
      (execute_start config attempt 5 0 (some (pos 777)) (pos 10001) one).0
      (execute_start config attempt 5 0 (some (pos 777)) (pos 10001) one).1
execute_start-Answered_example =
    execute_start-Answered config attempt 5 0 (some (pos 777)) (pos 10001) one refl

get-start_match_listener_example :
    ((l : MatchListener) × (get_match_listener
          (pos 5)
          (pos 777)
          (start_match_listener params 110 (pos 110) one)
        ≡ some l)
      × StartedFrom params 110 (pos 110) (get_match_listener (pos 5) (pos 777) one) l)
    × ((m g : ℤ)
        → (same_key (pos 5) (pos 777) m g ≡ true)
          ⊎ (get_match_listener m g (start_match_listener params 110 (pos 110) one)
              ≡ get_match_listener m g one))
get-start_match_listener_example = get-start_match_listener params 110 (pos 110) one

get-stop_example :
    get_match_listener (pos 5) (pos 777) (stop_match_listener (pos 5) (pos 777) one).0
    ≡ updated_first
        (λ l. at_key (pos 5) (pos 777) l && l.active)
        deactivated
        (get_match_listener (pos 5) (pos 777) one)
get-stop_example = get-stop (pos 5) (pos 777) (pos 5) (pos 777) one

abbrev writes : Writes
writes = record { stored_at = 120; update_fails = false; stop_fails = false }

poll_listener_cursor_example :
    cursor_in (
      get_match_listener
        (pos 5)
        (pos 777)
        (poll_listener config fails_at_12 writes listener (some response) one))
    ≡ some (process_one config fails_at_12 (cursor_of listener) response).final_cursor
unfolding polls get_match_listener
poll_listener_cursor_example =
    poll_listener_cursor config fails_at_12 writes listener response one refl refl (omega arith)
      (omega arith, omega arith, tt)

-- The listener after a poll that delivers everything.
abbrev polled_listener : MatchListener
polled_listener = progressed (some (pos 11)) (some (pos 12)) (some (pos 12)) (some 120) listener

poll_listener_again_example :
    poll_listener config fails_at_12 writes polled_listener
      (some response)
      (poll_listener config sends_all writes listener (some response) one)
    ≡ poll_listener config sends_all writes listener (some response) one
unfolding polls get_match_listener store_progress update_match_listener_progress
poll_listener_again_example =
    poll_listener_again config config sends_all fails_at_12 writes writes listener polled_listener
      response one (omega arith) refl refl (omega arith) (omega arith, omega arith, omega arith)
      refl refl refl

-- A listener that runs is started again with success, whatever the count.
started_again :
    (execute_start config attempt 5 0 (some (pos 777)) (pos 10001) (
      listener
      ∷ record listener { match_id = pos 6 }
      ∷ record listener { match_id = pos 7; active = false }
      ∷ [])).0
    ≡ started (pos 10001) (numbered 5)
unfolding execute_start get_match_listener
started_again = refl

limit_reached :
    (execute_start config attempt 8 0 (some (pos 777)) (pos 10001) (
      listener
      ∷ record listener { match_id = pos 6 }
      ∷ record listener { match_id = pos 7 }
      ∷ [])).0
    ≡ failed (pos 10001) limit_exceeded
unfolding execute_start get_match_listener counted count_active_match_listeners_in_group
limit_reached = refl
