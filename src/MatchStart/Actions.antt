-- ===== src/MatchStart/Actions.antt =====
-- The actions of `!ml` on the table of listeners (osubot/src/command/match_listen.rs). An `Attempt`
-- is what the outside gives to one call: the times at which its statements run, the statements that
-- fail, and the answer of the API. The texts of the replies are left out.
pub mod Chats
pub mod Kept
pub mod Limit
pub mod Outcome
use osubot_rs.Prelude.{
  ℕ, suc, Bool, true, false, not, ◌&&◌, List, [], ◌∷◌, Option, none, some, ltb, ◌==◌, ◌-◌,
  if◌then◌else◌, ℤ, pos, negsuc, negate, ◌+ℤ◌, is_some,
}
use osubot_rs.Text.{Text, codes}
use osubot_rs.Types.{MatchListenAction}
use osubot_rs.MatchListener.{LegacyMatchEvent}
use osubot_rs.MatchStart.{as_i64, i64_bound, initial_cursor_from_response, InitialMatchCursor}
use osubot_rs.Poller.{MatchListenConfig}
use osubot_rs.Database.Listeners.{
  MatchListener, MatchListenerStartParams, is_running, start_match_listener, stop_match_listener,
  stop_all_match_listeners_in_group, get_match_listener, list_active_match_listeners_by_group,
  count_active_match_listeners_in_group, count_active_match_listeners_for_user,
}

pub record LegacyMatchResponse (Content : Type 0) : Type 0 where
  pub name : Text
  pub has_ended : Bool
  pub users : ℕ
  pub events : List (LegacyMatchEvent Content)
  pub latest_event_id : ℕ

pub record Attempt (Content : Type 0) : Type 0 where
  pub asked_at : ℤ
  pub counted_at : ℤ
  pub started_at : ℤ
  pub created_at : ℕ
  pub get_fails : Bool
  pub count_fails : Bool
  pub write_fails : Bool
  pub response : Option (LegacyMatchResponse Content)

-- `MP #…`, or the name that the API gives.
pub data MatchName : Type 0 where
  numbered : ℕ → MatchName
  named : Text → MatchName

pub data MlError : Type 0 where
  limit_exceeded fetch_failed : MlError

pub data MlActionResult : Type 0 where
  started : ℤ → MatchName → MlActionResult
  was_stopped : ℤ → MlActionResult
  stopped_all : ℤ → ℕ → MlActionResult
  listeners : ℤ → List MatchListener → MlActionResult
  match_status : ℤ → Text → Bool → ℕ → ℕ → MlActionResult
  not_found : ℤ → MlActionResult
  failed : ℤ → MlError → MlActionResult

-- Negation on `i64`, and `Duration::hours(6)` in seconds.
abbrev pub neg_i64 : ℤ → ℤ
neg_i64 (pos n) = negate n
neg_i64 (negsuc n) = if n == i64_bound - 1 then negsuc n else pos (suc n)

abbrev pub max_listener_lifetime : ℕ
max_listener_lifetime = 21600

abbrev pub group_or_private_key : Option ℤ → ℤ → ℤ
group_or_private_key (some g) user_id = g
group_or_private_key none user_id = neg_i64 user_id

-- A listener is there, and it runs.
abbrev pub runs_already : ℤ → Option MatchListener → Bool
runs_already now none = false
runs_already now (some l) = is_running now l

abbrev pub Table : Type 0
Table = List MatchListener

-- The count that the limit is held against.
unfoldable pub counted : ℤ → Option ℤ → ℤ → Table → ℕ
unfolding count_active_match_listeners_in_group count_active_match_listeners_for_user
counted now (some g) user_id rows = count_active_match_listeners_in_group g now rows
counted now none user_id rows = count_active_match_listeners_for_user user_id now rows

module _ {Content : Type 0} where
  abbrev pub start_params :
      Attempt Content
      → ℕ
      → InitialMatchCursor
      → Option ℤ
      → ℤ
      → LegacyMatchResponse Content
      → MatchListenerStartParams
  unfolding ◌+ℤ◌
  start_params a match_id c group_id user_id r = record {
    match_id = as_i64 match_id;
    group_id = group_or_private_key group_id user_id;
    user_id = if is_some group_id then none else some user_id;
    notification_type = if is_some group_id then codes "group" else codes "private";
    creator_qq = user_id;
    match_name = r.name;
    expires_at = a.started_at +ℤ pos max_listener_lifetime;
    initial_last_event_id = c.last_event_id;
    initial_last_notified_event_id = c.last_notified_event_id;
  }

  abbrev pub started_with :
      Attempt Content
      → ℕ
      → ℕ
      → Option ℤ
      → ℤ
      → Option (LegacyMatchResponse Content)
      → Table
      → MlActionResult × Table
  unfolding initial_cursor_from_response start_match_listener start_params
  started_with a match_id skip group_id user_id none rows = (failed user_id fetch_failed, rows)
  started_with a match_id skip group_id user_id (some r) rows =
      let c = initial_cursor_from_response r.latest_event_id r.events skip in
      if a.write_fails then (failed user_id fetch_failed, rows) else (
        started user_id (named r.name),
        start_match_listener (start_params a match_id c group_id user_id r) a.created_at
            a.started_at rows,
      )

  unfoldable pub execute_start :
      MatchListenConfig → Attempt Content → ℕ → ℕ → Option ℤ → ℤ → Table → MlActionResult × Table
  unfolding get_match_listener started_with counted
  execute_start cfg a match_id skip group_id user_id rows =
      let key = group_or_private_key group_id user_id in
      if not a.get_fails && runs_already a.asked_at (get_match_listener (as_i64 match_id) key rows)
      then (started user_id (numbered match_id), rows)
      else if a.count_fails
      then (failed user_id fetch_failed, rows)
      else if not (ltb (counted a.counted_at group_id user_id rows) cfg.max_per_group)
      then (failed user_id limit_exceeded, rows)
      else started_with a match_id skip group_id user_id a.response rows

  unfoldable pub execute_stop : Attempt Content → ℕ → Option ℤ → ℤ → Table → MlActionResult × Table
  unfolding stop_match_listener
  execute_stop a match_id group_id user_id rows =
      let result =
        stop_match_listener (as_i64 match_id) (group_or_private_key group_id user_id) rows in
      if a.write_fails
      then (failed user_id fetch_failed, rows)
      else if result.1
      then (was_stopped user_id, result.0)
      else (not_found user_id, result.0)

  unfoldable pub execute_stop_all : Attempt Content → Option ℤ → ℤ → Table → MlActionResult × Table
  unfolding stop_all_match_listeners_in_group
  execute_stop_all a group_id user_id rows =
      let result = stop_all_match_listeners_in_group (group_or_private_key group_id user_id) rows in
      if a.write_fails
      then (failed user_id fetch_failed, rows)
      else (stopped_all user_id result.1, result.0)

  unfoldable pub execute_list : Attempt Content → Option ℤ → ℤ → Table → MlActionResult
  unfolding list_active_match_listeners_by_group
  execute_list a group_id user_id rows =
      if a.get_fails
      then failed user_id fetch_failed
      else listeners user_id (
          list_active_match_listeners_by_group (group_or_private_key group_id user_id) a.asked_at
            rows)

  -- The events with a game.
  unfoldable pub games_played : List (LegacyMatchEvent Content) → ℕ
  games_played [] = 0
  games_played (e ∷ es) = let n = games_played es in if is_some e.game then suc n else n

  abbrev pub status_of : ℤ → Option (LegacyMatchResponse Content) → MlActionResult
  unfolding games_played
  status_of user_id none = failed user_id fetch_failed
  status_of user_id (some r) =
      match_status user_id r.name r.has_ended r.users (games_played r.events)

  unfoldable pub execute_status : Attempt Content → ℕ → Option ℤ → ℤ → Table → MlActionResult
  unfolding get_match_listener status_of
  execute_status a match_id group_id user_id rows =
      let key = group_or_private_key group_id user_id in
      if a.get_fails
      then failed user_id fetch_failed
      else if runs_already a.asked_at (get_match_listener (as_i64 match_id) key rows)
      then status_of user_id a.response
      else not_found user_id

  unfoldable pub execute_ml_action :
      MatchListenConfig
      → Attempt Content
      → MatchListenAction
      → Option ℤ
      → ℤ
      → Table
      → MlActionResult × Table
  unfolding execute_start execute_stop execute_stop_all execute_list execute_status
  execute_ml_action cfg a (MatchListenAction.start match_id skip) group_id user_id rows =
      execute_start cfg a match_id skip group_id user_id rows
  execute_ml_action cfg a (MatchListenAction.stop match_id) group_id user_id rows =
      execute_stop a match_id group_id user_id rows
  execute_ml_action cfg a MatchListenAction.stop_all group_id user_id rows =
      execute_stop_all a group_id user_id rows
  execute_ml_action cfg a MatchListenAction.list group_id user_id rows =
      (execute_list a group_id user_id rows, rows)
  execute_ml_action cfg a (MatchListenAction.status match_id) group_id user_id rows =
      (execute_status a match_id group_id user_id rows, rows)
