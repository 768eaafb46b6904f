-- ===== src/Poller/Stored.antt =====
-- A poll and the table of listeners (osubot/src/match_listener/poller.rs, process_one, poll_cycle).
use osubot_rs.Prelude.{ℕ, Bool, not, ◌&&◌, List, [], ◌∷◌, Option, none, some, if◌then◌else◌, ℤ}
use osubot_rs.MatchListener.{LegacyMatchEvent, ListenerCursor}
use osubot_rs.MatchStart.{as_i64, as_u64, stored_id}
use osubot_rs.Poller.{MatchListenConfig, Channel, Progress, process_one}
use osubot_rs.Database.Listeners.{
  MatchListener, update_match_listener_progress, stop_match_listener, expire_old_match_listeners,
  list_active_match_listeners_due_for_polling,
}

-- What the database gives to a poll: the time at which the progress is stored, and the statements
-- that fail.
pub record Writes : Type 0 where
  pub stored_at : ℕ
  pub update_fails : Bool
  pub stop_fails : Bool

abbrev pub cursor_of : MatchListener → ListenerCursor
cursor_of l = record {
  last_event_id = stored_id l.last_event_id;
  last_notified_event_id = stored_id l.last_notified_event_id;
  pending_game_event_id = stored_id l.pending_game_event_id;
}

abbrev pub id_to_store : Option ℕ → Option ℤ
id_to_store none = none
id_to_store (some id) = some (as_i64 id)

abbrev pub touch : Bool → ℕ → Option ℕ
touch b now = if b then some now else none

module _ {Content : Type 0} where
  unfoldable pub store_progress :
      ℤ → ℤ → Progress Content → Writes → List MatchListener → List MatchListener
  unfolding update_match_listener_progress
  store_progress match_id group_id p f rows =
      if f.update_fails
      then rows
      else update_match_listener_progress match_id group_id
          (id_to_store p.final_cursor.last_event_id)
          (id_to_store p.final_cursor.last_notified_event_id)
          (id_to_store p.final_cursor.pending_game_event_id)
          (touch p.touch_last_notified_at f.stored_at) rows

  abbrev pub after_poll :
      ℤ → ℤ → Progress Content → Writes → List MatchListener → List MatchListener
  after_poll match_id group_id p f rows =
      let rows' = store_progress match_id group_id p f rows in
      if p.stopped && not f.stop_fails
      then (stop_match_listener match_id group_id rows').0
      else rows'

  -- `match_id as u64`, and back for the statements. No answer of the API: nothing is done.
  abbrev pub poll_listener :
      MatchListenConfig
      → Channel Content
      → Writes
      → MatchListener
      → Option (List (LegacyMatchEvent Content))
      → List MatchListener
      → List MatchListener
  poll_listener cfg ch f l none rows = rows
  poll_listener cfg ch f l (some events) rows =
      after_poll (as_i64 (as_u64 l.match_id)) l.group_id (process_one cfg ch (cursor_of l) events) f
        rows

  abbrev poll_each :
      MatchListenConfig
      → (MatchListener → Channel Content)
      → (MatchListener → Writes)
      → (MatchListener → Option (List (LegacyMatchEvent Content)))
      → List MatchListener
      → List MatchListener
      → List MatchListener
  poll_each cfg ch f answers [] rows = rows
  poll_each cfg ch f answers (l ∷ ls) rows =
      poll_each cfg ch f answers ls (poll_listener cfg (ch l) (f l) l (answers l) rows)

  -- A cycle: the polls of the listeners that are due, in the order in which they finish. What an
  -- executor makes of that order is `schedule`.
  unfoldable pub poll_cycle :
      MatchListenConfig
      → (MatchListener → Channel Content)
      → (MatchListener → Writes)
      → (MatchListener → Option (List (LegacyMatchEvent Content)))
      → (List MatchListener → List MatchListener)
      → (expired_at listed_at : ℤ) → (expire_fails list_fails : Bool) → List MatchListener
      → List MatchListener
  unfolding expire_old_match_listeners list_active_match_listeners_due_for_polling
  poll_cycle cfg ch f answers schedule expired_at listed_at expire_fails list_fails rows =
      let rows' = if expire_fails then rows else expire_old_match_listeners expired_at rows in
      if list_fails
      then rows'
      else poll_each cfg ch f answers
          (schedule (list_active_match_listeners_due_for_polling listed_at rows')) rows'
