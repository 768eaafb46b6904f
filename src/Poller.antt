-- ===== src/Poller.antt =====
-- The poll of one match listener (osubot/src/match_listener/poller.rs, process_one): the
-- notifications of the state machine are sent in order, and the cursor to store is worked out. A
-- `Channel` stands for the connection and the renderer: what they do with each notification. The
-- texts and images that are sent are left out; what a poll reads from the database and stores there is
-- in Poller.Stored.
pub mod Retry
pub mod Stored
pub mod Resume
use osubot_rs.Prelude.{
  ℕ, Bool, true, false, ◌&&◌, ◌||◌, not, List, [], ◌∷◌, Option, none, some, ◌==◌, if◌then◌else◌,
  is_some,
}
use osubot_rs.Text.{Text, codes, text_eq}
use osubot_rs.MatchListener.{
  LegacyMatchEvent, LegacyMatchGame, ListenerCursor, NotificationAction, text, image,
  StateMachineOutput, process_events,
}
use osubot_rs.MatchListener.Sequel.{next_cursor}

pub record MatchListenConfig : Type 0 where
  pub max_per_group : ℕ
  pub poll_interval_secs : ℕ
  pub notify_on_new_game : Bool
  pub notify_on_complete : Bool

-- `==` on options.
abbrev pub same_id : Option ℕ → Option ℕ → Bool
same_id none none = true
same_id (some a) (some b) = a == b
same_id _ _ = false

-- What a poll stores: the cursor, whether the time of the last notification is set, and whether the
-- listener is stopped; and what it leaves undelivered.
pub record Progress (Content : Type 0) : Type 0 where
  pub final_cursor : ListenerCursor
  pub touch_last_notified_at : Bool
  pub stopped : Bool
  pub undelivered : List (NotificationAction Content)

-- For each notification: whether a connection is open when it is sent, whether its image is rendered,
-- and whether the image and the text are delivered.
pub record Channel (Content : Type 0) : Type 0 where
  pub has_sink : NotificationAction Content → Bool
  pub renders : NotificationAction Content → Bool
  pub image_sent : NotificationAction Content → Bool
  pub text_sent : NotificationAction Content → Bool

module _ {Content : Type 0} where
  -- `game.end_time.is_none() || event_label == "场次开始"`.
  unfoldable pub is_start : LegacyMatchGame Content → Text → Bool
  unfolding text_eq
  is_start game label = not (is_some game.end_time) || text_eq label (codes "场次开始")

  unfoldable pub should_emit_notification : MatchListenConfig → NotificationAction Content → Bool
  unfolding is_start
  should_emit_notification cfg (text id event_type t) = true
  should_emit_notification cfg (image id label played_at game) =
      if is_start game label then cfg.notify_on_new_game else cfg.notify_on_complete

  unfoldable pub apply_acknowledged_notification :
      ListenerCursor → NotificationAction Content → ListenerCursor
  unfolding is_start
  apply_acknowledged_notification cursor (text id event_type t) = record cursor {
    last_event_id = some id;
    last_notified_event_id = some id;
  }
  apply_acknowledged_notification cursor (image id label played_at game) =
      if is_start game label
      then record cursor { last_notified_event_id = some id; pending_game_event_id = some id }
      else record cursor {
        last_event_id = some id;
        last_notified_event_id = some id;
        pending_game_event_id = none;
      }

  abbrev pub with_sink : Channel Content → NotificationAction Content → Bool
  with_sink ch (text id event_type t) = ch.text_sent (text id event_type t)
  with_sink ch (image id label played_at game) =
      let n = image id label played_at game in
      if not (ch.renders n)
      then ch.text_sent n
      else if ch.image_sent n
      then true
      else ch.text_sent n

  abbrev pub send_notification : Channel Content → NotificationAction Content → Bool
  send_notification ch n = if ch.has_sink n then with_sink ch n else false

  -- The loop over the notifications: the acknowledged cursor, and those that the loop did not get to
  -- or could not deliver. `notifications_fully_handled` says that there are none.
  unfoldable pub deliver :
      MatchListenConfig
      → Channel Content
      → ListenerCursor
      → List (NotificationAction Content)
      → ListenerCursor × List (NotificationAction Content)
  unfolding should_emit_notification apply_acknowledged_notification
  deliver cfg ch cursor [] = (cursor, [])
  deliver cfg ch cursor (n ∷ ns) =
      let rest = deliver cfg ch (apply_acknowledged_notification cursor n) ns in
      if not (should_emit_notification cfg n)
      then rest
      else if send_notification ch n
      then rest
      else (cursor, n ∷ ns)

  abbrev pub progress_at :
      ListenerCursor → ListenerCursor → Bool → List (NotificationAction Content) → Progress Content
  progress_at cursor final stopped undelivered = record {
    final_cursor = final;
    touch_last_notified_at =
        not (same_id final.last_notified_event_id cursor.last_notified_event_id);
    stopped = stopped;
    undelivered = undelivered;
  }

  abbrev pub progress_of :
      ListenerCursor
      → StateMachineOutput Content
      → ListenerCursor × List (NotificationAction Content)
      → Progress Content
  progress_of cursor output (acknowledged, []) =
      progress_at cursor (next_cursor output) (is_some output.stop_reason) []
  progress_of cursor output (acknowledged, n ∷ ns) = progress_at cursor acknowledged false (n ∷ ns)

  unfoldable pub process_one :
      MatchListenConfig
      → Channel Content
      → ListenerCursor
      → List (LegacyMatchEvent Content)
      → Progress Content
  unfolding process_events deliver
  process_one cfg ch cursor events =
      let output = process_events cursor events in
      progress_of cursor output (deliver cfg ch cursor output.notifications)
