-- ===== src/Tests/Polls.antt =====
-- Polls with messages that are delivered and with one that is not.
use osubot_rs.Prelude.{ℕ, ◌≡◌, refl, true, false, not, [], none, some, All, ◌==◌, arith}
use osubot_rs.Text.{text_eq}
use osubot_rs.MatchListener.{
  process_events, process_event, on_lobby, on_completed, on_in_progress, on_disbanded,
  suppressed_lobby_event, classify_event,
}
use osubot_rs.MatchListener.Cursor.{NotAfter}
use osubot_rs.MatchListener.Notified.{After, event_id_of}
use osubot_rs.Poller.{
  MatchListenConfig, Channel, should_emit_notification, apply_acknowledged_notification, deliver,
  process_one, is_start,
}
use osubot_rs.Poller.Retry.{process_one_retries, process_one_again}
use osubot_rs.Tests.Listening.{response, empty_cursor}

abbrev pub config : MatchListenConfig
config = record {
  max_per_group = 3;
  poll_interval_secs = 8;
  notify_on_new_game = true;
  notify_on_complete = true;
}

-- No image is rendered, and the text on event 12 is not delivered.
abbrev pub fails_at_12 : Channel ℕ
fails_at_12 = record {
  has_sink = λ n. true;
  renders = λ n. false;
  image_sent = λ n. false;
  text_sent = λ n. not (event_id_of n == 12);
}

abbrev pub sends_all : Channel ℕ
sends_all = record {
  has_sink = λ n. true;
  renders = λ n. true;
  image_sent = λ n. true;
  text_sent = λ n. true;
}

-- All that a poll calls, for the runs below.
unfoldable pub polls : ℕ
unfolding process_one deliver should_emit_notification apply_acknowledged_notification is_start
    process_events process_event on_lobby on_completed on_in_progress on_disbanded
    suppressed_lobby_event classify_event text_eq
polls = 0

stores_acknowledged : (process_one config fails_at_12 empty_cursor response).final_cursor ≡ record {
  last_event_id = some 11;
  last_notified_event_id = some 11;
  pending_game_event_id = none;
}
unfolding polls
stores_acknowledged = refl

process_one_retries_example :
    All
      (λ n.
        After
          (process_one config fails_at_12 empty_cursor response).final_cursor.last_event_id
          (event_id_of n))
      (process_one config fails_at_12 empty_cursor response).undelivered
    × NotAfter none
        (process_one config fails_at_12 empty_cursor response).final_cursor.last_event_id
process_one_retries_example =
    process_one_retries config fails_at_12 empty_cursor response (omega arith)

process_one_again_example :
    process_one config fails_at_12
      (process_one config sends_all empty_cursor response).final_cursor
      response
    ≡ record {
      final_cursor = (process_one config sends_all empty_cursor response).final_cursor;
      touch_last_notified_at = false;
      stopped = false;
      undelivered = [];
    }
unfolding polls
process_one_again_example =
    process_one_again config config sends_all fails_at_12 empty_cursor response (omega arith) refl
      refl
