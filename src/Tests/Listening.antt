-- ===== src/Tests/Listening.antt =====
-- Polls of the match listener as in the repository's tests, and the theorems at concrete responses.
use osubot_rs.Prelude.{ℕ, ◌≡◌, refl, List, [], ◌∷◌, ◌++◌, Option, none, some, inl, inr, arith}
use osubot_rs.Text.{Text, codes, text_eq}
use osubot_rs.MatchListener.{
  LegacyMatchEvent, ListenerCursor, process_events, process_event, on_lobby, on_completed,
  on_in_progress, on_disbanded, suppressed_lobby_event, classify_event, initial,
}
use osubot_rs.MatchListener.Cursor.{NotAfter, process_events-NotAfter}
use osubot_rs.MatchListener.Notified.{Rising, end_of}
use osubot_rs.MatchListener.Told.{OfEvents, process_events-Told}
use osubot_rs.MatchListener.Sequel.{next_cursor, process_events_again}
use osubot_rs.MatchListener.Batches.{after, process_events_batches}

abbrev pub lobby_event : ℕ → Text → LegacyMatchEvent ℕ
lobby_event id event_type = record {
  id = id;
  timestamp = codes "12:00";
  user_id = some 11;
  detail = record { event_type = event_type; text = codes "text" };
  game = none;
}

abbrev pub game_event : ℕ → Option Text → LegacyMatchEvent ℕ
game_event id end_time = record {
  id = id;
  timestamp = codes "12:30";
  user_id = none;
  detail = record { event_type = codes "other"; text = codes "Blue Team won" };
  game = some (record { end_time = end_time; content = 987654 });
}

abbrev pub empty_cursor : ListenerCursor
empty_cursor = record {
  last_event_id = none;
  last_notified_event_id = none;
  pending_game_event_id = none;
}

-- A match is created, a game is played, the next one runs, and a player joins.
abbrev pub response : List (LegacyMatchEvent ℕ)
response =
    lobby_event 10 (codes "match-created")
    ∷ game_event 11 (some (codes "12:29"))
    ∷ game_event 12 none
    ∷ lobby_event 13 (codes "player-joined")
    ∷ []

-- All that the state machine calls, for the runs below.
machine : ℕ
unfolding process_events process_event on_lobby on_completed on_in_progress on_disbanded
    suppressed_lobby_event classify_event text_eq
machine = 0

holds_cursor : next_cursor (process_events empty_cursor response) ≡ record {
  last_event_id = some 11;
  last_notified_event_id = some 12;
  pending_game_event_id = some 12;
}
unfolding machine
holds_cursor = refl

process_events-NotAfter_example :
    NotAfter
      (some 9)
      (process_events (record empty_cursor { last_event_id = some 9 }) response).new_last_event_id
process_events-NotAfter_example =
    process_events-NotAfter (record empty_cursor { last_event_id = some 9 }) response

process_events-Told_example :
    OfEvents response (process_events empty_cursor response).notifications
    × Rising none (end_of 0 response) (process_events empty_cursor response).notifications
process_events-Told_example = process_events-Told empty_cursor response (omega arith)

process_events_again_example :
    process_events (next_cursor (process_events empty_cursor response)) response
    ≡ initial (next_cursor (process_events empty_cursor response))
unfolding machine
process_events_again_example = process_events_again empty_cursor response (omega arith) refl

abbrev pub earlier : List (LegacyMatchEvent ℕ)
earlier = lobby_event 10 (codes "match-created") ∷ game_event 11 (some (codes "12:29")) ∷ []

abbrev later : List (LegacyMatchEvent ℕ)
later = game_event 12 none ∷ lobby_event 13 (codes "player-joined") ∷ []

process_events_batches_example :
    process_events empty_cursor (earlier ++ later)
    ≡ after
        (process_events empty_cursor earlier)
        (process_events (next_cursor (process_events empty_cursor earlier)) later)
unfolding machine
process_events_batches_example =
    process_events_batches empty_cursor earlier later refl (omega arith) (inl refl, (inr refl, tt))
