-- ===== src/MatchListener.antt =====
-- The match listener's state machine (osubot/src/match_listener/state.rs, and the event types of
-- osubot-core/src/api/match_api.rs). `Content` stands for the fields of a game that the state
-- machine only copies into a notification (beatmap, scores, mods, team and scoring type).
pub mod Cursor
pub mod Notified
pub mod Told
pub mod Sequel
pub mod Batches
use osubot_rs.Prelude.{
  ℕ, Bool, true, false, ◌&&◌, ◌||◌, not, List, [], ◌∷◌, ◌++◌, Option, none, some, ltb, leb, ◌==◌,
  if◌then◌else◌, is_some, unwrap_or,
}
use osubot_rs.Text.{Text, codes, text_eq}

pub record LegacyMatchEventDetail : Type 0 where
  pub event_type : Text
  pub text : Text

pub record LegacyMatchGame (Content : Type 0) : Type 0 where
  pub end_time : Option Text
  pub content : Content

pub record LegacyMatchEvent (Content : Type 0) : Type 0 where
  pub id : ℕ
  pub timestamp : Text
  pub user_id : Option ℕ
  pub detail : LegacyMatchEventDetail
  pub game : Option (LegacyMatchGame Content)

pub record ListenerCursor : Type 0 where
  pub last_event_id : Option ℕ
  pub last_notified_event_id : Option ℕ
  pub pending_game_event_id : Option ℕ

pub data NotificationAction (Content : Type 0) : Type 0 where
  text : ℕ → Text → Text → NotificationAction Content
  image : ℕ → Text → Text → LegacyMatchGame Content → NotificationAction Content

pub data StopReason : Type 0 where
  match_disbanded : StopReason

pub record StateMachineOutput (Content : Type 0) : Type 0 where
  pub notifications : List (NotificationAction Content)
  pub new_last_event_id : Option ℕ
  pub new_last_notified_event_id : Option ℕ
  pub new_pending_game_event_id : Option ℕ
  pub stop_reason : Option StopReason

pub data EventKind : Type 0 where
  lobby completed_game in_progress_game match_disbanded : EventKind

unfoldable pub suppressed_lobby_event : Text → Bool
unfolding text_eq
suppressed_lobby_event event_type =
    text_eq event_type (codes "player-joined")
    || text_eq event_type (codes "player-left")
    || text_eq event_type (codes "host-changed")

-- `output.new_pending_game_event_id == Some(event.id)`.
abbrev pub is_pending : Option ℕ → ℕ → Bool
is_pending none id = false
is_pending (some p) id = p == id

-- `event.id <= last`.
abbrev pub already_processed : Option ℕ → ℕ → Bool
already_processed none id = false
already_processed (some last) id = leb id last

-- The pending game is not completed, and the event comes behind it.
abbrev pub must_wait : Option ℕ → Option ℕ → ℕ → Bool
must_wait none pending id = false
must_wait (some pending_id) pending id = ltb pending_id id && is_some pending

-- The round goes on to the next event, or breaks the loop.
pub data Round (A : Type 0) : Type 0 where
  continue : A → Round A
  break : A → Round A

module _ {Content : Type 0} where
  unfoldable pub game_kind : Option (LegacyMatchGame Content) → EventKind
  game_kind none = lobby
  game_kind (some game) = if is_some game.end_time then completed_game else in_progress_game

  unfoldable pub classify_event : LegacyMatchEvent Content → EventKind
  unfolding game_kind text_eq
  classify_event event =
      if text_eq event.detail.event_type (codes "match-disbanded")
      then EventKind.match_disbanded
      else game_kind event.game

  abbrev pub push_text :
      StateMachineOutput Content → LegacyMatchEvent Content → StateMachineOutput Content
  push_text o e = record o {
    notifications = o.notifications ++ (text e.id e.detail.event_type e.detail.text ∷ []);
  }

  unfoldable pub push_image :
      StateMachineOutput Content
      → LegacyMatchEvent Content
      → Text
      → Text
      → LegacyMatchGame Content
      → StateMachineOutput Content
  push_image o e label played_at game = record o {
    notifications = o.notifications ++ (image e.id label played_at game ∷ []);
  }

  abbrev pub advance : StateMachineOutput Content → ℕ → StateMachineOutput Content
  advance o id = record o { new_last_event_id = some id; new_last_notified_event_id = some id }

  unfoldable pub on_lobby :
      StateMachineOutput Content → LegacyMatchEvent Content → StateMachineOutput Content
  on_lobby o e =
      advance (if not (suppressed_lobby_event e.detail.event_type) then push_text o e else o) e.id

  unfoldable pub push_completed :
      StateMachineOutput Content
      → LegacyMatchEvent Content
      → Option (LegacyMatchGame Content)
      → StateMachineOutput Content
  unfolding push_image
  push_completed o e none = o
  push_completed o e (some game) =
      push_image o e (codes "场次结束") (unwrap_or game.end_time e.timestamp) game

  unfoldable pub on_completed :
      StateMachineOutput Content → LegacyMatchEvent Content → StateMachineOutput Content
  unfolding push_completed
  on_completed o e =
      let o' = advance (push_completed o e e.game) e.id in
      if is_pending o.new_pending_game_event_id e.id
      then record o' { new_pending_game_event_id = none }
      else o'

  unfoldable pub push_start :
      StateMachineOutput Content
      → LegacyMatchEvent Content
      → Option (LegacyMatchGame Content)
      → StateMachineOutput Content
  unfolding push_image
  push_start o e none = o
  push_start o e (some game) =
      if not (is_pending o.new_pending_game_event_id e.id)
      then record (push_image o e (codes "场次开始") e.timestamp game) {
        new_last_notified_event_id = some e.id;
      }
      else o

  unfoldable pub on_in_progress :
      StateMachineOutput Content → LegacyMatchEvent Content → StateMachineOutput Content
  unfolding push_start
  on_in_progress o e = record (push_start o e e.game) { new_pending_game_event_id = some e.id }

  unfoldable pub on_disbanded :
      StateMachineOutput Content → LegacyMatchEvent Content → StateMachineOutput Content
  on_disbanded o e = record (advance (push_text o e) e.id) {
    stop_reason = some StopReason.match_disbanded;
  }

  abbrev pub handle :
      EventKind
      → StateMachineOutput Content
      → LegacyMatchEvent Content
      → Round (StateMachineOutput Content)
  handle lobby o e = continue (on_lobby o e)
  handle completed_game o e = continue (on_completed o e)
  handle in_progress_game o e = break (on_in_progress o e)
  handle match_disbanded o e = break (on_disbanded o e)

  -- One round of the loop.
  unfoldable pub process_event :
      ListenerCursor
      → StateMachineOutput Content
      → LegacyMatchEvent Content
      → Round (StateMachineOutput Content)
  process_event cursor o e =
      if already_processed cursor.last_event_id e.id
      then continue o
      else if must_wait cursor.pending_game_event_id o.new_pending_game_event_id e.id
      then break o
      else handle (classify_event e) o e

  unfoldable pub process_from :
      ListenerCursor
      → StateMachineOutput Content
      → List (LegacyMatchEvent Content)
      → StateMachineOutput Content
  process_from cursor o [] = o
  process_from cursor o (e ∷ es) = elim (process_event cursor o e) [
    | continue o' ↦ process_from cursor o' es
    | break o' ↦ o'
  ]

  abbrev pub initial : ListenerCursor → StateMachineOutput Content
  initial cursor = record {
    notifications = [];
    new_last_event_id = cursor.last_event_id;
    new_last_notified_event_id = cursor.last_notified_event_id;
    new_pending_game_event_id = cursor.pending_game_event_id;
    stop_reason = none;
  }

  unfoldable pub process_events :
      ListenerCursor → List (LegacyMatchEvent Content) → StateMachineOutput Content
  unfolding process_from
  process_events cursor events = process_from cursor (initial cursor) events
