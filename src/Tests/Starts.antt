-- ===== src/Tests/Starts.antt =====
-- Listeners that start in the match of the polls.
use osubot_rs.Prelude.{inr, ℕ, ◌≡◌, refl, [], ◌∷◌, ◌++◌, none, arith, pos}
use osubot_rs.Text.{codes, text_eq}
use osubot_rs.MatchListener.{LegacyMatchGame, image, process_events, classify_event}
use osubot_rs.MatchStart.{
  initial_cursor_from_response, first_cursor, last_running, nth_game, starts_at,
}
use osubot_rs.MatchStart.Replay.{start_replays}
use osubot_rs.Tests.Listening.{earlier, game_event, lobby_event}

abbrev running_game : LegacyMatchGame ℕ
running_game = record { end_time = none; content = 987654 }

start_replays_example :
    (process_events
      (first_cursor (
        initial_cursor_from_response 13
          (earlier ++ (game_event 12 none ∷ lobby_event 13 (codes "player-joined") ∷ []))
          3))
      (earlier ++ (game_event 12 none ∷ lobby_event 13 (codes "player-joined") ∷ []))).notifications
    ≡ image 12 (codes "场次开始") (codes "12:30") running_game ∷ []
unfolding classify_event text_eq
start_replays_example =
    start_replays 13 3 earlier (game_event 12 none) running_game
      (lobby_event 13 (codes "player-joined") ∷ []) (omega arith) refl refl (refl, tt)
      (inr (omega arith)) (omega arith) (omega arith)

-- Two games skipped: the second one is taken as seen.
skips :
    initial_cursor_from_response 13 (earlier ++ (game_event 12 none ∷ [])) 2 ≡ starts_at (pos 12)
unfolding initial_cursor_from_response nth_game
skips = refl

-- With no game that runs, the listener starts at the latest event.
starts_at_latest : initial_cursor_from_response 13 earlier 0 ≡ starts_at (pos 13)
unfolding initial_cursor_from_response last_running
starts_at_latest = refl
