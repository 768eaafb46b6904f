-- ===== src/MatchStart.antt =====
-- Where a new match listener begins (osubot/src/command/match_listen.rs), and the cursor that the
-- poller makes of what is stored (osubot/src/match_listener/poller.rs).
pub mod Replay
pub mod Actions
use osubot_rs.Prelude.{
  ℕ, zero, suc, ◌+◌, ◌-◌, Bool, true, false, not, List, [], ◌∷◌, Option, none, some, ltb, or_else,
  is_some, if◌then◌else◌, ℤ, pos, negsuc,
}
use osubot_rs.MatchListener.{LegacyMatchEvent, LegacyMatchGame, ListenerCursor}

-- 2 ^ 63.
abbrev pub i64_bound : ℕ
i64_bound = 9223372036854775808

-- `id as i64` of a `u64`, and `id as u64` of an `i64`.
abbrev pub as_i64 : ℕ → ℤ
as_i64 id = if ltb id i64_bound then pos id else negsuc (i64_bound + i64_bound - 1 - id)

abbrev pub as_u64 : ℤ → ℕ
as_u64 (pos n) = n
as_u64 (negsuc n) = i64_bound + i64_bound - 1 - n

-- `saturating_sub(1)` on `i64`; `negsuc` of 2 ^ 63 - 1 is the smallest.
abbrev pub before : ℤ → ℤ
before (pos zero) = negsuc 0
before (pos (suc n)) = pos n
before (negsuc n) = if ltb (suc n) i64_bound then negsuc (suc n) else negsuc n

pub record InitialMatchCursor : Type 0 where
  pub last_event_id : Option ℤ
  pub last_notified_event_id : Option ℤ

abbrev pub starts_at : ℤ → InitialMatchCursor
starts_at id = record { last_event_id = some id; last_notified_event_id = some id }

abbrev pub at_running : ℕ → Option ℤ → InitialMatchCursor
at_running latest none = starts_at (as_i64 latest)
at_running latest (some id) = starts_at (before id)

abbrev pub at_skipped : Option ℤ → InitialMatchCursor → InitialMatchCursor
at_skipped none otherwise = otherwise
at_skipped (some id) otherwise = starts_at id

module _ {Content : Type 0} where
  abbrev pub runs : Option (LegacyMatchGame Content) → Bool
  runs none = false
  runs (some game) = not (is_some game.end_time)

  -- `filter(game.is_some()).nth(n)`.
  unfoldable pub nth_game : ℕ → List (LegacyMatchEvent Content) → Option ℤ
  nth_game n [] = none
  nth_game zero (e ∷ es) =
      let rest = nth_game zero es in if is_some e.game then some (as_i64 e.id) else rest
  nth_game (suc n) (e ∷ es) =
      let here = nth_game n es in
      let rest = nth_game (suc n) es in if is_some e.game then here else rest

  -- `rev().find(…)` for a game that has not ended.
  unfoldable pub last_running : List (LegacyMatchEvent Content) → Option ℤ
  last_running [] = none
  last_running (e ∷ es) =
      or_else (last_running es) (if runs e.game then some (as_i64 e.id) else none)

  abbrev pub skipped_game : ℕ → List (LegacyMatchEvent Content) → Option ℤ
  unfolding nth_game
  skipped_game zero events = none
  skipped_game (suc n) events = nth_game n events

  unfoldable pub initial_cursor_from_response :
      ℕ → List (LegacyMatchEvent Content) → ℕ → InitialMatchCursor
  unfolding skipped_game last_running
  initial_cursor_from_response latest_event_id events skip_rounds =
      at_skipped (skipped_game skip_rounds events)
        (at_running latest_event_id (last_running events))

abbrev pub stored_id : Option ℤ → Option ℕ
stored_id none = none
stored_id (some id) = some (as_u64 id)

-- The cursor of the first poll; a new listener has no pending game.
abbrev pub first_cursor : InitialMatchCursor → ListenerCursor
first_cursor i = record {
  last_event_id = stored_id i.last_event_id;
  last_notified_event_id = stored_id i.last_notified_event_id;
  pending_game_event_id = none;
}
